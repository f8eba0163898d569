-- ===== src/Book/Rebuild.antt =====
-- The order of the levels that a book lists, and that the listing is a snapshot of the book.
use mathlib.Core.List.{reverse-cons}
use lighter_timescaledb_inge.Base.{
  eq, ◌≡◌, refl, ◌∙◌, ap, Bool, false, Option, none, some, List, [], ◌∷◌, ◌++◌, reverse, All,
  All-reverse, ok, arith, Result-cases, inl, inr,
}
use lighter_timescaledb_inge.OrderedMap.{get, values}
use lighter_timescaledb_inge.OrderedMap.Lookup.{values_ext, get_below, All-same}
use lighter_timescaledb_inge.External.{Decimals}
use lighter_timescaledb_inge.Wire.{PriceLevel}
use lighter_timescaledb_inge.Book.{Side, Book, parse, from_snapshot, bids, asks}
use lighter_timescaledb_inge.Book.Valid.{IsQuoted, IsValidSide, IsValid, from_snapshot-IsValid}
use lighter_timescaledb_inge.Book.Levels.{at_price, last_at, decided, from_snapshot-get, or_else}
use lighter_timescaledb_inge.Book.Accept.{IsSnapshotLevel, from_snapshot_total}

module _ ⦃d : Decimals⦄ where
  values-IsSnapshotLevel : (side : Side) → All IsQuoted side → All IsSnapshotLevel (values side)
  unfolding values
  values-IsSnapshotLevel [] q = tt
  values-IsSnapshotLevel ((k, level) ∷ side) q = elim (Result-cases (parse level)) [
    | inl (e, bad) ↦ absurd (rw (bad, IsQuoted) at q.0)
    | inr ((price, size), good) ↦
        let (same, nonzero) = (rw (good, IsQuoted) at q.0) in
        (rw (good, IsSnapshotLevel) nonzero, values-IsSnapshotLevel side q.1)
  ]

  last_at-append :
      (p : d.Decimal) (xs ys : List PriceLevel)
      → last_at p (xs ++ ys) ≡ or_else (last_at p ys) (last_at p xs)
  unfolding last_at
  last_at-append p [] ys = ground arith
  last_at-append p (x ∷ xs) ys = ground (arith, last_at-append p xs ys)

  -- The level that a quoted entry shows at a price.
  at_price-quoted :
      (p k : d.Decimal) (level : PriceLevel)
      → IsQuoted (k, level)
      → at_price p level ≡ elim (d.cmp p k) [ eq ↦ some (false, level) | _ ↦ none ]
  at_price-quoted p k level q = elim (Result-cases (parse level)) [
    | inl (e, bad) ↦ absurd (rw (bad, IsQuoted) at q)
    | inr ((price, size), good) ↦
        let (same, nonzero) = (rw (good, IsQuoted) at q) in
        ground (
          arith,
          good,
          same,
          nonzero,
          d.cmp-IsOrder.eq_cmp p k price,
          d.cmp-IsOrder.eq_cmp p price k,
          d.cmp-IsOrder.eq_symm k price,
        )
  ]

  abbrev listed : Option PriceLevel → Option (Bool × PriceLevel)
  listed none = none
  listed (some level) = some (false, level)

  last_at-values :
      (p : d.Decimal) (side : Side)
      → IsValidSide side
      → last_at p (values side) ≡ listed (get d.cmp p side)
  unfolding last_at values get
  last_at-values p [] v = refl
  last_at-values p ((k, level) ∷ side) v = ground (
    arith,
    last_at-values p side (record { sorted = v.sorted.1; quoted = v.quoted.1 }),
    at_price-quoted p k level v.quoted.0,
    get_below d.cmp-IsOrder p side,
    All-same d.cmp-IsOrder k p side v.sorted.0,
    d.cmp-IsOrder.eq_symm p k,
  )

  last_at-reverse :
      (p : d.Decimal) (side : Side)
      → IsValidSide side
      → last_at p (reverse (values side)) ≡ listed (get d.cmp p side)
  unfolding last_at values get
  last_at-reverse p [] v = refl
  last_at-reverse p ((k, level) ∷ side) v =
      rw (reverse-cons, last_at-append)
        (ground (
          arith,
          last_at-reverse p side (record { sorted = v.sorted.1; quoted = v.quoted.1 }),
          at_price-quoted p k level v.quoted.0,
          get_below d.cmp-IsOrder p side,
          All-same d.cmp-IsOrder k p side v.sorted.0,
          d.cmp-IsOrder.eq_symm p k,
        ))

  decided-listed : (o : Option PriceLevel) → decided (listed o) none ≡ o
  decided-listed none = refl
  decided-listed (some level) = refl

  -- Two books hold the same level at every price.
  abbrev pub SameLevels : Book → Book → Type 0
  SameLevels a b =
      (p : d.Decimal)
      → (get d.cmp p a.bid_side ≡ get d.cmp p b.bid_side)
        × (get d.cmp p a.ask_side ≡ get d.cmp p b.ask_side)

  -- Valid books that hold the same levels list the same bids and asks.
  pub SameLevels-listing :
      (a b : Book) → IsValid a → IsValid b → SameLevels a b → (bids a ≡ bids b) × (asks a ≡ asks b)
  unfolding bids asks
  SameLevels-listing a b v w h = (
    ap reverse (
        values_ext d.cmp-IsOrder a.bid_side b.bid_side v.valid_bids.sorted w.valid_bids.sorted
          (λ p. (h p).0)),
    values_ext d.cmp-IsOrder a.ask_side b.ask_side v.valid_asks.sorted w.valid_asks.sorted
        (λ p. (h p).1),
  )

  -- The listing of a valid book, read as a snapshot, gives a valid book with the same level at
  -- every price.
  pub from_snapshot-listing :
      (book : Book)
      → IsValid book
      → (book' : Book) × (from_snapshot (bids book) (asks book) ≡ ok book')
        × IsValid book'
        × SameLevels book' book
  unfolding bids asks
  from_snapshot-listing book v =
      let bs = reverse (values book.bid_side) in
      let as' = values book.ask_side in
      let hb =
        All-reverse IsSnapshotLevel (values book.bid_side)
          (values-IsSnapshotLevel book.bid_side v.valid_bids.quoted) in
      let ha = values-IsSnapshotLevel book.ask_side v.valid_asks.quoted in
      let (book', e) = from_snapshot_total bs as' hb ha in
      (
        book',
        e,
        from_snapshot-IsValid bs as' book' e,
        λ p.
            let g = from_snapshot-get bs as' book' e p in
            (
              g.0 ∙ rw (last_at-reverse p book.bid_side v.valid_bids) (decided-listed _),
              g.1 ∙ rw (last_at-values p book.ask_side v.valid_asks) (decided-listed _),
            ),
      )

  -- The listing of a valid book is a snapshot that `from_snapshot` accepts, and the book built
  -- from it is valid and lists the same bids and asks again.
  pub listing_roundtrip :
      (book : Book)
      → IsValid book
      → (book' : Book) × (from_snapshot (bids book) (asks book) ≡ ok book')
        × IsValid book'
        × (bids book' ≡ bids book)
        × (asks book' ≡ asks book)
  listing_roundtrip book v =
      let (book', e, v', same) = from_snapshot-listing book v in
      let l = SameLevels-listing book' book v' v same in (book', e, v', l.0, l.1)
