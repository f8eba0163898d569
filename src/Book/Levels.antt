-- ===== src/Book/Levels.antt =====
-- What a book holds at a price, after a snapshot and after a delta: the last level of the message
-- at that price decides.
use lighter_timescaledb_inge.Base.{
  eq, ◌≡◌, refl, Bool, true, false, Option, none, some, List, [], ◌∷◌, ok, err, arith, Bool-cases,
  Result-cases, inl, inr, if◌then◌else◌,
}
use lighter_timescaledb_inge.OrderedMap.{get, insert, remove}
use lighter_timescaledb_inge.OrderedMap.Lookup.{get-insert, get-remove}
use lighter_timescaledb_inge.External.{Decimals}
use lighter_timescaledb_inge.Wire.{PriceLevel}
use lighter_timescaledb_inge.Book.{
  Side, Book, parse, insert_levels, apply_side, side_from_snapshot, from_snapshot, apply_delta,
}
use lighter_timescaledb_inge.Book.Valid.{
  IsValidSide, IsValid, insert-IsValidSide, remove-IsValidSide,
}

module _ ⦃d : Decimals⦄ where
  abbrev same_price : d.Decimal → d.Decimal → Bool
  same_price p q = elim (d.cmp p q) [ eq ↦ true | _ ↦ false ]

  -- The level, if it is at the price `p`, with whether its size is zero.
  abbrev pub at_price : d.Decimal → PriceLevel → Option (Bool × PriceLevel)
  at_price p level = elim (parse level) [
    | err _ ↦ none
    | ok (price, size) ↦ if same_price p price then some (d.is_zero size, level) else none
  ]

  abbrev pub or_else {ℓ} : {A : Type ℓ} → Option A → Option A → Option A
  or_else none b = b
  or_else (some a) b = some a

  -- The last level of the message at the price `p`.
  unfoldable pub last_at : d.Decimal → List PriceLevel → Option (Bool × PriceLevel)
  last_at p [] = none
  last_at p (level ∷ levels) = or_else (last_at p levels) (at_price p level)

  -- What the side holds at a price afterwards, if it held `old` before.
  abbrev pub decided : Option (Bool × PriceLevel) → Option PriceLevel → Option PriceLevel
  decided none old = old
  decided (some (true, level)) old = none
  decided (some (false, level)) old = some level

  apply_side-get :
      (p : d.Decimal) (levels : List PriceLevel) (side : Side)
      → IsValidSide side
      → (apply_side levels side).0 ≡ ok tt
      → get d.cmp p (apply_side levels side).1 ≡ decided (last_at p levels) (get d.cmp p side)
  unfolding apply_side last_at
  apply_side-get p [] side v h = refl
  apply_side-get p (level ∷ levels) side v h = elim (Result-cases (parse level)) [
    | inl (e, bad) ↦ cc (rw bad at h)
    | inr ((price, size), good) ↦ elim (Bool-cases (d.is_zero size)) [
      | inl z ↦ ground (
        arith,
        good,
        z,
        get-remove d.cmp-IsOrder p price side v.sorted,
        apply_side-get p levels (remove d.cmp price side) (remove-IsValidSide price side v),
      )
      | inr z ↦ ground (
        arith,
        good,
        z,
        get-insert d.cmp-IsOrder p price level side,
        apply_side-get p levels (insert d.cmp price level side)
            (insert-IsValidSide price size level side good z v),
      )
    ]
  ]

  -- On a valid book a delta that is applied whole leaves at each price of each side what the last
  -- level of the delta at that price says: nothing if its size is zero, else that level; and what
  -- was there if the delta has no level at the price.
  pub apply_delta-get :
      (bids asks : List PriceLevel) (book : Book)
      → IsValid book
      → (apply_delta bids asks book).0 ≡ ok tt
      → (p : d.Decimal)
      → let book' = (apply_delta bids asks book).1 in
        (get d.cmp p book'.bid_side ≡ decided (last_at p bids) (get d.cmp p book.bid_side))
        × (get d.cmp p book'.ask_side ≡ decided (last_at p asks) (get d.cmp p book.ask_side))
  unfolding apply_delta
  apply_delta-get bids asks book v h p = ground (
    arith,
    apply_side-get p bids book.bid_side v.valid_bids,
    apply_side-get p asks book.ask_side v.valid_asks,
  )

  insert_levels-get :
      (p : d.Decimal) (levels : List PriceLevel) (side side' : Side)
      → insert_levels side levels ≡ ok side'
      → get d.cmp p side' ≡ decided (last_at p levels) (get d.cmp p side)
  unfolding insert_levels last_at
  insert_levels-get p [] side side' h = ground arith
  insert_levels-get p (level ∷ levels) side side' h = elim (Result-cases (parse level)) [
    | inl (e, bad) ↦ cc (rw bad at h)
    | inr ((price, size), good) ↦ elim (Bool-cases (d.is_zero size)) [
      | inl z ↦ cc (rw (good, z) at h)
      | inr z ↦ ground (
        arith,
        good,
        z,
        get-insert d.cmp-IsOrder p price level side,
        insert_levels-get p levels (insert d.cmp price level side) side',
      )
    ]
  ]

  get_nothing : (p : d.Decimal) → get {V = PriceLevel} d.cmp p [] ≡ none
  unfolding get
  get_nothing p = refl

  -- A book built from a snapshot holds at each price the last level of the snapshot at that price,
  -- and nothing where the snapshot has none.
  pub from_snapshot-get :
      (bids asks : List PriceLevel) (book : Book)
      → from_snapshot bids asks ≡ ok book
      → (p : d.Decimal)
      → (get d.cmp p book.bid_side ≡ decided (last_at p bids) none)
        × (get d.cmp p book.ask_side ≡ decided (last_at p asks) none)
  unfolding from_snapshot side_from_snapshot
  from_snapshot-get bids asks book h p = elim (Result-cases (insert_levels [] bids)) [
    | inl (e, bad) ↦ cc (rw bad at h)
    | inr (b, good) ↦ elim (Result-cases (insert_levels [] asks)) [
      | inl (e, bad) ↦ cc (rw (good, bad) at h)
      | inr (a, fine) ↦ ground (
        arith,
        good,
        fine,
        get_nothing p,
        insert_levels-get p bids [] b good,
        insert_levels-get p asks [] a fine,
      )
    ]
  ]
