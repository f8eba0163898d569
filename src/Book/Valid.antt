-- ===== src/Book/Valid.antt =====
-- The invariant of a book, and that every operation of book.rs establishes or keeps it.
use lighter_timescaledb_inge.Base.{
  eq, ◌≡◌, false, List, [], ◌∷◌, All, ok, err, arith, Bool-cases, Result-cases, inl, inr,
}
use lighter_timescaledb_inge.OrderedMap.{insert, remove, IsSorted}
use lighter_timescaledb_inge.OrderedMap.Lookup.{
  All-insert, All-remove, insert-IsSorted, remove-IsSorted,
}
use lighter_timescaledb_inge.External.{Decimals}
use lighter_timescaledb_inge.Wire.{PriceLevel}
use lighter_timescaledb_inge.Book.{
  Side, Book, parse, insert_levels, apply_side, side_from_snapshot, from_snapshot, apply_delta,
}

module _ ⦃d : Decimals⦄ where
  -- The level parses, its price is the key's value, and its size is not zero.
  abbrev pub IsQuoted : d.Decimal × PriceLevel → Type 0
  IsQuoted (k, level) = elim (parse level) [
    | err _ ↦ ⊥
    | ok (price, size) ↦ (d.cmp k price ≡ eq) × (d.is_zero size ≡ false)
  ]

  pub record IsValidSide (side : Side) : Type 0 where
    pub sorted : IsSorted d.cmp side
    pub quoted : All IsQuoted side

  pub record IsValid (book : Book) : Type 0 where
    pub valid_bids : IsValidSide book.bid_side
    pub valid_asks : IsValidSide book.ask_side

  pub insert-IsValidSide :
      (price size : d.Decimal) (level : PriceLevel) (side : Side)
      → parse level ≡ ok (price, size)
      → d.is_zero size ≡ false
      → IsValidSide side
      → IsValidSide (insert d.cmp price level side)
  insert-IsValidSide price size level side e z v = record {
    sorted = insert-IsSorted d.cmp-IsOrder price level side v.sorted;
    quoted =
        All-insert d.cmp-IsOrder IsQuoted price level side
          (rw (e, IsQuoted) (d.cmp-IsOrder.cmp_refl price, z))
          (λ k old same _. rw (e, IsQuoted) (d.cmp-IsOrder.eq_symm price k same, z)) v.quoted;
  }

  pub remove-IsValidSide :
      (price : d.Decimal) (side : Side) → IsValidSide side → IsValidSide (remove d.cmp price side)
  remove-IsValidSide price side v = record {
    sorted = remove-IsSorted d.cmp-IsOrder price side v.sorted;
    quoted = All-remove d.cmp-IsOrder IsQuoted price side v.quoted;
  }

  insert_levels-IsValidSide :
      (levels : List PriceLevel) (side side' : Side)
      → IsValidSide side
      → insert_levels side levels ≡ ok side'
      → IsValidSide side'
  unfolding insert_levels
  insert_levels-IsValidSide [] side side' v h = ground arith
  insert_levels-IsValidSide (level ∷ levels) side side' v h = elim (Result-cases (parse level)) [
    | inl (e, bad) ↦ cc (rw bad at h)
    | inr ((price, size), good) ↦ elim (Bool-cases (d.is_zero size)) [
      | inl z ↦ cc (rw (good, z) at h)
      | inr z ↦
          insert_levels-IsValidSide levels (insert d.cmp price level side) side'
            (insert-IsValidSide price size level side good z v) (rw (good, z) at h)
    ]
  ]

  -- Also where a level stops the loop, the side that the levels before it left is valid.
  pub apply_side-IsValidSide :
      (levels : List PriceLevel) (side : Side)
      → IsValidSide side
      → IsValidSide (apply_side levels side).1
  unfolding apply_side
  apply_side-IsValidSide [] side v = v
  apply_side-IsValidSide (level ∷ levels) side v = elim (Result-cases (parse level)) [
    | inl (e, bad) ↦ rw bad v
    | inr ((price, size), good) ↦ elim (Bool-cases (d.is_zero size)) [
      | inl z ↦
          rw (good, z)
            (apply_side-IsValidSide levels (remove d.cmp price side)
              (remove-IsValidSide price side v))
      | inr z ↦
          rw (good, z)
            (apply_side-IsValidSide levels (insert d.cmp price level side)
              (insert-IsValidSide price size level side good z v))
    ]
  ]

  -- A snapshot that is accepted gives a valid book: on each side the prices increase strictly,
  -- and every level parses to its key's value and has a size that is not zero.
  pub from_snapshot-IsValid :
      (bids asks : List PriceLevel) (book : Book) → from_snapshot bids asks ≡ ok book → IsValid book
  unfolding from_snapshot side_from_snapshot
  from_snapshot-IsValid bids asks book h = elim (Result-cases (insert_levels [] bids)) [
    | inl (e, bad) ↦ cc (rw bad at h)
    | inr (b, good) ↦ elim (Result-cases (insert_levels [] asks)) [
      | inl (e, bad) ↦ cc (rw (good, bad) at h)
      | inr (a, fine) ↦ ground (
        arith,
        good,
        fine,
        insert_levels-IsValidSide bids [] b (record { sorted = tt; quoted = tt }) good,
        insert_levels-IsValidSide asks [] a (record { sorted = tt; quoted = tt }) fine,
      )
    ]
  ]

  -- A delta keeps a book valid, whether it is applied whole or fails at one of its levels.
  pub apply_delta-IsValid :
      (bids asks : List PriceLevel) (book : Book)
      → IsValid book
      → IsValid (apply_delta bids asks book).1
  unfolding apply_delta
  apply_delta-IsValid bids asks book v = ground (
    arith,
    apply_side-IsValidSide bids book.bid_side v.valid_bids,
    apply_side-IsValidSide asks book.ask_side v.valid_asks,
  )
