-- ===== src/Book/Accept.antt =====
-- Which messages book.rs accepts.
use lighter_timescaledb_inge.Base.{
  ◌≡◌, ◌↔◌, refl, false, List, [], ◌∷◌, All, ok, err, arith, Bool-cases, Result-cases, inl, inr,
}
use lighter_timescaledb_inge.OrderedMap.{insert, remove}
use lighter_timescaledb_inge.External.{Decimals}
use lighter_timescaledb_inge.Wire.{PriceLevel}
use lighter_timescaledb_inge.Book.{
  Side, Book, parse, insert_levels, apply_side, side_from_snapshot, from_snapshot, apply_delta,
}

module _ ⦃d : Decimals⦄ where
  -- Price and size are decimals.
  abbrev pub IsDecimalLevel : PriceLevel → Type 0
  IsDecimalLevel level = elim (parse level) [ err _ ↦ ⊥ | ok _ ↦ Unit ]

  -- Price and size are decimals, and the size is not zero.
  abbrev pub IsSnapshotLevel : PriceLevel → Type 0
  IsSnapshotLevel level = elim (parse level) [
    | err _ ↦ ⊥
    | ok (price, size) ↦ d.is_zero size ≡ false
  ]

  apply_side-ok_iff :
      (levels : List PriceLevel) (side : Side)
      → ((apply_side levels side).0 ≡ ok tt) ↔ All IsDecimalLevel levels
  unfolding apply_side
  apply_side-ok_iff [] side = (λ _. tt, λ _. refl)
  apply_side-ok_iff (level ∷ levels) side = elim (Result-cases (parse level)) [
    | inl (e, bad) ↦ rw (bad, IsDecimalLevel) (λ h. cc, λ h. absurd h.0)
    | inr ((price, size), good) ↦ elim (Bool-cases (d.is_zero size)) [
      | inl z ↦
          rw (good, z, IsDecimalLevel)
            (let ih = apply_side-ok_iff levels (remove d.cmp price side) in
              (λ h. (tt, ih.0 h), λ h. ih.1 h.1))
      | inr z ↦
          rw (good, z, IsDecimalLevel)
            (let ih = apply_side-ok_iff levels (insert d.cmp price level side) in
              (λ h. (tt, ih.0 h), λ h. ih.1 h.1))
    ]
  ]

  -- A delta is applied whole exactly when all its levels have a decimal price and size.
  pub apply_delta-ok_iff :
      (bids asks : List PriceLevel) (book : Book)
      → ((apply_delta bids asks book).0 ≡ ok tt)
        ↔ (All IsDecimalLevel bids × All IsDecimalLevel asks)
  unfolding apply_delta
  apply_delta-ok_iff bids asks book =
      let b = apply_side-ok_iff bids book.bid_side in
      let a = apply_side-ok_iff asks book.ask_side in
      elim (Result-cases (apply_side bids book.bid_side).0) [
        | inl (e, bad) ↦ (λ h. ground arith, λ h. absurd (cc (b.1 h.0)))
        | inr (u, good) ↦ (λ h. (b.0 good, a.0 (ground arith)), λ h. ground (arith, a.1 h.1))
      ]

  insert_levels_total :
      (levels : List PriceLevel) (side : Side)
      → All IsSnapshotLevel levels
      → (side' : Side) × (insert_levels side levels ≡ ok side')
  unfolding insert_levels
  insert_levels_total [] side a = (side, refl)
  insert_levels_total (level ∷ levels) side a = elim (Result-cases (parse level)) [
    | inl (e, bad) ↦ absurd (rw (bad, IsSnapshotLevel) at a.0)
    | inr ((price, size), good) ↦
        rw (good, (rw (good, IsSnapshotLevel) at a.0))
          (insert_levels_total levels (insert d.cmp price level side) a.1)
  ]

  insert_levels_sound :
      (levels : List PriceLevel) (side side' : Side)
      → insert_levels side levels ≡ ok side'
      → All IsSnapshotLevel levels
  unfolding insert_levels
  insert_levels_sound [] side side' h = tt
  insert_levels_sound (level ∷ levels) side side' h = elim (Result-cases (parse level)) [
    | inl (e, bad) ↦ cc (rw bad at h)
    | inr ((price, size), good) ↦ elim (Bool-cases (d.is_zero size)) [
      | inl z ↦ cc (rw (good, z) at h)
      | inr z ↦ (
        rw (good, IsSnapshotLevel) z,
        insert_levels_sound levels (insert d.cmp price level side) side' (rw (good, z) at h),
      )
    ]
  ]

  pub from_snapshot_total :
      (bids asks : List PriceLevel)
      → All IsSnapshotLevel bids
      → All IsSnapshotLevel asks
      → (book : Book) × (from_snapshot bids asks ≡ ok book)
  unfolding from_snapshot side_from_snapshot
  from_snapshot_total bids asks hb ha =
      let (b, eb) = insert_levels_total bids [] hb in
      let (a, ea) = insert_levels_total asks [] ha in
      (record { bid_side = b; ask_side = a }, rw (eb, ea))

  -- A snapshot gives a book exactly when every level of both sides has a decimal price and a
  -- decimal size that is not zero.
  pub from_snapshot-ok_iff :
      (bids asks : List PriceLevel)
      → ((book : Book) × (from_snapshot bids asks ≡ ok book))
        ↔ (All IsSnapshotLevel bids × All IsSnapshotLevel asks)
  unfolding from_snapshot side_from_snapshot
  from_snapshot-ok_iff bids asks = (
    λ (book, h). elim (Result-cases (insert_levels [] bids)) [
      | inl (e, bad) ↦ cc (rw bad at h)
      | inr (b, good) ↦ elim (Result-cases (insert_levels [] asks)) [
        | inl (e, bad) ↦ cc (rw (good, bad) at h)
        | inr (a, fine) ↦ (insert_levels_sound bids [] b good, insert_levels_sound asks [] a fine)
      ]
    ],
    λ (hb, ha). from_snapshot_total bids asks hb ha,
  )
