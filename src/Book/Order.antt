-- ===== src/Book/Order.antt =====
-- The order in which a book lists its levels.
use mathlib.Core.List.{reverse-cons}
use lighter_timescaledb_inge.Base.{
  lt, gt, ◌≡◌, subst, List, [], ◌∷◌, reverse, All, All-reverse, Pairwise, Pairwise-append, ok, err,
  Result-cases, inl, inr,
}
use lighter_timescaledb_inge.OrderedMap.{values}
use lighter_timescaledb_inge.External.{Decimals}
use lighter_timescaledb_inge.Wire.{PriceLevel}
use lighter_timescaledb_inge.Book.{Side, Book, parse, bids, asks}
use lighter_timescaledb_inge.Book.Valid.{IsQuoted, IsValidSide, IsValid}

module _ {ℓ κ} {A : Type ℓ} (R : A → A → Type κ) where
  Pairwise-reverse : (xs : List A) → Pairwise R xs → Pairwise (λ a b. R b a) (reverse xs)
  Pairwise-reverse [] p = tt
  Pairwise-reverse (x ∷ xs) p = rw reverse-cons (
      Pairwise-append (λ a b. R b a) (reverse xs) x (Pairwise-reverse xs p.1)
        (All-reverse (R x) xs p.0))

module _ ⦃d : Decimals⦄ where
  -- Both prices are decimals, and the first is lower.
  abbrev pub Below : PriceLevel → PriceLevel → Type 0
  Below a b = elim (parse a) [
    | err _ ↦ ⊥
    | ok (p, _) ↦ elim (parse b) [ err _ ↦ ⊥ | ok (q, _) ↦ d.cmp p q ≡ lt ]
  ]

  Below-of_keys :
      (k j : d.Decimal) (a b : PriceLevel)
      → d.cmp k j ≡ lt
      → IsQuoted (k, a)
      → IsQuoted (j, b)
      → Below a b
  Below-of_keys k j a b h qa qb = elim (Result-cases (parse a)) [
    | inl (e, bad) ↦ absurd (rw (bad, IsQuoted) at qa)
    | inr ((p, u), pa) ↦ elim (Result-cases (parse b)) [
      | inl (e, bad) ↦ absurd (rw (bad, IsQuoted) at qb)
      | inr ((q, w), pb) ↦
          let (kp, _) = (rw (pa, IsQuoted) at qa) in
          let (jq, _) = (rw (pb, IsQuoted) at qb) in
          let pj = subst (λ x. x ≡ lt) (d.cmp-IsOrder.eq_cmp k p j kp) h in
          let qp =
            subst (λ x. x ≡ gt) (d.cmp-IsOrder.eq_cmp j q p jq) (d.cmp-IsOrder.lt_flips p j pj) in
          rw (pa, pb, Below) (d.cmp-IsOrder.gt_flips q p qp)
    ]
  ]

  All-Below :
      (k : d.Decimal) (a : PriceLevel) (side : Side)
      → IsQuoted (k, a)
      → All (λ (e : d.Decimal × PriceLevel). d.cmp k e.0 ≡ lt) side
      → All IsQuoted side
      → All (Below a) (values side)
  unfolding values
  All-Below k a [] q h qs = tt
  All-Below k a ((j, b) ∷ side) q h qs =
      (Below-of_keys k j a b h.0 q qs.0, All-Below k a side q h.1 qs.1)

  values-Below : (side : Side) → IsValidSide side → Pairwise Below (values side)
  unfolding values
  values-Below [] v = tt
  values-Below ((k, a) ∷ side) v = (
    All-Below k a side v.quoted.0 v.sorted.0 v.quoted.1,
    values-Below side (record { sorted = v.sorted.1; quoted = v.quoted.1 }),
  )

  -- A valid book lists its asks from the lowest price up and its bids from the highest price down,
  -- with no two levels of a side at one price.
  pub listing_ordered :
      (book : Book)
      → IsValid book
      → Pairwise (λ a b. Below b a) (bids book) × Pairwise Below (asks book)
  unfolding bids asks
  listing_ordered book v = (
    Pairwise-reverse Below (values book.bid_side) (values-Below book.bid_side v.valid_bids),
    values-Below book.ask_side v.valid_asks,
  )
