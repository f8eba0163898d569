-- ===== src/OrderedMap.antt =====
-- `BTreeMap<K, V>` as the list of its entries in key order. `cmp` is the `Ord` of the keys: equal
-- keys need not be identical (`1.50` and `1.5`), and an `insert` at an equal key keeps the old key.
pub mod Lookup
use lighter_timescaledb_inge.Base.{
  Ordering, lt, eq, gt, ◌≡◌, Option, none, some, List, [], ◌∷◌, All,
}

-- What `BTreeMap` asks of `Ord`.
pub record IsOrder {ℓ} {K : Type ℓ} (cmp : K → K → Ordering) : Type ℓ where
  pub eq_cmp : (a b c : K) → cmp a b ≡ eq → cmp a c ≡ cmp b c
  pub lt_flips : (a b : K) → cmp a b ≡ lt → cmp b a ≡ gt
  pub cmp_refl : (a : K) → cmp a a ≡ eq
  pub gt_flips : (a b : K) → cmp a b ≡ gt → cmp b a ≡ lt
  pub eq_symm : (a b : K) → cmp a b ≡ eq → cmp b a ≡ eq
  pub lt_trans : (a b c : K) → cmp a b ≡ lt → cmp b c ≡ lt → cmp a c ≡ lt

module _ {ℓ κ} {K : Type ℓ} {V : Type κ} (cmp : K → K → Ordering) where
  unfoldable pub get : K → List (K × V) → Option V
  get q [] = none
  get q ((k, v) ∷ m) = elim (cmp q k) [ eq ↦ some v | _ ↦ get q m ]

  unfoldable pub insert : K → V → List (K × V) → List (K × V)
  insert q w [] = (q, w) ∷ []
  insert q w ((k, v) ∷ m) = elim (cmp q k) [
    | lt ↦ (q, w) ∷ (k, v) ∷ m
    | eq ↦ (k, w) ∷ m
    | gt ↦ (k, v) ∷ insert q w m
  ]

  unfoldable pub remove : K → List (K × V) → List (K × V)
  remove q [] = []
  remove q ((k, v) ∷ m) = elim (cmp q k) [ lt ↦ (k, v) ∷ m | eq ↦ m | gt ↦ (k, v) ∷ remove q m ]

  -- The keys increase strictly.
  abbrev pub IsSorted : List (K × V) → Type 0
  IsSorted [] = Unit
  IsSorted ((k, v) ∷ m) = All (λ (e : K × V). cmp k e.0 ≡ lt) m × IsSorted m

unfoldable pub values {ℓ κ} : {K : Type ℓ} {V : Type κ} → List (K × V) → List V
values [] = []
values ((k, v) ∷ m) = v ∷ values m
