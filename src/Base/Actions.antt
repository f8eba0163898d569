-- ===== src/Base/Actions.antt =====
-- Laws of actions: what a chain of them does, keeps, and cannot fail to do.
use mathlib.Core.Path.{◌≡◌, refl, ap}
use lighter_timescaledb_inge.Base.Outcome.{Result, ok, err, Action, ◌>>=◌, ◌>>◌, pure}

module _ {ℓ} {S : Type ℓ} where
  pub >>=-assoc : (m k l : Action S (Unit {0})) (s : S) → (m >> (k >> l)) s ≡ ((m >> k) >> l) s
  >>=-assoc m k l s = by_result (m s)
    where
      by_result :
          (r : Result (Unit {0}) × S)
          → ((λ (x : S). r) >> (k >> l)) s ≡ (((λ (x : S). r) >> k) >> l) s
      by_result (ok _, s') = refl
      by_result (err e, s') = refl

  pub >>-ok : (m k : Action S (Unit {0})) (s s' : S) → m s ≡ (ok tt, s') → (m >> k) s ≡ k s'
  >>-ok m k s s' h = ap (λ (r : Result (Unit {0}) × S). ((λ (x : S). r) >> k) s) h

  pub >>-pure : (m : Action S (Unit {0})) (s : S) → (m >> pure tt) s ≡ m s
  >>-pure m s = by_result (m s)
    where
      by_result : (r : Result (Unit {0}) × S) → ((λ (x : S). r) >> pure tt) s ≡ r
      by_result (ok _, s') = refl
      by_result (err e, s') = refl

  pub >>-ext :
      (m k l : Action S (Unit {0})) (s : S) → ((s' : S) → k s' ≡ l s') → (m >> k) s ≡ (m >> l) s
  >>-ext m k l s h = by_result (m s)
    where
      by_result : (r : Result (Unit {0}) × S) → ((λ (x : S). r) >> k) s ≡ ((λ (x : S). r) >> l) s
      by_result (ok _, s') = h s'
      by_result (err e, s') = refl

module _ {ℓ} {S : Type ℓ} where
  -- An action that cannot fail.
  abbrev pub Succeeds : {A : Type 0} → Action S A → Type ℓ
  Succeeds {A} m = (s : S) → (a : A) × ((m s).0 ≡ ok a)

  pub >>=-Succeeds :
      {A B : Type 0} (m : Action S A) (k : A → Action S B)
      → Succeeds m
      → ((a : A) → Succeeds (k a))
      → Succeeds (m >>= k)
  >>=-Succeeds {A} {B} m k first rest s = by_result (m s) (first s)
    where
      by_result :
          (r : Result A × S)
          → ((a : A) × (r.0 ≡ ok a))
          → (b : B) × ((((λ (x : S). r) >>= k) s).0 ≡ ok b)
      by_result (ok a, s') h = rest a s'
      by_result (err e, s') (a, h) = absurd (cc)

-- An action that keeps `P`, also where it fails.
abbrev pub Preserves {ℓ κ μ} : {S : Type ℓ} {A : Type κ} → (S → Type μ) → Action S A → Type (ℓ ⊔ μ)
Preserves {S} P m = (s : S) → P s → P (m s).1

pub Preserves-bind {ℓ κ μ ν} :
    {S : Type ℓ} {A : Type κ} {B : Type ν} (P : S → Type μ) (m : Action S A) (k : A → Action S B)
    → Preserves P m
    → ((a : A) → Preserves P (k a))
    → Preserves P (m >>= k)
Preserves-bind {S} {A} P m k first rest s h = by_result (m s) (first s h)
  where
    by_result : (r : Result A × S) → P r.1 → P (((λ (x : S). r) >>= k) s).1
    by_result (ok a, s') h' = rest a s' h'
    by_result (err e, s') h' = h'
