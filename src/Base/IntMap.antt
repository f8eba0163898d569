-- ===== src/Base/IntMap.antt =====
-- `HashMap<i32, V>` as an association list, in one of the orders in which it may be iterated.
use mathlib.Core.Path.{◌≡◌, refl, ap}
use mathlib.Core.Logic.{◌≢◌}
use mathlib.Core.Bool.{Bool, true, false}
use mathlib.Core.Option.{Option, none, some}
use mathlib.Core.List.{List, [], ◌∷◌}
use native.Mathlib.Omega.{arith}
use lighter_timescaledb_inge.Base.Test.{if◌then◌else◌}
use lighter_timescaledb_inge.Base.Lists.{All, All-imp}
use lighter_timescaledb_inge.Base.Int.{ℤ, ◌==ℤ◌, ==ℤ_iff, ==ℤ_refl}

abbrev pub IntMap {ℓ} : Type ℓ → Type ℓ
IntMap V = List (ℤ × V)

module _ {ℓ} {V : Type ℓ} where
  unfoldable pub lookup : ℤ → IntMap V → Option V
  lookup k [] = none
  lookup k ((j, v) ∷ m) = if k ==ℤ j then some v else lookup k m

  abbrev pub contains_key : ℤ → IntMap V → Bool
  contains_key k m = elim (lookup k m) [ none ↦ false | some _ ↦ true ]

  unfoldable pub insert : ℤ → V → IntMap V → IntMap V
  insert k v [] = (k, v) ∷ []
  insert k v ((j, w) ∷ m) = if k ==ℤ j then (j, v) ∷ m else (j, w) ∷ insert k v m

  pub lookup-insert :
      (k j : ℤ) (v : V) (m : IntMap V)
      → lookup k (insert j v m) ≡ (if k ==ℤ j then some v else lookup k m)
  unfolding lookup insert
  lookup-insert k j v [] = refl
  lookup-insert k j v ((i, w) ∷ m) =
      ground (arith, ==ℤ_iff k j, ==ℤ_iff j i, ==ℤ_iff k i, lookup-insert k j v m)

  pub lookup-insert_self : (k : ℤ) (v : V) (m : IntMap V) → lookup k (insert k v m) ≡ some v
  lookup-insert_self k v m = rw (lookup-insert, ==ℤ_refl k)

  pub lookup-insert_ne :
      (k j : ℤ) (v : V) (m : IntMap V) → k ≢ j → lookup k (insert j v m) ≡ lookup k m
  lookup-insert_ne k j v m h = ground (arith, lookup-insert k j v m, ==ℤ_iff k j)

  -- No key is listed twice.
  abbrev pub IsDistinct : IntMap V → Type ℓ
  IsDistinct [] = Unit
  IsDistinct ((k, v) ∷ m) = (lookup k m ≡ none) × IsDistinct m

  pub insert-IsDistinct : (k : ℤ) (v : V) (m : IntMap V) → IsDistinct m → IsDistinct (insert k v m)
  unfolding lookup insert
  insert-IsDistinct k v [] h = (refl, tt)
  insert-IsDistinct k v ((j, w) ∷ m) h =
      ground (arith, insert-IsDistinct k v m h.1, lookup-insert j k v m, ==ℤ_iff j k, ==ℤ_iff k j)

  found_below :
      (k : ℤ) (v : V) (m : IntMap V) (e : ℤ × V)
      → lookup k m ≡ none
      → lookup e.0 m ≡ some e.1
      → lookup e.0 ((k, v) ∷ m) ≡ some e.1
  unfolding lookup
  found_below k v m e free found = ground (arith, ==ℤ_iff e.0 k, ap (λ (j : ℤ). lookup j m))

  -- Every entry that is iterated over is what a lookup finds.
  pub IsDistinct-entries :
      (m : IntMap V) → IsDistinct m → All (λ (e : ℤ × V). lookup e.0 m ≡ some e.1) m
  unfolding lookup
  IsDistinct-entries [] h = tt
  IsDistinct-entries ((k, v) ∷ m) h = (
    rw (==ℤ_refl k),
    All-imp (λ e found. found_below k v m e h.0 found) m (IsDistinct-entries m h.1),
  )
