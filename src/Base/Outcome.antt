-- ===== src/Base/Outcome.antt =====
-- Fallible and stateful code. `Result` is `color_eyre::Result`: an error is the site that raised
-- it, without the context texts that `wrap_err` adds. An action returns the state after an error
-- too, since what was written through `&mut` stays written.
use mathlib.Core.Path.{◌≡◌, refl, ap}
use mathlib.Core.Bool.{Bool, true, false}
use mathlib.Core.Option.{Option, none, some}
use mathlib.Core.Logic.{◌⊎◌, inl, inr}

pub data Error : Type 0 where
  -- book.rs
  bad_price bad_size zero_size : Error
  -- ws.rs
  bad_timestamp unserializable before_snapshot nonce_gap time_backwards : Error
  bad_frame bad_message no_market_id unknown_market channel_closed bad_float : Error
  stream_ended read_error closed_by_server socket_failed : Error
  -- funding.rs
  bad_body bad_code bad_resolution bad_rate empty_direction : Error
  panicked before_start not_increasing after_now request_failed database_failed no_markets : Error
  -- main.rs
  fetch_failed bad_market_code no_market_listed bad_market_type missing_settings no_database_url :
      Error
  -- export.rs
  no_dataset output_exists unknown_symbol export_failed : Error
  -- a reader of the stored rows
  row_gap row_unreadable : Error

pub data Result {ℓ} (A : Type ℓ) : Type ℓ where
  ok : A → Result A
  err : Error → Result A

-- The `?` operator.
abbrev pub and_then {ℓ κ} : {A : Type ℓ} {B : Type κ} → Result A → (A → Result B) → Result B
and_then (ok a) f = f a
and_then (err e) f = err e

-- `ok_or_else`
abbrev pub ok_or {ℓ} : {A : Type ℓ} → Option A → Error → Result A
ok_or none e = err e
ok_or (some a) e = ok a

abbrev pub Action {ℓ κ} : Type ℓ → Type κ → Type (ℓ ⊔ κ)
Action S A = S → Result A × S

module _ {ℓ κ} {S : Type ℓ} {A : Type κ} where
  abbrev pub pure : A → Action S A
  pure a s = (ok a, s)

  abbrev pub lift : Result A → Action S A
  lift r s = (r, s)

  abbrev pub fail : Error → Action S A
  fail e s = (err e, s)

  abbrev pub gets : (S → A) → Action S A
  gets f s = (ok (f s), s)

infixl 5 ◌>>=◌ ◌>>◌
abbrev pub ◌>>=◌ {ℓ κ μ} :
    {S : Type ℓ} {A : Type κ} {B : Type μ} → Action S A → (A → Action S B) → Action S B
◌>>=◌ m f s = let (r, s') = m s in elim r [ ok a ↦ f a s' | err e ↦ (err e, s') ]

abbrev pub ◌>>◌ {ℓ κ} : {S : Type ℓ} {B : Type κ} → Action S (Unit {0}) → Action S B → Action S B
m >> k = m >>= λ _. k

abbrev pub modify {ℓ} : {S : Type ℓ} → (S → S) → Action S (Unit {0})
modify f s = (ok tt, f s)

-- `if c { bail!(e) }`
abbrev pub bail_if {ℓ} : {S : Type ℓ} → Bool → Error → Action S (Unit {0})
bail_if true e s = (err e, s)
bail_if false e s = (ok tt, s)

pub Result-cases {ℓ} :
    {A : Type ℓ} (r : Result A) → ((e : Error) × (r ≡ err e)) ⊎ ((a : A) × (r ≡ ok a))
Result-cases (ok a) = inr (a, refl)
Result-cases (err e) = inl (e, refl)

-- How an action ended, and with which state.
pub Outcome-cases {ℓ κ} :
    {S : Type ℓ} {A : Type κ} (r : Result A × S)
    → ((e : Error) × (s : S) × (r ≡ (err e, s))) ⊎ ((a : A) × (s : S) × (r ≡ (ok a, s)))
Outcome-cases (ok a, s) = inr (a, s, refl)
Outcome-cases (err e, s) = inl (e, s, refl)

-- What a chain that ended well did: its first part, and then the rest.
pub >>=-eq-ok {ℓ κ μ} :
    {S : Type ℓ} {A : Type κ} {B : Type μ} (m : Action S A) (f : A → Action S B) (s : S) {b : B}
    {s'' : S}
    → (m >>= f) s ≡ (ok b, s'')
    → (a : A) × (s' : S) × (m s ≡ (ok a, s')) × (f a s' ≡ (ok b, s''))
>>=-eq-ok {S} {A} {B} m f s {b} {s''} h = by_result (m s) refl h
  where
    by_result :
        (r : Result A × S)
        → m s ≡ r
        → ◌≡◌ {A = Result B × S} (((λ _. r) >>= f) s) (ok b, s'')
        → (a : A) × (s' : S) × (m s ≡ (ok a, s')) × (f a s' ≡ (ok b, s''))
    by_result (ok a, s') e h = (a, s', e, h)
    by_result (err x, s') e h = absurd (cc)

pub ok-injective {ℓ} : {A : Type ℓ} (a b : A) → ok a ≡ ok b → a ≡ b
ok-injective a b h = ap (λ r. elim r [ ok x ↦ x | err _ ↦ a ]) h

-- What an operation that may fail answered, if no error came of it.
pub ok_or-eq-ok {ℓ κ} :
    {S : Type ℓ} {A : Type κ} (r : Option A × S) (e : Error) (a : A) (s : S)
    → ◌≡◌ {A = Result A × S} (ok_or r.0 e, r.1) (ok a, s)
    → r ≡ (some a, s)
ok_or-eq-ok (none, s') e a s h = absurd (cc)
ok_or-eq-ok {S} {A} (some x, s') e a s h =
    ap (λ (y : Result A × S). (elim y.0 [ ok z ↦ some z | err _ ↦ none ], y.1)) h

pub ok_or-some {ℓ} : {A : Type ℓ} (o : Option A) (e : Error) (a : A) → ok_or o e ≡ ok a → o ≡ some a
ok_or-some none e a h = absurd (cc)
ok_or-some (some x) e a h = ap some (ok-injective x a h)

pub and_then-eq-ok {ℓ κ} :
    {A : Type ℓ} {B : Type κ} (r : Result A) (f : A → Result B) (b : B)
    → and_then r f ≡ ok b
    → (a : A) × (r ≡ ok a) × (f a ≡ ok b)
and_then-eq-ok (ok a) f b h = (a, refl, h)
and_then-eq-ok (err e) f b h = absurd (cc)
