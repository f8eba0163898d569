-- ===== src/Wire/Channel/Render.antt =====
-- The number of a market in the name of a channel reads back.
use lighter_timescaledb_inge.Base.{
  ℕ, zero, suc, ◌+◌, ◌/◌, ◌%◌, ◌≤◌, ◌<◌, ◌≡◌, refl, ap, ◌∙◌, true, false, none, some, [], ◌∷◌, ◌++◌,
  Text, All, is_empty, ◌≢◌, ltb, leb, ◌==◌, arith, Bool-cases, inl, inr,
}
use lighter_timescaledb_inge.Base.Int.{ℤ, pos, negsuc, sub_ℕ}
use lighter_timescaledb_inge.Wire.{OrderBookSideLevels, OrderBookWsMessage}
use lighter_timescaledb_inge.Wire.Channel.{
  split, second, parse_digits, parse_magnitude, i32_max, parse_i32, channel_market,
  order_book_market_id, print_digits, print_nat, print_i32,
}

abbrev IsDigit : ℕ → Type 0
IsDigit c = (b'0' ≤ c) × (c ≤ b'9')

abbrev pub IsI32 : ℤ → Type 0
IsI32 (pos n) = n ≤ i32_max
IsI32 (negsuc n) = n ≤ i32_max

print_digits-All :
    (f n : ℕ) (rest : Text) → n < f → All IsDigit rest → All IsDigit (print_digits f n rest)
unfolding print_digits
print_digits-All zero n rest h a = absurd (omega arith)
print_digits-All (suc f) n rest h a = elim (Bool-cases (ltb n 10)) [
  | inl e ↦ rw e ((ground arith, ground arith), a)
  | inr e ↦ rw e (
      print_digits-All f (n / 10) ((b'0' + n % 10) ∷ rest) (ground arith)
        ((omega arith, omega arith), a))
]

parse_digits-print :
    (f n : ℕ) (rest : Text) → n < f → parse_digits 0 (print_digits f n rest) ≡ parse_digits n rest
unfolding print_digits parse_digits
parse_digits-print zero n rest h = absurd (omega arith)
parse_digits-print (suc f) n rest h = elim (Bool-cases (ltb n 10)) [
  | inl e ↦ ground arith
  | inr e ↦
      rw e (parse_digits-print f (n / 10) ((b'0' + n % 10) ∷ rest) (ground arith) ∙ ground arith)
]

split-digits : (t : Text) → All IsDigit t → split b':' t ≡ t ∷ []
unfolding split
split-digits [] a = refl
split-digits (c ∷ t) a = let ih = split-digits t a.1 in ground arith

print_digits-filled :
    (f n : ℕ) (rest : Text) → is_empty rest ≡ false → is_empty (print_digits f n rest) ≡ false
unfolding print_digits
print_digits-filled zero n rest h = h
print_digits-filled (suc f) n rest h = elim (Bool-cases (ltb n 10)) [
  | inl e ↦ rw e refl
  | inr e ↦ rw e (print_digits-filled f (n / 10) ((b'0' + n % 10) ∷ rest) refl)
]

print_nat-filled : (n : ℕ) → is_empty (print_nat n) ≡ false
unfolding print_digits
print_nat-filled n = elim (Bool-cases (ltb n 10)) [
  | inl e ↦ rw e refl
  | inr e ↦ rw e (print_digits-filled n (n / 10) ((b'0' + n % 10) ∷ []) refl)
]

parse_magnitude-filled : (t : Text) → is_empty t ≡ false → parse_magnitude t ≡ parse_digits 0 t
parse_magnitude-filled [] h = absurd (cc)
parse_magnitude-filled (c ∷ cs) h = refl

parse_magnitude-print : (n : ℕ) → parse_magnitude (print_nat n) ≡ some n
unfolding parse_digits
parse_magnitude-print n =
    parse_magnitude-filled (print_nat n) (print_nat-filled n)
    ∙ parse_digits-print (suc n) n [] (omega arith)

print_nat-All : (n : ℕ) → All IsDigit (print_nat n)
print_nat-All n = print_digits-All (suc n) n [] (omega arith) tt

parse_i32-digits :
    (t : Text) (n : ℕ)
    → All IsDigit t
    → parse_magnitude t ≡ some n
    → n ≤ i32_max
    → parse_i32 t ≡ some (pos n)
unfolding parse_i32
parse_i32-digits [] n a e h = absurd (cc)
parse_i32-digits (c ∷ cs) n a e h =
    let low = a.0.0 in
    let below : (c == b'-') ≡ false = ground arith in
    let other : (c == b'+') ≡ false = ground arith in
    let fits : leb n i32_max ≡ true = ground arith in rw (below, other, e, fits) refl

parse_i32-minus :
    (t : Text) (n : ℕ)
    → parse_magnitude t ≡ some (suc n)
    → n ≤ i32_max
    → parse_i32 (b'-' ∷ t) ≡ some (negsuc n)
unfolding parse_i32
parse_i32-minus t n e h =
    let fits : leb (suc n) (i32_max + 1) ≡ true = ground arith in
    let less : sub_ℕ 0 (suc n) ≡ negsuc n = ground arith in rw (e, fits) (ap some less)

-- An `i32` that is printed parses back.
pub parse_i32-print : (id : ℤ) → IsI32 id → parse_i32 (print_i32 id) ≡ some id
unfolding print_i32
parse_i32-print (pos n) h =
    parse_i32-digits (print_nat n) n (print_nat-All n) (parse_magnitude-print n) h
parse_i32-print (negsuc n) h =
    parse_i32-minus (print_nat (suc n)) n (parse_magnitude-print (suc n)) h

split-print : (id : ℤ) → split b':' (print_i32 id) ≡ print_i32 id ∷ []
unfolding print_i32 split
split-print (pos n) = split-digits (print_nat n) (print_nat-All n)
split-print (negsuc n) = rw (split-digits (print_nat (suc n)) (print_nat-All (suc n))) refl

split-colon :
    (kind t : Text) → All (λ c. c ≢ b':') kind → split b':' (kind ++ b':' ∷ t) ≡ kind ∷ split b':' t
unfolding split
split-colon [] t a = refl
split-colon (c ∷ kind) t a =
    let other : (c == b':') ≡ false = ground (arith, a.0) in rw (other, split-colon kind t a.1) refl

-- The market of a message is the number behind the colon of its channel: if the part before the
-- colon has no colon, every `i32` that is printed there is what `market_id` gives, for a snapshot
-- and for a delta.
pub order_book_market_id-print :
    (kind : Text) (id at : ℤ) (levels : OrderBookSideLevels)
    → All (λ c. c ≢ b':') kind
    → IsI32 id
    → (order_book_market_id (OrderBookWsMessage.subscribed (kind ++ b':' ∷ print_i32 id) at levels)
        ≡ some id)
      × (order_book_market_id (OrderBookWsMessage.update (kind ++ b':' ∷ print_i32 id) at levels)
          ≡ some id)
unfolding order_book_market_id
order_book_market_id-print kind id at levels free fits =
    let e : channel_market (kind ++ b':' ∷ print_i32 id) ≡ some id =
      ap (λ segs. elim (second segs) [ none ↦ none | some seg ↦ parse_i32 seg ])
        (split-colon kind (print_i32 id) free ∙ ap (λ l. kind ∷ l) (split-print id))
      ∙ parse_i32-print id fits in
    (e, e)
