-- ===== src/Wire/Channel.antt =====
-- `market_id` of orderbook.rs and trade_ws.rs: the number behind the first colon of a channel. The
-- string functions are those of Rust's standard library.
pub mod Render
use lighter_timescaledb_inge.Base.{
  ℕ, zero, suc, ◌+◌, ◌-◌, ◌*◌, ◌/◌, ◌%◌, Bool, true, false, ◌&&◌, Option, none, some, List, [], ◌∷◌,
  Text, ltb, leb, ◌==◌, if◌then◌else◌,
}
use lighter_timescaledb_inge.Base.Int.{ℤ, pos, negsuc, sub_ℕ}
use lighter_timescaledb_inge.Wire.{OrderBookWsMessage, TradeWsMessage}

abbrev cons_head : ℕ → List Text → List Text
cons_head x [] = (x ∷ []) ∷ []
cons_head x (seg ∷ segs) = (x ∷ seg) ∷ segs

-- `channel.split(c)`
unfoldable pub split : ℕ → Text → List Text
split c [] = [] ∷ []
split c (x ∷ xs) = let rest = split c xs in if x == c then [] ∷ rest else cons_head x rest

-- `.nth(1)`
abbrev pub second : List Text → Option Text
second [] = none
second (a ∷ []) = none
second (a ∷ b ∷ segs) = some b

-- The value of the decimal digits, from the value read so far.
unfoldable pub parse_digits : ℕ → Text → Option ℕ
parse_digits n [] = some n
parse_digits n (c ∷ cs) =
    if leb b'0' c && leb c b'9' then parse_digits (n * 10 + (c - b'0')) cs else none

abbrev pub parse_magnitude : Text → Option ℕ
parse_magnitude [] = none
parse_magnitude (c ∷ cs) = parse_digits 0 (c ∷ cs)

abbrev pub i32_max : ℕ
i32_max = 2147483647

-- The number with this sign and magnitude, if it fits an `i32`.
abbrev to_i32 : Bool → Option ℕ → Option ℤ
to_i32 negative none = none
to_i32 false (some n) = if leb n i32_max then some (pos n) else none
to_i32 true (some n) = if leb n (i32_max + 1) then some (sub_ℕ 0 n) else none

-- `str::parse::<i32>().ok()`
unfoldable pub parse_i32 : Text → Option ℤ
unfolding parse_digits
parse_i32 [] = none
parse_i32 (c ∷ cs) =
    if c == b'-'
    then to_i32 true (parse_magnitude cs)
    else if c == b'+'
    then to_i32 false (parse_magnitude cs)
    else to_i32 false (parse_magnitude (c ∷ cs))

abbrev pub channel_market : Text → Option ℤ
channel_market channel = elim (second (split b':' channel)) [ none ↦ none | some id ↦ parse_i32 id ]

-- `OrderBookWsMessage::market_id`
unfoldable pub order_book_market_id : OrderBookWsMessage → Option ℤ
unfolding split parse_i32
order_book_market_id (OrderBookWsMessage.subscribed channel _ _) = channel_market channel
order_book_market_id (OrderBookWsMessage.update channel _ _) = channel_market channel

-- `TradeWsMessage::market_id`
unfoldable pub trade_market_id : TradeWsMessage → Option ℤ
unfolding split parse_i32
trade_market_id (TradeWsMessage.subscribed channel _ _ _) = channel_market channel
trade_market_id (TradeWsMessage.update channel _ _ _) = channel_market channel

-- `format!("{}", n)` of a number: its digits in front of `rest`. The fuel bounds their number.
unfoldable pub print_digits : ℕ → ℕ → Text → Text
print_digits zero n rest = rest
print_digits (suc f) n rest =
    let more = print_digits f (n / 10) ((b'0' + n % 10) ∷ rest) in
    if ltb n 10 then (b'0' + n) ∷ rest else more

abbrev pub print_nat : ℕ → Text
print_nat n = print_digits (suc n) n []

unfoldable pub print_i32 : ℤ → Text
unfolding print_digits
print_i32 (pos n) = print_nat n
print_i32 (negsuc n) = b'-' ∷ print_nat (suc n)
