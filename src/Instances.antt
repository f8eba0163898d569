-- ===== src/Instances.antt =====
-- Concrete instances of the interfaces of External.antt, which show that their laws can hold, for
-- the witnesses. A decimal is a whole number, an instant is its nanoseconds within a year of the
-- epoch, and a JSON value is a text, a list of levels, or a message of one of two channels; a few
-- sample texts parse to messages.
use lighter_timescaledb_inge.Base.{
  ℕ, ◌+◌, ◌*◌, ◌/◌, ◌==◌, ◌&&◌, compare, ◌≡◌, Option, none, some, List, [], ◌∷◌, Text, codes, arith,
  if◌then◌else◌, text_eq,
}
use lighter_timescaledb_inge.Base.Int.{ℤ, pos, negsuc, scale, ◌+ℤ◌, ◌≤ℤ◌, ◌<ℤ◌, leb_ℤ}
use lighter_timescaledb_inge.OrderedMap.{IsOrder}
use lighter_timescaledb_inge.Wire.{
  Funding, FundingsResponse, PriceLevel, OrderBookSideLevels, OrderBookWsMessage, TradeWsMessage,
}
use lighter_timescaledb_inge.Wire.Channel.{parse_magnitude}
use lighter_timescaledb_inge.External.{Decimals, Chrono, Serde, Floats}

pub compare-IsOrder : IsOrder compare
compare-IsOrder = ground arith

instance abbrev pub whole_decimals : Decimals
whole_decimals = record {
  Decimal = ℕ;
  from_str = λ t. parse_magnitude t;
  is_zero = λ n. n == 0;
  cmp = compare;
  cmp-IsOrder = compare-IsOrder;
}

-- A year on either side of the epoch, in nanoseconds.
abbrev span : ℕ
span = 31536000000000000

abbrev floor_div : ℤ → ℕ → ℤ
floor_div (pos n) k = pos (n / k)
floor_div (negsuc n) k = negsuc (n / k)

-- The instant, if it is in range.
abbrev pub in_range : ℤ → Option ℤ
in_range t = if leb_ℤ (negsuc span) t && leb_ℤ t (pos span) then some t else none

pub in_range-eq : (t u : ℤ) → in_range t ≡ some u → u ≡ t
in_range-eq t u h = ground arith

pub in_range_total : (t : ℤ) → negsuc span ≤ℤ t → t ≤ℤ pos span → (u : ℤ) × (in_range t ≡ some u)
in_range_total t l h = (t, ground arith)

pub floor_div_bounds :
    (t : ℤ)
    → (scale 1000000000 (floor_div t 1000000000) ≤ℤ t)
      × (t <ℤ scale 1000000000 (floor_div t 1000000000) +ℤ pos 1000000000)
unfolding scale ◌+ℤ◌
floor_div_bounds (pos n) = ground arith
floor_div_bounds (negsuc n) = ground arith

abbrev pub sum_in_range : ℤ → ℕ → Option ℤ
sum_in_range t n =
    if leb_ℤ (t +ℤ pos (1000000000 * n)) (pos span) then some (t +ℤ pos (1000000000 * n)) else none

pub sum_in_range-eq :
    (t : ℤ) (n : ℕ) (u : ℤ) → sum_in_range t n ≡ some u → u ≡ t +ℤ pos (1000000000 * n)
sum_in_range-eq t n u h = ground arith

pub sum_in_range_total :
    (t : ℤ) (n : ℕ) → t +ℤ pos (1000000000 * n) ≤ℤ pos span → (u : ℤ) × (sum_in_range t n ≡ some u)
sum_in_range_total t n h = (t +ℤ pos (1000000000 * n), ground arith)

instance abbrev pub year_chrono : Chrono
year_chrono = record {
  DateTime = ℤ;
  nanos = λ t. t;
  earliest = negsuc span;
  latest = pos span;
  from_timestamp_micros = λ m. in_range (scale 1000 m);
  from_timestamp_millis = λ m. in_range (scale 1000000 m);
  from_timestamp = λ s. in_range (scale 1000000000 s);
  timestamp = λ t. floor_div t 1000000000;
  timestamp_micros = λ t. floor_div t 1000;
  add_secs = sum_in_range;
  from_timestamp-nanos = λ s t h. in_range-eq (scale 1000000000 s) t h;
  from_timestamp_total = λ s l h. in_range_total (scale 1000000000 s) l h;
  timestamp_floor = floor_div_bounds;
  add_secs-nanos = sum_in_range-eq;
  add_secs_total = sum_in_range_total;
}

pub data SampleJson : Type 0 where
  text : Text → SampleJson
  levels : List PriceLevel → SampleJson
  order_book_message : OrderBookWsMessage → SampleJson
  trade_message : TradeWsMessage → SampleJson

abbrev pub level : ℕ → ℕ → PriceLevel
level p q = record { price = (b'0' + p) ∷ []; size = (b'0' + q) ∷ [] }

-- A snapshot of market 7 with the bids 3 and 5 and the ask 8, and a delta that removes the bid 5.
abbrev pub sample_levels : ℤ → ℤ → List PriceLevel → List PriceLevel → OrderBookSideLevels
sample_levels begin_nonce nonce bids asks = record {
  offset = pos 1;
  nonce = nonce;
  begin_nonce = begin_nonce;
  asks = asks;
  bids = bids;
}

abbrev pub sample_snapshot : OrderBookWsMessage
sample_snapshot =
    OrderBookWsMessage.subscribed (codes "order_book:7") (pos 1000)
      (sample_levels (pos 0) (pos 10) (level 3 1 ∷ level 5 2 ∷ []) (level 8 4 ∷ []))

abbrev pub sample_delta : OrderBookWsMessage
sample_delta =
    OrderBookWsMessage.update (codes "order_book:7") (pos 2000)
      (sample_levels (pos 10) (pos 15) (level 5 0 ∷ []) (level 9 1 ∷ []))

abbrev sample_texts : Text → Option SampleJson
sample_texts t =
    if text_eq t (codes "s")
    then some (order_book_message sample_snapshot)
    else if text_eq t (codes "d")
    then some (order_book_message sample_delta)
    else none

abbrev sample_get : SampleJson → Text → Option SampleJson
sample_get (order_book_message m) key =
    if text_eq key (codes "type") then some (text (codes "update/order_book")) else none
sample_get (trade_message m) key =
    if text_eq key (codes "type") then some (text (codes "update/trade")) else none
sample_get _ key = none

abbrev sample_text : SampleJson → Option Text
sample_text (text t) = some t
sample_text _ = none

abbrev sample_order_book : SampleJson → Option OrderBookWsMessage
sample_order_book (order_book_message m) = some m
sample_order_book _ = none

abbrev sample_trade : SampleJson → Option TradeWsMessage
sample_trade (trade_message m) = some m
sample_trade _ = none

abbrev sample_level_list : SampleJson → Option (List PriceLevel)
sample_level_list (levels l) = some l
sample_level_list _ = none

-- The settlements of the hours 1 and 2.
abbrev pub funding_at : ℕ → Funding
funding_at secs = record { timestamp = pos secs; rate = codes "12"; direction = codes "long" }

abbrev pub sample_response : FundingsResponse
sample_response = record {
  code = pos 200;
  resolution = codes "1h";
  fundings = funding_at 3600 ∷ funding_at 7200 ∷ [];
}

abbrev sample_fundings : Text → Option FundingsResponse
sample_fundings t = if text_eq t (codes "f") then some sample_response else none

pub sample_roundtrip :
    (l : List PriceLevel) (j : SampleJson)
    → ◌≡◌ {A = Option SampleJson} (some (levels l)) (some j)
    → sample_level_list j ≡ some l
sample_roundtrip l j h = ground arith

instance abbrev pub sample_serde : Serde
sample_serde = record {
  Json = SampleJson;
  from_str = sample_texts;
  get = sample_get;
  as_str = sample_text;
  to_order_book_message = sample_order_book;
  to_trade_message = sample_trade;
  to_fundings = sample_fundings;
  to_string = λ j. sample_text j;
  levels_to_value = λ l. some (levels l);
  levels_from_value = sample_level_list;
  levels_roundtrip = sample_roundtrip;
}

-- A float is its text.
instance abbrev pub text_floats : Floats
text_floats = record { F64 = Text; parse = λ t. some t }
