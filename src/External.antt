-- ===== src/External.antt =====
-- What the code takes from other crates, as interfaces: `bigdecimal`, `chrono`, `serde_json`, and
-- the `f64` of Rust. A law is what the crate documents of the operation.
use lighter_timescaledb_inge.Base.{ℕ, ◌*◌, Ordering, ◌≡◌, Bool, Option, some, List, Text}
use lighter_timescaledb_inge.Base.Int.{ℤ, pos, scale, ◌+ℤ◌, ◌≤ℤ◌, ◌<ℤ◌, ltb_ℤ, leb_ℤ}
use lighter_timescaledb_inge.OrderedMap.{IsOrder}
use lighter_timescaledb_inge.Wire.{PriceLevel, OrderBookWsMessage, TradeWsMessage, FundingsResponse}

-- `BigDecimal`: exact decimals, compared by value.
pub record Decimals : Type 1 where
  pub Decimal : Type 0
  pub from_str : Text → Option Decimal
  pub is_zero : Decimal → Bool
  pub cmp : Decimal → Decimal → Ordering
  pub cmp-IsOrder : IsOrder cmp

-- `chrono::DateTime<Utc>`: instants, ordered by their nanoseconds since the epoch, between an
-- earliest and a latest one. An addition that leaves this range panics, here `none`.
pub record Chrono : Type 1 where
  pub DateTime : Type 0
  pub nanos : DateTime → ℤ
  pub earliest : ℤ
  pub latest : ℤ
  pub from_timestamp_micros : ℤ → Option DateTime
  pub from_timestamp_millis : ℤ → Option DateTime
  -- `from_timestamp(secs, 0)`
  pub from_timestamp : ℤ → Option DateTime
  -- The whole seconds since the epoch, rounded down.
  pub timestamp : DateTime → ℤ
  pub timestamp_micros : DateTime → ℤ
  -- `+ Duration::seconds(n)`
  pub add_secs : DateTime → ℕ → Option DateTime
  pub from_timestamp-nanos :
      (secs : ℤ) (t : DateTime) → from_timestamp secs ≡ some t → nanos t ≡ scale 1000000000 secs
  pub from_timestamp_total :
      (secs : ℤ)
      → earliest ≤ℤ scale 1000000000 secs
      → scale 1000000000 secs ≤ℤ latest
      → (t : DateTime) × (from_timestamp secs ≡ some t)
  pub timestamp_floor :
      (t : DateTime)
      → (scale 1000000000 (timestamp t) ≤ℤ nanos t)
        × (nanos t <ℤ scale 1000000000 (timestamp t) +ℤ pos 1000000000)
  pub add_secs-nanos :
      (t : DateTime) (n : ℕ) (u : DateTime)
      → add_secs t n ≡ some u
      → nanos u ≡ nanos t +ℤ pos (1000000000 * n)
  pub add_secs_total :
      (t : DateTime) (n : ℕ)
      → nanos t +ℤ pos (1000000000 * n) ≤ℤ latest
      → (u : DateTime) × (add_secs t n ≡ some u)

module _ ⦃c : Chrono⦄ where
  -- `<` on instants
  abbrev pub earlier : c.DateTime → c.DateTime → Bool
  earlier a b = ltb_ℤ (c.nanos a) (c.nanos b)

  -- `<=` on instants
  abbrev pub not_later : c.DateTime → c.DateTime → Bool
  not_later a b = leb_ℤ (c.nanos a) (c.nanos b)

-- `serde_json`, with the derived readers and writers of the message types.
pub record Serde : Type 1 where
  pub Json : Type 0
  pub from_str : Text → Option Json
  pub get : Json → Text → Option Json
  pub as_str : Json → Option Text
  pub to_order_book_message : Json → Option OrderBookWsMessage
  pub to_trade_message : Json → Option TradeWsMessage
  pub to_fundings : Text → Option FundingsResponse
  -- `to_string`
  pub to_string : Json → Option Text
  pub levels_to_value : List PriceLevel → Option Json
  pub levels_from_value : Json → Option (List PriceLevel)
  -- What was written reads back.
  pub levels_roundtrip :
      (levels : List PriceLevel) (j : Json)
      → levels_to_value levels ≡ some j
      → levels_from_value j ≡ some levels

-- `f64`, of which the code only parses and stores values.
pub record Floats : Type 1 where
  pub F64 : Type 0
  pub parse : Text → Option F64
