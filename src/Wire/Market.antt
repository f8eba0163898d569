-- ===== src/Wire/Market.antt =====
-- crates/lighter-rs-types/src/market.rs: the markets of the exchange, as `/api/v1/orderBooks` lists them.
use lighter_timescaledb_inge.Base.{ℕ, List, Text}
use lighter_timescaledb_inge.Base.Int.{ℤ}

pub record OrderBookInfo : Type 0 where
  pub symbol : Text
  pub market_id : ℤ
  pub market_type : Text
  pub base_asset_id : ℤ
  pub quote_asset_id : ℤ
  pub status : Text
  pub taker_fee : Text
  pub maker_fee : Text
  pub liquidation_fee : Text
  pub min_base_amount : Text
  pub min_quote_amount : Text
  pub order_quote_limit : Text
  pub supported_size_decimals : ℕ
  pub supported_price_decimals : ℕ
  pub supported_quote_decimals : ℕ

pub record OrderBooksResponse : Type 0 where
  pub code : ℤ
  pub order_books : List OrderBookInfo
