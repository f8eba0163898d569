-- ===== src/Wire.antt =====
-- The message types of crates/lighter-rs-types/src. Texts are lists of code points; `i32` and
-- `i64` are integers.
pub mod Channel
pub mod Market
pub mod Account
mod Examples
use lighter_timescaledb_inge.Base.{Bool, List, Text}
use lighter_timescaledb_inge.Base.Int.{ℤ}

-- orderbook.rs
pub record PriceLevel : Type 0 where
  pub price : Text
  pub size : Text

pub record OrderBookSideLevels : Type 0 where
  pub offset : ℤ
  pub nonce : ℤ
  pub begin_nonce : ℤ
  pub asks : List PriceLevel
  pub bids : List PriceLevel

-- channel, last_updated_at, order_book
pub data OrderBookWsMessage : Type 0 where
  subscribed : Text → ℤ → OrderBookSideLevels → OrderBookWsMessage
  update : Text → ℤ → OrderBookSideLevels → OrderBookWsMessage

-- trade.rs
pub record Trade : Type 0 where
  pub trade_id : ℤ
  pub tx_hash : Text
  pub trade_type : Text
  pub market_id : ℤ
  pub size : Text
  pub price : Text
  pub usd_amount : Text
  pub ask_id : ℤ
  pub bid_id : ℤ
  pub ask_client_id : ℤ
  pub bid_client_id : ℤ
  pub ask_account_id : ℤ
  pub bid_account_id : ℤ
  pub is_maker_ask : Bool
  pub block_height : ℤ
  pub timestamp : ℤ

pub record TradesResponse : Type 0 where
  pub code : ℤ
  pub trades : List Trade

-- trade_ws.rs: channel, nonce, trades, liquidation_trades
pub data TradeWsMessage : Type 0 where
  subscribed : Text → ℤ → List Trade → List Trade → TradeWsMessage
  update : Text → ℤ → List Trade → List Trade → TradeWsMessage

-- funding.rs
pub record Funding : Type 0 where
  pub timestamp : ℤ
  pub rate : Text
  pub direction : Text

pub record FundingsResponse : Type 0 where
  pub code : ℤ
  pub resolution : Text
  pub fundings : List Funding
