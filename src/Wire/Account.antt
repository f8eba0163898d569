-- ===== src/Wire/Account.antt =====
-- crates/lighter-rs-types/src/account.rs: the account messages, which the crate has for its other
-- users. A `HashMap` with text keys is an association list.
use lighter_timescaledb_inge.Base.{Option, List, Text}
use lighter_timescaledb_inge.Base.Int.{ℤ}
use lighter_timescaledb_inge.Wire.{Trade}

pub record AccountPosition : Type 0 where
  pub market_id : ℤ
  pub symbol : Text
  pub sign : ℤ
  pub position : Text
  pub avg_entry_price : Text
  pub unrealized_pnl : Text
  pub realized_pnl : Text

pub record DetailedAccount : Type 0 where
  pub index : ℤ
  pub collateral : Text
  pub available_balance : Option Text
  pub positions : List AccountPosition

pub record DetailedAccountsResponse : Type 0 where
  pub code : ℤ
  pub message : Option Text
  pub accounts : List DetailedAccount

-- channel, account, positions, trades
pub data AccountAllWsMessage : Type 0 where
  subscribed :
      Text → ℤ → List (Text × AccountPosition) → List (Text × List Trade) → AccountAllWsMessage
  update : Text → ℤ → List (Text × AccountPosition) → List (Text × List Trade) → AccountAllWsMessage

unfoldable account : AccountAllWsMessage → ℤ
account (subscribed _ id _ _) = id
account (update _ id _ _) = id

unfoldable positions : AccountAllWsMessage → List (Text × AccountPosition)
positions (subscribed _ _ held _) = held
positions (update _ _ held _) = held

unfoldable trades : AccountAllWsMessage → List (Text × List Trade)
trades (subscribed _ _ _ done) = done
trades (update _ _ _ done) = done
