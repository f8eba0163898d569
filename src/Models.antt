-- ===== src/Models.antt =====
-- src/models.rs: the rows of the tables.
use lighter_timescaledb_inge.Base.{Bool, Option, Text}
use lighter_timescaledb_inge.Base.Int.{ℤ}
use lighter_timescaledb_inge.External.{Decimals, Chrono, Serde, Floats}

pub record Symbol : Type 0 where
  pub id : ℤ
  pub name : Text
  pub lighter_market_id : ℤ
  pub market_type : Text

pub record NewSymbol : Type 0 where
  pub name : Text
  pub market_type : Text
  pub lighter_market_id : ℤ

module _ ⦃c : Chrono⦄ ⦃f : Floats⦄ where
  pub record TradeRow : Type 0 where
    pub time : c.DateTime
    pub symbol : ℤ
    pub lighter_trade_id : ℤ
    pub price : f.F64
    pub size : f.F64
    pub is_maker_ask : Bool
    pub trade_type : Text

module _ ⦃c : Chrono⦄ ⦃d : Decimals⦄ where
  pub record FundingRateRow : Type 0 where
    pub time : c.DateTime
    pub symbol : ℤ
    pub rate : d.Decimal
    pub direction : Text

module _ ⦃c : Chrono⦄ ⦃s : Serde⦄ where
  pub record OrderbookMessageRow : Type 0 where
    pub time : c.DateTime
    pub symbol : ℤ
    pub message_type : Text
    pub sequence : Option ℤ
    pub bids : s.Json
    pub asks : s.Json
    pub begin_nonce : Option ℤ
