-- ===== src/Export/Rows.antt =====
-- src/export.rs: the rows of the two queries and the batches of them, column by column.
use lighter_timescaledb_inge.Base.{
  ℕ, Bool, Option, List, [], ◌∷◌, ◌++◌, Text, length, Result, ok, and_then, ok_or, export_failed,
}
use lighter_timescaledb_inge.Base.Int.{ℤ}
use lighter_timescaledb_inge.External.{Chrono, Serde, Floats}

module _ ⦃c : Chrono⦄ ⦃f : Floats⦄ where
  -- A row of the query of trades: the columns that it selects.
  pub record TradeSelected : Type 0 where
    pub time : c.DateTime
    pub name : Text
    pub lighter_trade_id : ℤ
    pub price : f.F64
    pub size : f.F64
    pub is_maker_ask : Bool
    pub trade_type : Text

  pub record TradeBatch : Type 0 where
    pub times : List ℤ
    pub symbols : List Text
    pub ids : List ℤ
    pub prices : List f.F64
    pub sizes : List f.F64
    pub makers : List Bool
    pub kinds : List Text

  unfoldable pub new_trades : TradeBatch
  new_trades = record {
    times = [];
    symbols = [];
    ids = [];
    prices = [];
    sizes = [];
    makers = [];
    kinds = [];
  }

  unfoldable pub trades_len : TradeBatch → ℕ
  trades_len batch = length batch.times

  unfoldable pub push_trade : TradeSelected → TradeBatch → Result TradeBatch
  push_trade row batch = ok (record {
    times = batch.times ++ c.timestamp_micros row.time ∷ [];
    symbols = batch.symbols ++ row.name ∷ [];
    ids = batch.ids ++ row.lighter_trade_id ∷ [];
    prices = batch.prices ++ row.price ∷ [];
    sizes = batch.sizes ++ row.size ∷ [];
    makers = batch.makers ++ row.is_maker_ask ∷ [];
    kinds = batch.kinds ++ row.trade_type ∷ [];
  })

module _ ⦃c : Chrono⦄ ⦃s : Serde⦄ where
  pub record MessageSelected : Type 0 where
    pub time : c.DateTime
    pub name : Text
    pub message_type : Text
    pub sequence : Option ℤ
    pub bids : s.Json
    pub asks : s.Json

  pub record OrderbookBatch : Type 0 where
    pub times : List ℤ
    pub symbols : List Text
    pub types : List Text
    pub sequences : List (Option ℤ)
    pub bids : List Text
    pub asks : List Text

  unfoldable pub new_messages : OrderbookBatch
  new_messages = record {
    times = [];
    symbols = [];
    types = [];
    sequences = [];
    bids = [];
    asks = [];
  }

  unfoldable pub messages_len : OrderbookBatch → ℕ
  messages_len batch = length batch.times

  -- The batch of an error is dropped with the writer.
  unfoldable pub push_message : MessageSelected → OrderbookBatch → Result OrderbookBatch
  push_message row batch = and_then (ok_or (s.to_string row.bids) export_failed) λ bids.
      and_then (ok_or (s.to_string row.asks) export_failed) λ asks. ok (record {
        times = batch.times ++ c.timestamp_micros row.time ∷ [];
        symbols = batch.symbols ++ row.name ∷ [];
        types = batch.types ++ row.message_type ∷ [];
        sequences = batch.sequences ++ row.sequence ∷ [];
        bids = batch.bids ++ bids ∷ [];
        asks = batch.asks ++ asks ∷ [];
      })
