-- ===== src/Writer.antt =====
-- src/ws.rs: `writer_task` and `flush`. An event is what one round of the `select!` of `writer_task`
-- meets. Where a flush fails or panics, the process exits: here an error.
pub mod Inserts
pub mod Splits
pub mod Accounts
pub mod Delivery
pub mod Replay
pub mod Examples
use lighter_timescaledb_inge.Base.{
  ℕ, List, [], ◌∷◌, ◌++◌, Bool, true, false, leb, ok, length, is_empty, Action, ◌>>=◌, ◌>>◌, pure,
  modify, if◌then◌else◌,
}
use lighter_timescaledb_inge.External.{Chrono, Serde, Floats}
use lighter_timescaledb_inge.Models.{TradeRow, OrderbookMessageRow}
use lighter_timescaledb_inge.Ws.Session.{WriteMsg, trade, orderbook}
use lighter_timescaledb_inge.Database.{Database, get_conn, insert_trades, insert_orderbook_messages}

abbrev pub batch_capacity : ℕ
batch_capacity = 128

module _ ⦃c : Chrono⦄ ⦃s : Serde⦄ ⦃f : Floats⦄ where
  pub data WriterEvent : Type 0 where
    received : WriteMsg → WriterEvent
    senders_dropped : WriterEvent
    flush_tick : WriterEvent

  -- The two lists that `flush` sorts the messages into.
  unfoldable pub trade_rows : List WriteMsg → List TradeRow
  trade_rows [] = []
  trade_rows (trade row ∷ msgs) = row ∷ trade_rows msgs
  trade_rows (orderbook row ∷ msgs) = trade_rows msgs

  unfoldable pub orderbook_rows : List WriteMsg → List OrderbookMessageRow
  orderbook_rows [] = []
  orderbook_rows (trade row ∷ msgs) = orderbook_rows msgs
  orderbook_rows (orderbook row ∷ msgs) = row ∷ orderbook_rows msgs

module _ ⦃c : Chrono⦄ ⦃s : Serde⦄ ⦃f : Floats⦄ ⦃b : Database⦄ where
  pub record Writer : Type 0 where
    pub batch : List WriteMsg
    pub db : b.Db

  -- `if !c { act?; }`
  abbrev pub unless : Bool → Action b.Db ℕ → Action b.Db (Unit {0})
  unless true act db = (ok tt, db)
  unless false act db = (act >>= λ _. pure tt) db

  -- The closure that `flush` runs on a blocking thread.
  unfoldable pub write_rows : List TradeRow → List OrderbookMessageRow → Action b.Db (Unit {0})
  write_rows trades messages = do
    get_conn
    unless (is_empty trades) (insert_trades trades)
    unless (is_empty messages) (insert_orderbook_messages messages)

  unfoldable pub flush : Action Writer (Unit {0})
  flush writer =
      let (result, db) =
        write_rows (trade_rows writer.batch) (orderbook_rows writer.batch) writer.db in
      if is_empty writer.batch then (ok tt, writer) else (result, record { batch = []; db = db })

  -- `batch.push(msg)`, and a flush at the capacity
  unfoldable pub push : WriteMsg → Action Writer (Unit {0})
  push msg = do
    modify λ writer. record writer { batch = writer.batch ++ msg ∷ [] }
    λ writer. if leb batch_capacity (length writer.batch) then flush writer else (ok tt, writer)

  -- The loop, for as many rounds as there are events. It returns at a closed channel.
  unfoldable pub writer_task : List WriterEvent → Action Writer (Unit {0})
  writer_task [] = pure tt
  writer_task (received msg ∷ events) = do push msg; writer_task events
  writer_task (senders_dropped ∷ events) = flush
  writer_task (flush_tick ∷ events) = do flush; writer_task events
