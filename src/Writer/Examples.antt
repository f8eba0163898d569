-- ===== src/Writer/Examples.antt =====
-- A database in memory, and the theorems of the writer at a short run on it.
use lighter_timescaledb_inge.Base.{
  ℕ, ◌<◌, ◌≡◌, refl, ap, sym, Result, ok, none, some, Option, List, [], ◌∷◌, ◌++◌, codes, arith,
  length, false, true,
}
use lighter_timescaledb_inge.Base.Int.{pos}
use lighter_timescaledb_inge.Models.{TradeRow, OrderbookMessageRow}
use lighter_timescaledb_inge.Instances.{
  year_chrono, sample_serde, text_floats, text, whole_decimals,
}
use lighter_timescaledb_inge.Ws.Session.{trade, orderbook}
use lighter_timescaledb_inge.Table.{conflicts, insert_new}
use lighter_timescaledb_inge.Database.{
  same_trade, insert_new_trades, Database, insert_trades, insert_orderbook_messages,
}
use lighter_timescaledb_inge.Writer.{
  WriterEvent, received, flush_tick, trade_rows, orderbook_rows, Writer, write_rows, flush, push,
  writer_task, batch_capacity,
}
use lighter_timescaledb_inge.Writer.Inserts.{messages_of}
use lighter_timescaledb_inge.Writer.Splits.{nothing, first_trade, first_message}
use lighter_timescaledb_inge.Base.{All}
use lighter_timescaledb_inge.Writer.Delivery.{writer_task-bounded, writer_task-replay}
use lighter_timescaledb_inge.Ws.{
  micros_to_datetime, serialize, orderbook_row, book_snapshot_row, apply_orderbook_message,
}
use lighter_timescaledb_inge.Ws.Session.{
  run_events as run_session, reconnect_loop, handle_event, handle_kind, frame_kind,
  handle_orderbook_frame, ends_with, send_row, write_periodic_snapshots, write_snapshots,
  subscribe_all, send_socket, run_ws_ingestion,
}
use lighter_timescaledb_inge.Ws.Examples as Stream
use lighter_timescaledb_inge.Wire.Channel.{order_book_market_id, parse_digits}
use lighter_timescaledb_inge.Base.Int.{scale}
use lighter_timescaledb_inge.Base.IntMap.{insert, lookup}
use lighter_timescaledb_inge.OrderedMap.{insert as insert_entry, remove, values}
use lighter_timescaledb_inge.Book

abbrev pub Tables : Type 0
Tables = List TradeRow × List OrderbookMessageRow

abbrev Execution : Type 0
Execution = Option ℕ × Tables

pub tables_eq :
    (n m : ℕ) (ts : List TradeRow) (ms : List OrderbookMessageRow) (db' : Tables)
    → ◌≡◌ {A = Execution} (some n, (ts, ms)) (some m, db')
    → (db'.0 ≡ ts) × (db'.1 ≡ ms)
tables_eq n m ts ms db' h =
    (sym (ap (λ (x : Execution). x.1.0) h), sym (ap (λ (x : Execution). x.1.1) h))

pub no_failure :
    (n : ℕ) (db db' db'' : Tables)
    → ◌≡◌ {A = Execution} (some n, db) (none, db')
    → (db'.0 ≡ db''.0) × (db'.1 ≡ db''.1)
no_failure n db db' db'' h = absurd (cc)

-- Every statement succeeds.
instance abbrev pub memory : Database
memory = record {
  Db = Tables;
  trades = λ db. db.0;
  orderbook_messages = λ db. db.1;
  get = λ db. (some tt, db);
  execute_trades = λ rows db. (some (length rows), (insert_new_trades db.0 rows, db.1));
  execute_orderbook_messages = λ rows db. (some (length rows), (db.0, db.1 ++ rows));
  get-trades = λ db. refl;
  get-messages = λ db. refl;
  trades_inserted =
      λ rows db db' n h. tables_eq (length rows) n (insert_new_trades db.0 rows) db.1 db' h;
  trades_failed =
      λ rows db db' h. no_failure (length rows) (insert_new_trades db.0 rows, db.1) db' db h;
  messages_inserted = λ rows db db' n h. tables_eq (length rows) n db.0 (db.1 ++ rows) db' h;
  messages_failed = λ rows db db' h. no_failure (length rows) (db.0, db.1 ++ rows) db' db h;
}

abbrev a_trade : TradeRow
a_trade = record {
  time = pos 5;
  symbol = pos 3;
  lighter_trade_id = pos 77;
  price = codes "1.5";
  size = codes "2";
  is_maker_ask = false;
  trade_type = codes "trade";
}

abbrev a_message : OrderbookMessageRow
a_message = record {
  time = pos 6;
  symbol = pos 3;
  message_type = codes "snapshot";
  sequence = some (pos 10);
  bids = text [];
  asks = text [];
  begin_nonce = none;
}

abbrev fresh : Writer
fresh = record { batch = []; db = ([], []) }

-- A trade and a message, the timer, and one more trade.
abbrev events : List WriterEvent
events =
    received (trade a_trade)
    ∷ received (orderbook a_message)
    ∷ flush_tick
    ∷ received (trade a_trade)
    ∷ []

abbrev after : Writer
after = record { batch = trade a_trade ∷ []; db = (a_trade ∷ [], a_message ∷ []) }

run_events : writer_task events fresh ≡ (ok tt, after)
unfolding writer_task push flush write_rows insert_trades insert_orderbook_messages trade_rows
    orderbook_rows insert_new conflicts same_trade
run_events = refl

run_flushed :
    writer_task (events ++ flush_tick ∷ []) fresh
    ≡ (ok tt, record { batch = []; db = (a_trade ∷ [], a_message ∷ []) })
unfolding writer_task push flush write_rows insert_trades insert_orderbook_messages trade_rows
    orderbook_rows insert_new conflicts same_trade
run_flushed = refl

writer_task-bounded_example : length (writer_task events fresh).1.batch < batch_capacity
writer_task-bounded_example = writer_task-bounded events fresh (omega arith)

-- One of the two trades is received again.
abbrev replayed : List WriterEvent
replayed = received (trade a_trade) ∷ flush_tick ∷ []

writer_task-replay_example :
    let w = (writer_task (events ++ flush_tick ∷ []) fresh).1 in
    All (λ row. conflicts same_trade row w.db.0 ≡ true) (a_trade ∷ a_trade ∷ [])
    × ((writer_task replayed w).1.db.0 ≡ w.db.0)
writer_task-replay_example =
    writer_task-replay events replayed fresh (a_trade ∷ []) (a_trade ∷ []) [] (a_message ∷ []) []
      (ap (λ (r : Result (Unit {0}) × Writer). r.0) run_flushed)
      (first_trade a_trade (first_message a_message (first_trade a_trade nothing)))
      (first_trade a_trade nothing)

-- The writer receives the snapshot and the delta and exits before the row of the timer.
abbrev pub receipts : List WriterEvent
receipts =
    received (orderbook Stream.first_row) ∷ received (orderbook Stream.second_row) ∷ flush_tick ∷ []

pub all_sent :
    messages_of receipts ++ orderbook Stream.third_row ∷ []
    ≡ (reconnect_loop (pos 7 ∷ []) Stream.cache ((true, Stream.events) ∷ []) Stream.start).sent
unfolding reconnect_loop run_ws_ingestion subscribe_all send_socket run_session handle_event
    handle_kind frame_kind handle_orderbook_frame ends_with order_book_market_id
    write_periodic_snapshots write_snapshots book_snapshot_row send_row apply_orderbook_message
    micros_to_datetime serialize orderbook_row Book.from_snapshot Book.side_from_snapshot
    Book.insert_levels Book.apply_delta Book.apply_side Book.parse Book.bids Book.asks values
    parse_digits insert_entry remove insert lookup scale
all_sent = refl
