-- ===== src/Process/Examples.antt =====
-- Two processes one after the other: the first meets a snapshot and a delta, stores both and ends, the
-- second starts from what the first left.
use lighter_timescaledb_inge.Base.{
  ◌≡◌, refl, true, false, none, some, List, [], ◌∷◌, ◌++◌, codes, ok, err, fetch_failed, length,
  ◌<◌,
}
use lighter_timescaledb_inge.Base.Int.{ℤ, pos, scale}
use lighter_timescaledb_inge.Base.IntMap.{IntMap, lookup, insert}
use lighter_timescaledb_inge.OrderedMap.{insert as insert_entry, remove, values}
use lighter_timescaledb_inge.Wire.Channel.{parse_digits, order_book_market_id, print_i32}
use lighter_timescaledb_inge.Models.{Symbol, OrderbookMessageRow, TradeRow}
use lighter_timescaledb_inge.Instances.{whole_decimals, year_chrono, sample_serde, text_floats}
use lighter_timescaledb_inge.Symbols.{
  upsert_rows, is_supported, all_supported, collect, perp_rows, insert_row, sort_rows,
  upsert_symbol, sync_all, sync_symbols, load_symbol_cache, load_perp_markets,
}
use lighter_timescaledb_inge.Symbols.Examples.{memory_symbols, response}
use lighter_timescaledb_inge.Book
use lighter_timescaledb_inge.Ws.{
  micros_to_datetime, serialize, orderbook_row, book_snapshot_row, apply_orderbook_message,
}
use lighter_timescaledb_inge.Ws.Session.{
  WriteMsg, text, incoming, orderbook, request, subscribe_all, send_socket, run_ws_ingestion,
  run_events, handle_event, handle_kind, frame_kind, handle_orderbook_frame, ends_with, send_row,
}
use lighter_timescaledb_inge.Ws.Examples as Stream
use lighter_timescaledb_inge.Database.{insert_orderbook_messages}
use lighter_timescaledb_inge.Writer.{
  push, flush, write_rows, trade_rows, orderbook_rows, batch_capacity,
}
use lighter_timescaledb_inge.Writer.Replay.{IsReadable, of_symbol}
use lighter_timescaledb_inge.Ws.Chain.{IsChained}
use lighter_timescaledb_inge.Writer.Examples.{Tables, memory}
use lighter_timescaledb_inge.Main.{Started, start}
use lighter_timescaledb_inge.Process.{Process, connection, event, receive, tick, Reach, boot, later}
use lighter_timescaledb_inge.Process.Restart.{
  History, created, failed, ran, History-IsReadable, History-IsChained,
}
use lighter_timescaledb_inge.Process.Delivery.{Reach-stored}
use lighter_timescaledb_inge.Process.Drain.{Works, Steps, Reach-drains}
use lighter_timescaledb_inge.Writer.Splits.{Splits}
use lighter_timescaledb_inge.Table.Part.{Part}
use lighter_timescaledb_inge.Database.{insert_new_trades}

abbrev listed : List Symbol
listed =
    record {
      id = pos 100;
      name = codes "BTC";
      lighter_market_id = pos 7;
      market_type = codes "perp";
    }
    ∷ []

abbrev cache : IntMap ℤ
cache = (pos 7, pos 100) ∷ []

abbrev started : Started
started = record {
  symbol_cache = cache;
  market_ids = pos 7 ∷ [];
  perp_markets = record { symbol_id = pos 100; name = codes "BTC"; lighter_market_id = pos 7 } ∷ [];
}

first_start : start (some tt) (some (response true)) [] ≡ (ok started, listed)
unfolding start sync_symbols sync_all upsert_symbol upsert_rows all_supported is_supported
    load_symbol_cache collect insert load_perp_markets perp_rows sort_rows insert_row
first_start = refl

next_start : start (some tt) (some (response true)) listed ≡ (ok started, listed)
unfolding start sync_symbols sync_all upsert_symbol upsert_rows all_supported is_supported
    load_symbol_cache collect insert load_perp_markets perp_rows sort_rows insert_row
next_start = refl

abbrev first_row : OrderbookMessageRow
first_row = record Stream.first_row { symbol = pos 100 }

abbrev second_row : OrderbookMessageRow
second_row = record Stream.second_row { symbol = pos 100 }

abbrev stored : Tables
stored = ([], first_row ∷ second_row ∷ [])

-- A connection with a book, and two rows that are stored.
abbrev after_two : Process
after_two = record {
  session = record {
    markets = Stream.second_markets;
    sent = orderbook first_row ∷ orderbook second_row ∷ [];
    receiver_open = true;
    outbox =
        request (codes "subscribe") (codes "order_book/7")
        ∷ request (codes "subscribe") (codes "trade/7")
        ∷ [];
    socket_open = true;
  };
  up = true;
  taken = orderbook first_row ∷ orderbook second_row ∷ [];
  writer = record { batch = []; db = stored };
  exited = false;
}

first_process : Reach (pos 7 ∷ []) cache ([], []) after_two
unfolding run_ws_ingestion subscribe_all send_socket run_events handle_event handle_kind frame_kind
    handle_orderbook_frame ends_with order_book_market_id book_snapshot_row send_row
    apply_orderbook_message micros_to_datetime serialize orderbook_row Book.from_snapshot
    Book.side_from_snapshot Book.insert_levels Book.apply_delta Book.apply_side Book.parse values
    parse_digits insert_entry remove insert lookup scale print_i32 push flush write_rows trade_rows
    orderbook_rows insert_orderbook_messages
first_process =
    later
      (later
        (later
          (later
            (later (later boot (connection true refl refl))
              (event (incoming (text (codes "s"))) refl refl))
            (receive (orderbook first_row) [] refl refl))
          (event (incoming (text (codes "d"))) refl refl))
        (receive (orderbook second_row) [] refl refl))
      (tick refl)

-- The next process, after its first flush.
abbrev after_one : Process
after_one = record {
  session = record {
    markets = Stream.first_markets;
    sent = orderbook first_row ∷ [];
    receiver_open = true;
    outbox =
        request (codes "subscribe") (codes "order_book/7")
        ∷ request (codes "subscribe") (codes "trade/7")
        ∷ [];
    socket_open = true;
  };
  up = true;
  taken = orderbook first_row ∷ [];
  writer = record { batch = []; db = ([], first_row ∷ second_row ∷ first_row ∷ []) };
  exited = false;
}

next_process : Reach (pos 7 ∷ []) cache stored after_one
unfolding run_ws_ingestion subscribe_all send_socket run_events handle_event handle_kind frame_kind
    handle_orderbook_frame ends_with order_book_market_id book_snapshot_row send_row
    apply_orderbook_message micros_to_datetime serialize orderbook_row Book.from_snapshot
    Book.side_from_snapshot Book.insert_levels Book.parse parse_digits insert_entry insert lookup
    scale print_i32 push flush write_rows trade_rows orderbook_rows insert_orderbook_messages
next_process =
    later
      (later
        (later (later boot (connection true refl refl))
          (event (incoming (text (codes "s"))) refl refl))
        (receive (orderbook first_row) [] refl refl))
      (tick refl)

not_started : start (some tt) none listed ≡ (err fetch_failed, listed)
unfolding start sync_symbols
not_started = refl

-- A process, a start that gets no answer from the exchange, and a process.
history : History listed ([], first_row ∷ second_row ∷ first_row ∷ [])
history =
    ran (some tt) (some (response true)) started
      (failed (some tt) none fetch_failed
        (ran (some tt) (some (response true)) started {p = after_two}
          (created [] ([], []) refl refl refl) first_start first_process)
        not_started)
      next_start next_process

History-IsReadable_example : IsReadable (first_row ∷ second_row ∷ first_row ∷ []) (pos 100)
History-IsReadable_example =
    History-IsReadable listed ([], first_row ∷ second_row ∷ first_row ∷ []) (pos 100) history

Reach-stored_example :
    (queue : List WriteMsg) × (after_two.taken ++ queue ≡ after_two.session.sent)
    × (length after_two.writer.batch < batch_capacity)
    × ((ts : List TradeRow) × (ms : List OrderbookMessageRow) × (left_ts : List TradeRow)
        × (left_ms : List OrderbookMessageRow) × Splits after_two.session.sent ts ms
        × Splits (after_two.writer.batch ++ queue) left_ts left_ms
        × Part insert_new_trades ts left_ts [] []
        × Part ◌++◌ ms left_ms [] (first_row ∷ second_row ∷ []))
Reach-stored_example = Reach-stored cache (pos 7 ∷ []) ([], []) after_two first_process refl

History-IsChained_example :
    IsChained none (of_symbol (pos 100) (first_row ∷ second_row ∷ first_row ∷ []))
History-IsChained_example =
    History-IsChained listed ([], first_row ∷ second_row ∷ first_row ∷ []) (pos 100) history

-- The same connection before the writer has received anything.
abbrev unread : Process
unread = record after_two { taken = []; writer = record { batch = []; db = ([], []) } }

unread_process : Reach (pos 7 ∷ []) cache ([], []) unread
unfolding run_ws_ingestion subscribe_all send_socket run_events handle_event handle_kind frame_kind
    handle_orderbook_frame ends_with order_book_market_id book_snapshot_row send_row
    apply_orderbook_message micros_to_datetime serialize orderbook_row Book.from_snapshot
    Book.side_from_snapshot Book.insert_levels Book.apply_delta Book.apply_side Book.parse values
    parse_digits insert_entry remove insert lookup scale print_i32
unread_process =
    later
      (later (later boot (connection true refl refl))
        (event (incoming (text (codes "s"))) refl refl))
      (event (incoming (text (codes "d"))) refl refl)

memory_works : Works
memory_works = record {
  connects = λ db. refl;
  takes_trades = λ rows db. (_, refl);
  takes_messages = λ rows db. (_, refl);
}

Reach-drains_example :
    (q : Process) × Steps (pos 7 ∷ []) cache unread q
    × (q.exited ≡ false)
    × (q.session ≡ unread.session)
    × ((ts : List TradeRow) × (ms : List OrderbookMessageRow) × Splits unread.session.sent ts ms
        × (q.writer.db.0 ≡ insert_new_trades [] ts)
        × (q.writer.db.1 ≡ [] ++ ms))
Reach-drains_example =
    Reach-drains memory_works (pos 7 ∷ []) cache ([], []) unread unread_process refl
