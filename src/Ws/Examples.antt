-- ===== src/Ws/Examples.antt =====
-- The theorems of the stream at concrete messages and events, and runs of a connection.
use lighter_timescaledb_inge.Base.{
  ◌≡◌, ◌↔◌, refl, true, none, some, List, [], ◌∷◌, ◌++◌, codes, ok, arith, subst, ap,
}
use lighter_timescaledb_inge.Base.Int.{ℤ, pos, scale, ==ℤ_iff}
use lighter_timescaledb_inge.Base.IntMap.{IntMap, lookup, insert}
use lighter_timescaledb_inge.OrderedMap.{insert as insert_entry, remove, values}
use lighter_timescaledb_inge.Wire.{OrderBookSideLevels}
use lighter_timescaledb_inge.Wire.Channel.{parse_digits, order_book_market_id, print_i32}
use lighter_timescaledb_inge.Models.{OrderbookMessageRow}
use lighter_timescaledb_inge.Instances.{
  whole_decimals, year_chrono, sample_serde, text_floats, level, levels, sample_levels,
  sample_snapshot, sample_delta,
}
use lighter_timescaledb_inge.Book
use lighter_timescaledb_inge.Book.{Book}
use lighter_timescaledb_inge.Ws.{
  MarketBook, Markets, micros_to_datetime, serialize, orderbook_row, book_snapshot_row,
  apply_orderbook_message,
}
use lighter_timescaledb_inge.Ws.Apply.{
  AllValid, apply_orderbook_message-others, apply_orderbook_message-AllValid,
}
use lighter_timescaledb_inge.Ws.Reader.{read_row, Agrees}
use lighter_timescaledb_inge.Ws.ReaderStep.{Keeps, apply_orderbook_message-read}
use lighter_timescaledb_inge.Ws.Session.{
  Session, Event, text, incoming, close, snapshot_tick, request, orderbook, run_events,
  run_ws_ingestion, subscribe_all, send_socket, reconnect_loop, handle_event, handle_kind,
  frame_kind, handle_orderbook_frame, ends_with, send_row, write_periodic_snapshots,
  write_snapshots,
}
use lighter_timescaledb_inge.Ws.Rows.{rows_of, read_rows}
use lighter_timescaledb_inge.Ws.Accept.{Fits, apply_orderbook_message-ok_iff}
use lighter_timescaledb_inge.Ws.Snapshots.{Written, write_periodic_snapshots-Written}
use lighter_timescaledb_inge.Ws.Says.{Tells, apply_orderbook_message-Tells}
use lighter_timescaledb_inge.Ws.Stream.{IsInjective}
use lighter_timescaledb_inge.Ws.Shape.{Sends}
use lighter_timescaledb_inge.Ws.Trades.{Sent, later_message, handle_trade_frame-Sent}
use lighter_timescaledb_inge.Wire.{Trade, TradeWsMessage}
use lighter_timescaledb_inge.Wire.Channel.{trade_market_id}
use lighter_timescaledb_inge.Ws.Session.{handle_trade_frame}
use lighter_timescaledb_inge.Instances.{trade_message}
use lighter_timescaledb_inge.Ws.Sends.{run_ws_ingestion-Sends}
use lighter_timescaledb_inge.Ws.Replay.{rows_rebuild_book}

abbrev pub first_row : OrderbookMessageRow
first_row = record {
  time = pos 1000000;
  symbol = pos 3;
  message_type = codes "snapshot";
  sequence = some (pos 10);
  bids = levels (level 3 1 ∷ level 5 2 ∷ []);
  asks = levels (level 8 4 ∷ []);
  begin_nonce = none;
}

abbrev pub first_market : MarketBook
first_market = record {
  nonce = pos 10;
  source_time = pos 1000000;
  book = record { bid_side = (3, level 3 1) ∷ (5, level 5 2) ∷ []; ask_side = (8, level 8 4) ∷ [] };
}

abbrev pub first_markets : Markets
first_markets = (pos 7, first_market) ∷ []

first_step :
    apply_orderbook_message (pos 3) (pos 7) sample_snapshot [] ≡ (ok first_row, first_markets)
unfolding apply_orderbook_message micros_to_datetime serialize orderbook_row Book.from_snapshot
    Book.side_from_snapshot Book.insert_levels Book.parse parse_digits insert_entry insert scale
first_step = refl

abbrev delta_levels : OrderBookSideLevels
delta_levels = sample_levels (pos 10) (pos 15) (level 5 0 ∷ []) (level 9 1 ∷ [])

abbrev pub second_row : OrderbookMessageRow
second_row = record {
  time = pos 2000000;
  symbol = pos 3;
  message_type = codes "delta";
  sequence = some (pos 15);
  bids = levels (level 5 0 ∷ []);
  asks = levels (level 9 1 ∷ []);
  begin_nonce = some (pos 10);
}

abbrev pub second_market : MarketBook
second_market = record {
  nonce = pos 15;
  source_time = pos 2000000;
  book = record { bid_side = (3, level 3 1) ∷ []; ask_side = (8, level 8 4) ∷ (9, level 9 1) ∷ [] };
}

abbrev pub second_markets : Markets
second_markets = (pos 7, second_market) ∷ []

second_step :
    apply_orderbook_message (pos 3) (pos 7) sample_delta first_markets
    ≡ (ok second_row, second_markets)
unfolding apply_orderbook_message micros_to_datetime serialize orderbook_row Book.apply_delta
    Book.apply_side Book.parse parse_digits insert_entry remove insert lookup scale
second_step = refl

first_found : lookup (pos 7) first_markets ≡ some first_market
unfolding lookup
first_found = refl

apply_orderbook_message-ok_iff_example :
    ((row : OrderbookMessageRow) × (markets' : Markets) × (apply_orderbook_message
          (pos 3)
          (pos 7)
          sample_delta
          first_markets
        ≡ (ok row, markets')))
    ↔ Fits (lookup (pos 7) first_markets) sample_delta
apply_orderbook_message-ok_iff_example =
    apply_orderbook_message-ok_iff (pos 3) (pos 7) sample_delta first_markets

apply_orderbook_message-others_example :
    lookup (pos 8) (apply_orderbook_message (pos 3) (pos 7) sample_delta first_markets).1
    ≡ lookup (pos 8) first_markets
apply_orderbook_message-others_example =
    apply_orderbook_message-others (pos 3) (pos 7) (pos 8) sample_delta first_markets (ground arith)

none_valid : AllValid []
unfolding lookup
none_valid id market found = cc

first_valid : AllValid first_markets
first_valid =
    subst AllValid (ap (λ r. r.1) first_step)
      (apply_orderbook_message-AllValid (pos 3) (pos 7) sample_snapshot [] none_valid)

apply_orderbook_message-Tells_example :
    Tells
      (pos 3)
      sample_delta
      (lookup (pos 7) first_markets)
      (lookup (pos 7) second_markets)
      second_row
apply_orderbook_message-Tells_example =
    apply_orderbook_message-Tells (pos 3) (pos 7) sample_delta first_markets second_markets
      second_row first_valid second_step

second_found :
    lookup (pos 7) (apply_orderbook_message (pos 3) (pos 7) sample_delta first_markets).1
    ≡ some second_market
unfolding lookup
second_found = rw second_step

nothing_kept : Keeps none (lookup (pos 7) (let none_yet : Markets = [] in none_yet))
unfolding lookup
nothing_kept = tt

apply_orderbook_message-read_example :
    (have : MarketBook) × (read_row none first_row ≡ ok have)
    × Keeps (some have) (lookup (pos 7) first_markets)
apply_orderbook_message-read_example =
    apply_orderbook_message-read (pos 3) (pos 7) sample_snapshot [] first_markets first_row none
      first_step nothing_kept

-- Market 7 has the symbol 3.
abbrev pub cache : IntMap ℤ
cache = (pos 7, pos 3) ∷ []

pub cache-IsInjective : IsInjective cache
unfolding lookup
cache-IsInjective i j symbol hi hj = ground (arith, ==ℤ_iff i (pos 7), ==ℤ_iff j (pos 7))

pub cached : lookup (pos 7) cache ≡ some (pos 3)
unfolding lookup
cached = refl

abbrev pub start : Session
start = record { markets = []; sent = []; receiver_open = true; outbox = []; socket_open = true }

-- A snapshot, a delta and the timer.
abbrev pub events : List Event
events = incoming (text (codes "s")) ∷ incoming (text (codes "d")) ∷ snapshot_tick ∷ []

-- A connection that is closed by the server, and the one after it.
abbrev pub lost : List Event
lost = incoming (text (codes "s")) ∷ incoming close ∷ []

abbrev pub third_row : OrderbookMessageRow
third_row = record {
  time = pos 2000000;
  symbol = pos 3;
  message_type = codes "snapshot";
  sequence = some (pos 15);
  bids = levels (level 3 1 ∷ []);
  asks = levels (level 8 4 ∷ level 9 1 ∷ []);
  begin_nonce = none;
}

abbrev reconnected : Session
reconnected = record {
  markets = second_markets;
  sent =
      orderbook first_row ∷ orderbook first_row ∷ orderbook second_row ∷ orderbook third_row ∷ [];
  receiver_open = true;
  outbox =
      request (codes "subscribe") (codes "order_book/7")
      ∷ request (codes "subscribe") (codes "trade/7")
      ∷ [];
  socket_open = true;
}

run_up :
    run_ws_ingestion
      (pos 7 ∷ [])
      cache
      true
      events
      (reconnect_loop (pos 7 ∷ []) cache ((true, lost) ∷ []) start)
    ≡ (ok tt, reconnected)
unfolding reconnect_loop run_ws_ingestion subscribe_all send_socket run_events handle_event
    handle_kind frame_kind handle_orderbook_frame ends_with order_book_market_id
    write_periodic_snapshots write_snapshots book_snapshot_row send_row apply_orderbook_message
    micros_to_datetime serialize orderbook_row Book.from_snapshot Book.side_from_snapshot
    Book.insert_levels Book.apply_delta Book.apply_side Book.parse Book.bids Book.asks values
    parse_digits insert_entry remove insert lookup scale print_i32
run_up = refl

run_found : lookup (pos 7) reconnected.markets ≡ some second_market
unfolding lookup
run_found = refl

-- A connection with the book of the first snapshot, at the timer.
abbrev at_timer : Session
at_timer = record start { markets = first_markets }

write_periodic_snapshots-Written_example :
    Written cache first_markets at_timer (write_periodic_snapshots cache at_timer)
write_periodic_snapshots-Written_example =
    write_periodic_snapshots-Written cache at_timer
      (first_valid (pos 7) first_market first_found, tt)

rows_rebuild_book_example :
    (have : MarketBook) × (read_rows none (rows_of (pos 3) reconnected.sent) ≡ ok (some have))
    × Agrees have second_market
rows_rebuild_book_example =
    rows_rebuild_book cache none cache-IsInjective (pos 7 ∷ []) ((true, lost) ∷ []) events start
      reconnected (pos 7) (pos 3) second_market refl run_up cached run_found

run_ws_ingestion-Sends_example :
    Sends cache [] (run_ws_ingestion (pos 7 ∷ []) cache true lost start)
run_ws_ingestion-Sends_example = run_ws_ingestion-Sends cache (pos 7 ∷ []) true lost start

abbrev a_trade : ℤ → Trade
a_trade id = record {
  trade_id = id;
  tx_hash = codes "00";
  trade_type = codes "trade";
  market_id = pos 7;
  size = codes "2";
  price = codes "5";
  usd_amount = codes "10";
  ask_id = pos 1;
  bid_id = pos 2;
  ask_client_id = pos 0;
  bid_client_id = pos 0;
  ask_account_id = pos 3;
  bid_account_id = pos 4;
  is_maker_ask = true;
  block_height = pos 9;
  timestamp = pos 1000;
}

-- Two trades and a liquidation.
abbrev some_trades : TradeWsMessage
some_trades =
    TradeWsMessage.update (codes "trade:7") (pos 1) (a_trade (pos 5) ∷ a_trade (pos 6) ∷ [])
      (a_trade (pos 8) ∷ [])

abbrev trade_frame : sample_serde.Json
trade_frame = trade_message some_trades

is_market_7 : trade_market_id some_trades ≡ some (pos 7)
unfolding trade_market_id parse_digits
is_market_7 = refl

handle_trade_frame-Sent_example :
    Sent
      (pos 3)
      ((a_trade (pos 5) ∷ a_trade (pos 6) ∷ []) ++ a_trade (pos 8) ∷ [])
      start
      (handle_trade_frame trade_frame cache start)
handle_trade_frame-Sent_example =
    handle_trade_frame-Sent cache trade_frame some_trades (a_trade (pos 5) ∷ a_trade (pos 6) ∷ [])
      (a_trade (pos 8) ∷ []) (pos 7) (pos 3) start refl
      (later_message (codes "trade:7") (pos 1) (a_trade (pos 5) ∷ a_trade (pos 6) ∷ [])
        (a_trade (pos 8) ∷ []))
      is_market_7 cached
