-- ===== src/Ws/Session.antt =====
-- src/ws.rs: one connection to the market-data stream. An event is what one round of the `select!`
-- of `run_ws_ingestion` meets, or what happens to the ends of the two channels meanwhile: the
-- writer's receiver is dropped, or the socket stops taking messages. JSON texts that are sent are
-- kept as their type and channel.
use lighter_timescaledb_inge.Base.{
  Bool, true, false, Option, none, some, List, [], ◌∷◌, ◌++◌, reverse, Text, codes, text_eq, ◌==◌,
  ◌&&◌, ok, err, Result, bad_timestamp, bad_float, bad_frame, bad_message, no_market_id,
  unknown_market, channel_closed, stream_ended, read_error, closed_by_server, socket_failed,
  and_then, ok_or, Action, ◌>>=◌, ◌>>◌, pure, lift, fail, gets, modify, if◌then◌else◌,
}
use lighter_timescaledb_inge.Base.Int.{ℤ}
use lighter_timescaledb_inge.Base.IntMap.{IntMap, lookup}
use lighter_timescaledb_inge.Wire.{OrderBookWsMessage, TradeWsMessage, Trade}
use lighter_timescaledb_inge.Wire.Channel.{order_book_market_id, trade_market_id, print_i32}
use lighter_timescaledb_inge.External.{Decimals, Chrono, Serde, Floats}
use lighter_timescaledb_inge.Models.{TradeRow, OrderbookMessageRow}
use lighter_timescaledb_inge.Ws.{Markets, missing_books, book_snapshot_row, apply_orderbook_message}

-- `str::starts_with`, and `str::ends_with` through it
unfoldable pub starts_with : Text → Text → Bool
starts_with t [] = true
starts_with [] (y ∷ p) = false
starts_with (x ∷ t) (y ∷ p) = x == y && starts_with t p

unfoldable pub ends_with : Text → Text → Bool
unfolding starts_with
ends_with t suffix = starts_with (reverse t) (reverse suffix)

-- What is sent to the server: `{"type": …, "channel": …}`, `{"type": "pong"}` and a ping frame.
pub data SocketMsg : Type 0 where
  request : Text → Text → SocketMsg
  pong : SocketMsg
  ping : SocketMsg

-- What `read.next()` gives.
pub data Incoming : Type 0 where
  ended : Incoming
  failed : Incoming
  text : Text → Incoming
  close : Incoming
  other : Incoming

-- The arms of the dispatch on a frame.
pub data FrameKind : Type 0 where
  error_frame order_book_frame trade_frame ping_frame unhandled_frame : FrameKind

pub data Event : Type 0 where
  incoming : Incoming → Event
  snapshot_tick : Event
  keepalive_tick : Event
  book_check_tick : Event
  receiver_dropped : Event
  socket_broken : Event

module _ ⦃c : Chrono⦄ ⦃f : Floats⦄ where
  unfoldable pub millis_to_datetime : ℤ → Result c.DateTime
  millis_to_datetime millis = ok_or (c.from_timestamp_millis millis) bad_timestamp

  unfoldable pub trade_row : Trade → ℤ → Result TradeRow
  unfolding millis_to_datetime
  trade_row trade symbol = and_then (millis_to_datetime trade.timestamp) λ time.
      and_then (ok_or (f.parse trade.price) bad_float) λ price.
        and_then (ok_or (f.parse trade.size) bad_float) λ size. ok (record {
          time = time;
          symbol = symbol;
          lighter_trade_id = trade.trade_id;
          price = price;
          size = size;
          is_maker_ask = trade.is_maker_ask;
          trade_type = trade.trade_type;
        })

module _ ⦃c : Chrono⦄ ⦃s : Serde⦄ ⦃f : Floats⦄ where
  pub data WriteMsg : Type 0 where
    trade : TradeRow → WriteMsg
    orderbook : OrderbookMessageRow → WriteMsg

module _ ⦃d : Decimals⦄ ⦃c : Chrono⦄ ⦃s : Serde⦄ ⦃f : Floats⦄ where
  -- The books of the connection, the rows handed to the writer's channel and whether its receiver
  -- is there, the messages sent to the server and whether the socket takes more.
  pub record Session : Type 0 where
    pub markets : Markets
    pub sent : List WriteMsg
    pub receiver_open : Bool
    pub outbox : List SocketMsg
    pub socket_open : Bool

  -- An action on the books.
  abbrev pub on_markets {ℓ} : {A : Type ℓ} → Action Markets A → Action Session A
  on_markets act session =
      let (result, markets) = act session.markets in (result, record session { markets = markets })

  -- `tx.send(..).await.map_err(..)`
  unfoldable pub send_row : WriteMsg → Action Session (Unit {0})
  send_row msg session =
      if session.receiver_open
      then (ok tt, record session { sent = session.sent ++ msg ∷ [] })
      else (err channel_closed, session)

  -- `write.send(..).await`
  unfoldable pub send_socket : SocketMsg → Action Session (Unit {0})
  send_socket msg session =
      if session.socket_open
      then (ok tt, record session { outbox = session.outbox ++ msg ∷ [] })
      else (err socket_failed, session)

  -- The loop of `write_periodic_snapshots`, over the markets that are left.
  unfoldable pub write_snapshots : IntMap ℤ → Markets → Action Session (Unit {0})
  write_snapshots symbol_cache [] = pure tt
  write_snapshots symbol_cache ((market_id, market) ∷ markets) = do
    symbol ← lift (ok_or (lookup market_id symbol_cache) unknown_market)
    row ← lift (book_snapshot_row symbol market)
    send_row (orderbook row)
    write_snapshots symbol_cache markets

  unfoldable pub write_periodic_snapshots : IntMap ℤ → Action Session (Unit {0})
  write_periodic_snapshots symbol_cache session =
      write_snapshots symbol_cache session.markets session

  -- `handle_orderbook_frame` behind the lookup of the symbol: a message for an unknown market is
  -- skipped.
  unfoldable pub handle_order_book : ℤ → OrderBookWsMessage → Option ℤ → Action Session (Unit {0})
  handle_order_book market_id message none = pure tt
  handle_order_book market_id message (some symbol) = do
    row ← on_markets (apply_orderbook_message symbol market_id message)
    send_row (orderbook row)

  unfoldable pub handle_orderbook_frame : s.Json → IntMap ℤ → Action Session (Unit {0})
  unfolding handle_order_book
  handle_orderbook_frame value symbol_cache = do
    parsed ← lift (ok_or (s.to_order_book_message value) bad_message)
    market_id ← lift (ok_or (order_book_market_id parsed) no_market_id)
    handle_order_book market_id parsed (lookup market_id symbol_cache)

  unfoldable pub send_trades : ℤ → List Trade → Action Session (Unit {0})
  send_trades symbol [] = pure tt
  send_trades symbol (t ∷ trades) = do
    row ← lift (trade_row t symbol)
    send_row (WriteMsg.trade row)
    send_trades symbol trades

  -- `trades.iter().chain(liquidation_trades.iter())`
  abbrev pub all_trades : TradeWsMessage → List Trade
  all_trades (TradeWsMessage.subscribed _ _ trades liquidation_trades) =
      trades ++ liquidation_trades
  all_trades (TradeWsMessage.update _ _ trades liquidation_trades) = trades ++ liquidation_trades

  unfoldable pub handle_trades : TradeWsMessage → Option ℤ → Action Session (Unit {0})
  handle_trades message none = pure tt
  handle_trades message (some symbol) = send_trades symbol (all_trades message)

  unfoldable pub handle_trade_frame : s.Json → IntMap ℤ → Action Session (Unit {0})
  unfolding handle_trades
  handle_trade_frame value symbol_cache = do
    parsed ← lift (ok_or (s.to_trade_message value) bad_message)
    market_id ← lift (ok_or (trade_market_id parsed) no_market_id)
    handle_trades parsed (lookup market_id symbol_cache)

  abbrev or_empty : Option Text → Text
  or_empty none = []
  or_empty (some t) = t

  abbrev bind_option {ℓ κ} : {A : Type ℓ} {B : Type κ} → Option A → (A → Option B) → Option B
  bind_option none g = none
  bind_option (some a) g = g a

  abbrev is_some {ℓ} : {A : Type ℓ} → Option A → Bool
  is_some none = false
  is_some (some a) = true

  -- The dispatch on a parsed frame: an `error` field first, then the `type`.
  unfoldable pub frame_kind : s.Json → FrameKind
  frame_kind value =
      let ty = or_empty (bind_option (s.get value (codes "type")) s.as_str) in
      if is_some (s.get value (codes "error"))
      then error_frame
      else if ends_with ty (codes "order_book")
      then order_book_frame
      else if ends_with ty (codes "trade")
      then trade_frame
      else if text_eq ty (codes "ping")
      then ping_frame
      else unhandled_frame

  -- Error frames and unhandled ones are logged.
  unfoldable pub handle_kind : IntMap ℤ → s.Json → FrameKind → Action Session (Unit {0})
  handle_kind symbol_cache value error_frame = pure tt
  handle_kind symbol_cache value order_book_frame = handle_orderbook_frame value symbol_cache
  handle_kind symbol_cache value trade_frame = handle_trade_frame value symbol_cache
  handle_kind symbol_cache value ping_frame = send_socket pong
  handle_kind symbol_cache value unhandled_frame = pure tt

  unfoldable pub handle_incoming : IntMap ℤ → Incoming → Action Session (Unit {0})
  handle_incoming symbol_cache ended = fail stream_ended
  handle_incoming symbol_cache failed = fail read_error
  handle_incoming symbol_cache (text t) = do
    value ← lift (ok_or (s.from_str t) bad_frame)
    handle_kind symbol_cache value (frame_kind value)
  handle_incoming symbol_cache close = fail closed_by_server
  handle_incoming symbol_cache other = pure tt

  -- `format!("order_book/{market_id}")` and `format!("trade/{market_id}")`
  abbrev pub order_book_channel : ℤ → Text
  order_book_channel market_id = codes "order_book/" ++ print_i32 market_id

  abbrev pub trade_channel : ℤ → Text
  trade_channel market_id = codes "trade/" ++ print_i32 market_id

  unfoldable pub resubscribe : List ℤ → Action Session (Unit {0})
  resubscribe [] = pure tt
  resubscribe (market_id ∷ missing) = do
    send_socket (request (codes "unsubscribe") (order_book_channel market_id))
    send_socket (request (codes "subscribe") (order_book_channel market_id))
    resubscribe missing

  unfoldable pub subscribe_all : List ℤ → Action Session (Unit {0})
  subscribe_all [] = pure tt
  subscribe_all (market_id ∷ market_ids) = do
    send_socket (request (codes "subscribe") (order_book_channel market_id))
    send_socket (request (codes "subscribe") (trade_channel market_id))
    subscribe_all market_ids

  unfoldable pub handle_event : List ℤ → IntMap ℤ → Event → Action Session (Unit {0})
  unfolding handle_incoming
  handle_event market_ids symbol_cache (incoming frame) = handle_incoming symbol_cache frame
  handle_event market_ids symbol_cache snapshot_tick = write_periodic_snapshots symbol_cache
  handle_event market_ids symbol_cache keepalive_tick = send_socket ping
  handle_event market_ids symbol_cache book_check_tick = do
    missing ← gets (λ session. missing_books market_ids session.markets)
    resubscribe missing
  handle_event market_ids symbol_cache receiver_dropped =
      modify λ session. record session { receiver_open = false }
  handle_event market_ids symbol_cache socket_broken =
      modify λ session. record session { socket_open = false }

  -- The loop, for as many rounds as there are events: `ok` means that it is still running.
  unfoldable pub run_events : List ℤ → IntMap ℤ → List Event → Action Session (Unit {0})
  run_events market_ids symbol_cache [] = pure tt
  run_events market_ids symbol_cache (event ∷ events) = do
    handle_event market_ids symbol_cache event
    run_events market_ids symbol_cache events

  -- The books are fresh on every connection; the channel to the writer is the caller's.
  abbrev pub connect : Session → Session
  connect session = record session { markets = []; outbox = []; socket_open = true }

  -- `connected` is whether `connect_async` succeeds.
  unfoldable pub run_ws_ingestion :
      List ℤ → IntMap ℤ → Bool → List Event → Action Session (Unit {0})
  run_ws_ingestion market_ids symbol_cache false events = fail socket_failed
  run_ws_ingestion market_ids symbol_cache true events = do
    modify connect
    subscribe_all market_ids
    run_events market_ids symbol_cache events

  -- The last loop of `main`, over the connections that are made: an error leads to the next one.
  unfoldable pub reconnect_loop : List ℤ → IntMap ℤ → List (Bool × List Event) → Session → Session
  reconnect_loop market_ids symbol_cache [] session = session
  reconnect_loop market_ids symbol_cache ((connected, events) ∷ rest) session =
      let (result, session') = run_ws_ingestion market_ids symbol_cache connected events session in
      elim result [ ok _ ↦ session' | err _ ↦ reconnect_loop market_ids symbol_cache rest session' ]
