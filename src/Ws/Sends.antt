-- ===== src/Ws/Sends.antt =====
-- src/ws.rs: the handlers of a connection, and connections one after the other, each add rows of the
-- shape of Ws/Shape behind those that were sent.
use lighter_timescaledb_inge.Base.{
  ◌≡◌, refl, sym, ap, Bool, true, false, Option, none, some, List, [], ◌∷◌, append-nil, codes,
  Result, ok, Action, ◌>>=◌, ◌>>◌, lift, ok_or, ok_or-some, bad_message, bad_frame, no_market_id,
  unknown_market, Option-cases, Result-cases, arith, inl, inr,
}
use lighter_timescaledb_inge.Base.Int.{ℤ}
use lighter_timescaledb_inge.Base.IntMap.{IntMap, lookup}
use lighter_timescaledb_inge.Wire.{Trade, OrderBookWsMessage}
use lighter_timescaledb_inge.Wire.Channel.{order_book_market_id, trade_market_id}
use lighter_timescaledb_inge.External.{Decimals, Chrono, Serde, Floats}
use lighter_timescaledb_inge.Models.{TradeRow, OrderbookMessageRow}
use lighter_timescaledb_inge.Ws.{
  Markets, snapshot_type, delta_type, missing_books, book_snapshot_row, apply_orderbook_message,
}
use lighter_timescaledb_inge.Ws.Apply.{subscribed_lem, update_lem}
use lighter_timescaledb_inge.Ws.Reader.{orderbook_row-Says, book_snapshot_row-Says}
use lighter_timescaledb_inge.Ws.Session.{
  WriteMsg, orderbook, Session, Event, Incoming, SocketMsg, request, pong, ping, order_book_channel,
  trade_channel, ended, failed, text, close, other, incoming, snapshot_tick, keepalive_tick,
  book_check_tick, receiver_dropped, socket_broken, trade_row, millis_to_datetime, on_markets,
  send_row, send_socket, write_snapshots, write_periodic_snapshots, handle_order_book,
  handle_orderbook_frame, send_trades, handle_trades, handle_trade_frame, all_trades, FrameKind,
  error_frame, order_book_frame, trade_frame, ping_frame, unhandled_frame, frame_kind, handle_kind,
  handle_incoming, resubscribe, subscribe_all, handle_event, run_events, connect, run_ws_ingestion,
}
use lighter_timescaledb_inge.Ws.Shape.{
  IsTyped, Sends, Sends-none, Sends-bind, send_row-Sends, send_socket-Sends, needed_Sends,
}

module _ ⦃d : Decimals⦄ ⦃c : Chrono⦄ ⦃s : Serde⦄ where
  -- The row of a message that is applied is typed as the message is.
  apply_orderbook_message-IsTyped :
      (symbol id : ℤ) (message : OrderBookWsMessage) (markets markets' : Markets)
      (row : OrderbookMessageRow)
      → apply_orderbook_message symbol id message markets ≡ (ok row, markets')
      → (row.symbol ≡ symbol) × ((n : ℤ) × (row.sequence ≡ some n)) × IsTyped row
  apply_orderbook_message-IsTyped symbol id (OrderBookWsMessage.subscribed ch at levels) markets
        markets' row h =
      let u = subscribed_lem symbol id at ch levels markets markets' row h in
      let says =
        orderbook_row-Says symbol snapshot_type none at levels u.time row u.is_time u.written in
      (says.says_symbol, (levels.nonce, says.says_sequence), inl (says.says_type, says.says_begin))
  apply_orderbook_message-IsTyped symbol id (OrderBookWsMessage.update ch at levels) markets
        markets' row h =
      let (market, found, u) = update_lem symbol id at ch levels markets markets' row h in
      let says =
        orderbook_row-Says symbol delta_type (some levels.begin_nonce) at levels u.time row
          u.is_time u.written in
      (
        says.says_symbol,
        (levels.nonce, says.says_sequence),
        inr (says.says_type, (levels.begin_nonce, says.says_begin)),
      )

module _ ⦃c : Chrono⦄ ⦃f : Floats⦄ where
  trade_row-symbol :
      (t : Trade) (symbol : ℤ) (row : TradeRow) → trade_row t symbol ≡ ok row → row.symbol ≡ symbol
  unfolding trade_row
  trade_row-symbol t symbol row h = elim (Result-cases (millis_to_datetime t.timestamp)) [
    | inl (e, bad) ↦ absurd (ground arith)
    | inr (time, good) ↦ elim (Option-cases (f.parse t.price)) [
      | inl bad ↦ absurd (ground arith)
      | inr (price, fine) ↦ elim (Option-cases (f.parse t.size)) [
        | inl bad ↦ absurd (ground arith)
        | inr (size, well) ↦ ground arith
      ]
    ]
  ]

module _ ⦃d : Decimals⦄ ⦃c : Chrono⦄ ⦃s : Serde⦄ ⦃f : Floats⦄ (cache : IntMap ℤ) where
  write_snapshots-Sends :
      (left : Markets) (session : Session)
      → Sends cache session.sent (write_snapshots cache left session)
  unfolding write_snapshots
  write_snapshots-Sends [] session = Sends-none cache session.sent (ok tt, session) refl
  write_snapshots-Sends ((id, market) ∷ left) session =
      needed_Sends cache (ok_or (lookup id cache) unknown_market)
        (λ symbol. lift (book_snapshot_row symbol market) >>= λ row.
          send_row (orderbook row) >> write_snapshots cache left)
        session
        (λ symbol found.
          needed_Sends cache (book_snapshot_row symbol market)
            (λ row. send_row (orderbook row) >> write_snapshots cache left) session
            (λ row good.
              let says = book_snapshot_row-Says symbol market row good in
              Sends-bind cache (send_row (orderbook row)) (λ _. write_snapshots cache left) session
                (send_row-Sends cache (orderbook row) session (
                  (
                    id,
                    rw says.says_symbol (ok_or-some (lookup id cache) unknown_market symbol found),
                  ),
                  (market.nonce, says.says_sequence),
                  inl (says.says_type, says.says_begin),
                ))
                (λ _ next _. write_snapshots-Sends left next)))

  handle_order_book-Sends :
      (id symbol : ℤ) (message : OrderBookWsMessage) (session : Session)
      → lookup id cache ≡ some symbol
      → Sends cache session.sent (handle_order_book id message (some symbol) session)
  unfolding handle_order_book
  handle_order_book-Sends id symbol message session here =
      let apply = on_markets (apply_orderbook_message symbol id message) in
      Sends-bind cache apply (λ row. send_row (orderbook row)) session
        (Sends-none cache session.sent (apply session) refl)
        (λ row session' applied.
          let (same, sequence, typed) =
            apply_orderbook_message-IsTyped symbol id message session.markets session'.markets row
              (ap (λ (x : Result OrderbookMessageRow × Session). (x.0, x.1.markets)) applied) in
          send_row-Sends cache (orderbook row) session' ((id, rw same here), sequence, typed))

  send_trades-Sends :
      (id symbol : ℤ) (trades : List Trade) (session : Session)
      → lookup id cache ≡ some symbol
      → Sends cache session.sent (send_trades symbol trades session)
  unfolding send_trades
  send_trades-Sends id symbol [] session here = Sends-none cache session.sent (ok tt, session) refl
  send_trades-Sends id symbol (t ∷ trades) session here =
      needed_Sends cache (trade_row t symbol)
        (λ row. send_row (WriteMsg.trade row) >> send_trades symbol trades) session
        (λ row good.
          Sends-bind cache (send_row (WriteMsg.trade row)) (λ _. send_trades symbol trades) session
            (send_row-Sends cache (WriteMsg.trade row) session
              (id, rw (trade_row-symbol t symbol row good) here))
            (λ _ next _. send_trades-Sends id symbol trades next here))

  -- A frame of a channel: the message, its market, and then what is done for the market's symbol.
  for_market :
      {A : Type 0} (parsed : Option A) (market_of : A → Option ℤ)
      (handle : ℤ → A → Option ℤ → Action Session (Unit {0})) (session : Session)
      → ((id : ℤ) (message : A) → handle id message none session ≡ (ok tt, session))
      → ((id symbol : ℤ) (message : A)
          → lookup id cache ≡ some symbol
          → Sends cache session.sent (handle id message (some symbol) session))
      → Sends cache session.sent (
          (lift (ok_or parsed bad_message) >>= λ message.
          lift (ok_or (market_of message) no_market_id) >>= λ id.
          handle id message (lookup id cache))
            session)
  for_market parsed market_of handle session skips handles =
      needed_Sends cache (ok_or parsed bad_message)
        (λ message. lift (ok_or (market_of message) no_market_id) >>= λ id.
          handle id message (lookup id cache))
        session
        (λ message _.
          needed_Sends cache (ok_or (market_of message) no_market_id)
            (λ id. handle id message (lookup id cache)) session
            (λ id _. elim (Option-cases (lookup id cache)) [
              | inl unknown ↦ rw (unknown, skips id message) ([], sym (append-nil session.sent), tt)
              | inr (symbol, here) ↦ rw here (handles id symbol message here)
            ]))

  handle_orderbook_frame-Sends :
      (value : s.Json) (session : Session)
      → Sends cache session.sent (handle_orderbook_frame value cache session)
  unfolding handle_orderbook_frame handle_order_book
  handle_orderbook_frame-Sends value session =
      for_market (s.to_order_book_message value) order_book_market_id handle_order_book session
        (λ id message. refl)
        (λ id symbol message here. handle_order_book-Sends id symbol message session here)

  handle_trade_frame-Sends :
      (value : s.Json) (session : Session)
      → Sends cache session.sent (handle_trade_frame value cache session)
  unfolding handle_trade_frame handle_trades
  handle_trade_frame-Sends value session =
      for_market (s.to_trade_message value) trade_market_id (λ _. handle_trades) session
        (λ id message. refl)
        (λ id symbol message here. send_trades-Sends id symbol (all_trades message) session here)

  handle_kind-Sends :
      (value : s.Json) (kind : FrameKind) (session : Session)
      → Sends cache session.sent (handle_kind cache value kind session)
  unfolding handle_kind
  handle_kind-Sends value error_frame session = Sends-none cache session.sent (ok tt, session) refl
  handle_kind-Sends value order_book_frame session = handle_orderbook_frame-Sends value session
  handle_kind-Sends value trade_frame session = handle_trade_frame-Sends value session
  handle_kind-Sends value ping_frame session = send_socket-Sends cache pong session
  handle_kind-Sends value unhandled_frame session =
      Sends-none cache session.sent (ok tt, session) refl

  handle_incoming-Sends :
      (frame : Incoming) (session : Session)
      → Sends cache session.sent (handle_incoming cache frame session)
  unfolding handle_incoming
  handle_incoming-Sends (text t) session =
      needed_Sends cache (ok_or (s.from_str t) bad_frame)
        (λ value. handle_kind cache value (frame_kind value)) session
        (λ value _. handle_kind-Sends value (frame_kind value) session)
  handle_incoming-Sends ended session = ([], sym (append-nil session.sent), tt)
  handle_incoming-Sends failed session = ([], sym (append-nil session.sent), tt)
  handle_incoming-Sends close session = ([], sym (append-nil session.sent), tt)
  handle_incoming-Sends other session = ([], sym (append-nil session.sent), tt)

  -- Two messages to the server, and then more.
  send_two :
      (a b : SocketMsg) (k : Action Session (Unit {0})) (session : Session)
      → ((later : Session) → Sends cache later.sent (k later))
      → Sends cache session.sent ((send_socket a >> (send_socket b >> k)) session)
  send_two a b k session h =
      Sends-bind cache (send_socket a) (λ _. send_socket b >> k) session
        (send_socket-Sends cache a session)
        (λ _ next _.
          Sends-bind cache (send_socket b) (λ _. k) next (send_socket-Sends cache b next)
            (λ _ later _. h later))

  resubscribe-Sends :
      (ids : List ℤ) (session : Session) → Sends cache session.sent (resubscribe ids session)
  unfolding resubscribe
  resubscribe-Sends [] session = Sends-none cache session.sent (ok tt, session) refl
  resubscribe-Sends (id ∷ ids) session =
      send_two (request (codes "unsubscribe") (order_book_channel id))
        (request (codes "subscribe") (order_book_channel id)) (resubscribe ids) session
        (resubscribe-Sends ids)

  subscribe_all-Sends :
      (ids : List ℤ) (session : Session) → Sends cache session.sent (subscribe_all ids session)
  unfolding subscribe_all
  subscribe_all-Sends [] session = Sends-none cache session.sent (ok tt, session) refl
  subscribe_all-Sends (id ∷ ids) session =
      send_two (request (codes "subscribe") (order_book_channel id))
        (request (codes "subscribe") (trade_channel id)) (subscribe_all ids) session
        (subscribe_all-Sends ids)

  pub handle_event-Sends :
      (market_ids : List ℤ) (event : Event) (session : Session)
      → Sends cache session.sent (handle_event market_ids cache event session)
  unfolding handle_event write_periodic_snapshots
  handle_event-Sends ids (incoming frame) session = handle_incoming-Sends frame session
  handle_event-Sends ids snapshot_tick session = write_snapshots-Sends session.markets session
  handle_event-Sends ids keepalive_tick session = send_socket-Sends cache ping session
  handle_event-Sends ids book_check_tick session =
      resubscribe-Sends (missing_books ids session.markets) session
  handle_event-Sends ids receiver_dropped session = ([], sym (append-nil session.sent), tt)
  handle_event-Sends ids socket_broken session = ([], sym (append-nil session.sent), tt)

  run_events-Sends :
      (market_ids : List ℤ) (events : List Event) (session : Session)
      → Sends cache session.sent (run_events market_ids cache events session)
  unfolding run_events
  run_events-Sends ids [] session = Sends-none cache session.sent (ok tt, session) refl
  run_events-Sends ids (event ∷ events) session =
      Sends-bind cache (handle_event ids cache event) (λ _. run_events ids cache events) session
        (handle_event-Sends ids event session) (λ _ later _. run_events-Sends ids events later)

  -- Whatever a connection meets, and wherever it ends, it adds rows behind those that were sent, and
  -- changes none. Each is of a symbol that the cache knows, and a row of an order book has a sequence and
  -- is either marked as a snapshot without a `begin_nonce` or as a delta with one.
  pub run_ws_ingestion-Sends :
      (market_ids : List ℤ) (connected : Bool) (events : List Event) (session : Session)
      → Sends cache session.sent (run_ws_ingestion market_ids cache connected events session)
  unfolding run_ws_ingestion
  run_ws_ingestion-Sends ids false events session = ([], sym (append-nil session.sent), tt)
  run_ws_ingestion-Sends ids true events session =
      Sends-bind cache (subscribe_all ids) (λ _. run_events ids cache events) (connect session)
        (subscribe_all-Sends ids (connect session)) (λ _ later _. run_events-Sends ids events later)
