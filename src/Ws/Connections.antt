-- ===== src/Ws/Connections.antt =====
-- The events of a connection and the connections one after the other: what each leaves of the
-- agreement between the rows sent and the books.
use lighter_timescaledb_inge.Base.{
  ◌≡◌, sym, subst, Bool, true, false, Option, none, some, List, [], ◌∷◌, ◌++◌, codes, Result, ok,
  err, Action, ◌>>=◌, ◌>>◌, ok_or, bad_message, bad_frame, no_market_id, channel_closed,
  socket_failed, Error, lift, arith, Bool-cases, Option-cases, Result-cases, inl, inr,
}
use lighter_timescaledb_inge.Base.Int.{ℤ}
use lighter_timescaledb_inge.Base.IntMap.{IntMap, lookup, IsDistinct-entries}
use lighter_timescaledb_inge.Wire.{Trade}
use lighter_timescaledb_inge.Wire.Channel.{order_book_market_id, trade_market_id}
use lighter_timescaledb_inge.External.{Decimals, Chrono, Serde, Floats}
use lighter_timescaledb_inge.Ws.{MarketBook, missing_books}
use lighter_timescaledb_inge.Ws.Session.{
  trade, Session, Event, Incoming, SocketMsg, request, pong, ping, order_book_channel,
  trade_channel, ended, failed, text, close, other, incoming, snapshot_tick, keepalive_tick,
  book_check_tick, receiver_dropped, socket_broken, trade_row, send_socket,
  write_periodic_snapshots, handle_order_book, handle_orderbook_frame, send_trades, handle_trades,
  handle_trade_frame, all_trades, FrameKind, error_frame, order_book_frame, trade_frame, ping_frame,
  unhandled_frame, frame_kind, handle_kind, handle_incoming, resubscribe, subscribe_all,
  handle_event, run_events, connect, run_ws_ingestion, reconnect_loop,
}
use lighter_timescaledb_inge.Ws.Stream.{
  IsInjective, AllReadable, IsSound, Leaves, trade_AllReadable, then_Leaves, send_row-cases,
  trade_AllTracked, write_snapshots-Leaves, apply_and_send,
}

module _ ⦃d : Decimals⦄ ⦃c : Chrono⦄ ⦃s : Serde⦄ ⦃f : Floats⦄ (cache : IntMap ℤ)
    (initial : Option MarketBook) where
  send_socket-Leaves :
      (msg : SocketMsg) (session : Session)
      → IsSound cache initial session
      → Leaves cache initial (send_socket msg session)
  unfolding send_socket
  send_socket-Leaves msg session sound = elim (Bool-cases session.socket_open) [
    | inl up ↦
        let session' = record session { outbox = session.outbox ++ msg ∷ [] } in
        let e : send_socket msg session ≡ (ok tt, session') = ground arith in
        subst (Leaves cache initial) (sym e) (record {
          tracked = sound.tracked;
          readable = sound.readable;
          valid = sound.valid;
          distinct = sound.distinct;
        })
    | inr down ↦
        let e : send_socket msg session ≡ (err socket_failed, session) = ground arith in
        subst (Leaves cache initial) (sym e) sound.readable
  ]

  send_two :
      (a b : SocketMsg) (k : Action Session (Unit {0})) (session : Session)
      → IsSound cache initial session
      → ((later : Session) → IsSound cache initial later → Leaves cache initial (k later))
      → Leaves cache initial ((send_socket a >> (send_socket b >> k)) session)
  send_two a b k session sound h =
      then_Leaves cache initial (send_socket a) (send_socket b >> k) session
        (send_socket-Leaves a session sound)
        (λ next sound'.
          then_Leaves cache initial (send_socket b) k next (send_socket-Leaves b next sound') h)

  resubscribe-Leaves :
      (ids : List ℤ) (session : Session)
      → IsSound cache initial session
      → Leaves cache initial (resubscribe ids session)
  unfolding resubscribe
  resubscribe-Leaves [] session sound = sound
  resubscribe-Leaves (id ∷ ids) session sound =
      send_two (request (codes "unsubscribe") (order_book_channel id))
        (request (codes "subscribe") (order_book_channel id)) (resubscribe ids) session sound
        (λ later sound'. resubscribe-Leaves ids later sound')

  subscribe_all-Leaves :
      (ids : List ℤ) (session : Session)
      → IsSound cache initial session
      → Leaves cache initial (subscribe_all ids session)
  unfolding subscribe_all
  subscribe_all-Leaves [] session sound = sound
  subscribe_all-Leaves (id ∷ ids) session sound =
      send_two (request (codes "subscribe") (order_book_channel id))
        (request (codes "subscribe") (trade_channel id)) (subscribe_all ids) session sound
        (λ later sound'. subscribe_all-Leaves ids later sound')

  send_trades-Leaves :
      (symbol : ℤ) (trades : List Trade) (session : Session)
      → IsSound cache initial session
      → Leaves cache initial (send_trades symbol trades session)
  unfolding send_trades
  send_trades-Leaves symbol [] session sound = sound
  send_trades-Leaves symbol (t ∷ trades) session sound =
      let run = send_trades symbol (t ∷ trades) session in
      elim (Result-cases (trade_row t symbol)) [
        | inl (x, bad) ↦
            let e : run ≡ (err x, session) = ground arith in
            subst (Leaves cache initial) (sym e) sound.readable
        | inr (row, good) ↦
            let session' = record session { sent = session.sent ++ trade row ∷ [] } in
            elim (send_row-cases (trade row) session) [
              | inl shut ↦
                  let e : run ≡ (err channel_closed, session) = ground arith in
                  subst (Leaves cache initial) (sym e) sound.readable
              | inr up ↦
                  let e : run ≡ send_trades symbol trades session' = ground arith in
                  subst (Leaves cache initial) (sym e) (
                    send_trades-Leaves symbol trades
                      (record session { sent = session.sent ++ trade row ∷ [] })
                      (record {
                        tracked =
                            trade_AllTracked cache initial session.sent session.markets row
                              sound.tracked;
                        readable = trade_AllReadable initial session.sent row sound.readable;
                        valid = sound.valid;
                        distinct = sound.distinct;
                      }))
            ]
      ]

  -- An action that reads an option first, and fails without it.
  needed_Leaves {ℓ} :
      {A : Type ℓ} (o : Option A) (x : Error) (k : A → Action Session (Unit {0}))
      (session : Session)
      → IsSound cache initial session
      → ((a : A) → Leaves cache initial (k a session))
      → Leaves cache initial ((lift (ok_or o x) >>= k) session)
  needed_Leaves none x k session sound h = sound.readable
  needed_Leaves (some a) x k session sound h = h a

module _ ⦃d : Decimals⦄ ⦃c : Chrono⦄ ⦃s : Serde⦄ ⦃f : Floats⦄ (cache : IntMap ℤ)
    (initial : Option MarketBook) (injective : IsInjective cache) where
  handle_orderbook_frame-Leaves :
      (value : s.Json) (session : Session)
      → IsSound cache initial session
      → Leaves cache initial (handle_orderbook_frame value cache session)
  unfolding handle_orderbook_frame
  handle_orderbook_frame-Leaves value session sound =
      needed_Leaves cache initial (s.to_order_book_message value) bad_message
        (λ parsed. lift (ok_or (order_book_market_id parsed) no_market_id) >>= λ market_id.
          handle_order_book market_id parsed (lookup market_id cache))
        session sound
        (λ parsed.
          needed_Leaves cache initial (order_book_market_id parsed) no_market_id
            (λ market_id. handle_order_book market_id parsed (lookup market_id cache)) session sound
            (λ market_id. elim (Option-cases (lookup market_id cache)) [
              | inl unknown ↦ rw (unknown, handle_order_book) sound
              | inr (symbol, here) ↦ rw here (
                  apply_and_send cache initial injective market_id symbol parsed session here sound)
            ]))

  handle_trade_frame-Leaves :
      (value : s.Json) (session : Session)
      → IsSound cache initial session
      → Leaves cache initial (handle_trade_frame value cache session)
  unfolding handle_trade_frame
  handle_trade_frame-Leaves value session sound =
      needed_Leaves cache initial (s.to_trade_message value) bad_message
        (λ parsed. lift (ok_or (trade_market_id parsed) no_market_id) >>= λ market_id.
          handle_trades parsed (lookup market_id cache))
        session sound
        (λ parsed.
          needed_Leaves cache initial (trade_market_id parsed) no_market_id
            (λ market_id. handle_trades parsed (lookup market_id cache)) session sound
            (λ market_id. elim (Option-cases (lookup market_id cache)) [
              | inl unknown ↦ rw (unknown, handle_trades) sound
              | inr (symbol, here) ↦
                  rw (here, handle_trades)
                    (send_trades-Leaves cache initial symbol (all_trades parsed) session sound)
            ]))

  handle_kind-Leaves :
      (value : s.Json) (kind : FrameKind) (session : Session)
      → IsSound cache initial session
      → Leaves cache initial (handle_kind cache value kind session)
  unfolding handle_kind
  handle_kind-Leaves value error_frame session sound = sound
  handle_kind-Leaves value order_book_frame session sound =
      handle_orderbook_frame-Leaves value session sound
  handle_kind-Leaves value trade_frame session sound = handle_trade_frame-Leaves value session sound
  handle_kind-Leaves value ping_frame session sound =
      send_socket-Leaves cache initial pong session sound
  handle_kind-Leaves value unhandled_frame session sound = sound

  handle_incoming-Leaves :
      (frame : Incoming) (session : Session)
      → IsSound cache initial session
      → Leaves cache initial (handle_incoming cache frame session)
  unfolding handle_incoming
  handle_incoming-Leaves ended session sound = sound.readable
  handle_incoming-Leaves failed session sound = sound.readable
  handle_incoming-Leaves (text t) session sound =
      needed_Leaves cache initial (s.from_str t) bad_frame
        (λ value. handle_kind cache value (frame_kind value)) session sound
        (λ value. handle_kind-Leaves value (frame_kind value) session sound)
  handle_incoming-Leaves close session sound = sound.readable
  handle_incoming-Leaves other session sound = sound

  pub handle_event-Leaves :
      (market_ids : List ℤ) (event : Event) (session : Session)
      → IsSound cache initial session
      → Leaves cache initial (handle_event market_ids cache event session)
  unfolding handle_event write_periodic_snapshots
  handle_event-Leaves ids (incoming frame) session sound =
      handle_incoming-Leaves frame session sound
  handle_event-Leaves ids snapshot_tick session sound =
      write_snapshots-Leaves cache initial injective session.markets session
        (IsDistinct-entries session.markets sound.distinct) sound
  handle_event-Leaves ids keepalive_tick session sound =
      send_socket-Leaves cache initial ping session sound
  handle_event-Leaves ids book_check_tick session sound =
      resubscribe-Leaves cache initial (missing_books ids session.markets) session sound
  handle_event-Leaves ids receiver_dropped session sound = record {
    tracked = sound.tracked;
    readable = sound.readable;
    valid = sound.valid;
    distinct = sound.distinct;
  }
  handle_event-Leaves ids socket_broken session sound = record {
    tracked = sound.tracked;
    readable = sound.readable;
    valid = sound.valid;
    distinct = sound.distinct;
  }

  pub run_events-Leaves :
      (market_ids : List ℤ) (events : List Event) (session : Session)
      → IsSound cache initial session
      → Leaves cache initial (run_events market_ids cache events session)
  unfolding run_events
  run_events-Leaves ids [] session sound = sound
  run_events-Leaves ids (event ∷ events) session sound =
      then_Leaves cache initial (handle_event ids cache event) (run_events ids cache events) session
        (handle_event-Leaves ids event session sound)
        (λ later sound'. run_events-Leaves ids events later sound')

  pub connect-IsSound :
      (session : Session)
      → AllReadable initial session.sent
      → IsSound cache initial (connect session)
  unfolding lookup
  connect-IsSound session readable = record {
    tracked = λ id symbol here. let (have, read) = readable symbol in (have, read, tt);
    readable = readable;
    valid = λ id market found. cc;
    distinct = tt;
  }

  pub run_ws_ingestion-Leaves :
      (market_ids : List ℤ) (connected : Bool) (events : List Event) (session : Session)
      → AllReadable initial session.sent
      → Leaves cache initial (run_ws_ingestion market_ids cache connected events session)
  unfolding run_ws_ingestion
  run_ws_ingestion-Leaves ids false events session readable = readable
  run_ws_ingestion-Leaves ids true events session readable =
      then_Leaves cache initial (subscribe_all ids) (run_events ids cache events) (connect session)
        (subscribe_all-Leaves cache initial ids (connect session)
          (connect-IsSound session readable))
        (λ later sound. run_events-Leaves ids events later sound)

  Leaves-readable :
      (r : Result (Unit {0}) × Session) → Leaves cache initial r → AllReadable initial r.1.sent
  Leaves-readable (ok _, session) sound = sound.readable
  Leaves-readable (err e, session) readable = readable

  pub reconnect_loop-readable :
      (market_ids : List ℤ) (connections : List (Bool × List Event)) (session : Session)
      → AllReadable initial session.sent
      → AllReadable initial (reconnect_loop market_ids cache connections session).sent
  unfolding reconnect_loop
  reconnect_loop-readable ids [] session readable = readable
  reconnect_loop-readable ids ((connected, events) ∷ rest) session readable =
      next (run_ws_ingestion ids cache connected events session)
        (run_ws_ingestion-Leaves ids connected events session readable)
        (λ later r. reconnect_loop-readable ids rest later r)
    where
      next :
          (r : Result (Unit {0}) × Session)
          → Leaves cache initial r
          → ((later : Session)
              → AllReadable initial later.sent
              → AllReadable initial (reconnect_loop ids cache rest later).sent)
          → AllReadable initial
              (elim r.0 as (λ _. Session) [
                | ok _ ↦ r.1
                | err _ ↦ reconnect_loop ids cache rest r.1
              ]).sent
      next (ok _, later) sound h = sound.readable
      next (err e, later) r h = h later r
