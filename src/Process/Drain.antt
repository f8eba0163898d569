-- ===== src/Process/Drain.antt =====
-- src/main.rs and src/ws.rs: while the database works, the writer never stands in the way: what is
-- in the channel can be received, and one flush then stores all that was sent.
use lighter_timescaledb_inge.Base.{
  ◌≡◌, refl, sym, ap, ◌∙◌, subst, ℕ, Bool, true, false, not, some, List, [], ◌∷◌, ◌++◌,
  append_assoc, append-nil, append-cancel, Succeeds, >>=-Succeeds, ok, Action, ◌>>◌, pure, ok_or,
  database_failed, is_empty, leb, length, Bool-cases, inl, inr,
}
use lighter_timescaledb_inge.Base.Int.{ℤ}
use lighter_timescaledb_inge.Base.IntMap.{IntMap}
use lighter_timescaledb_inge.External.{Decimals, Chrono, Serde, Floats}
use lighter_timescaledb_inge.Models.{TradeRow, OrderbookMessageRow}
use lighter_timescaledb_inge.Table.Part.{Part, Part-whole}
use lighter_timescaledb_inge.Database.{
  Database, get_conn, insert_trades, insert_orderbook_messages, insert_new_trades,
}
use lighter_timescaledb_inge.Ws.Session.{WriteMsg, Session}
use lighter_timescaledb_inge.Writer.{
  Writer, unless, write_rows, flush, push, trade_rows, orderbook_rows, batch_capacity,
}
use lighter_timescaledb_inge.Writer.Splits.{Splits, rows-Splits}
use lighter_timescaledb_inge.Writer.Delivery.{flush-empties}
use lighter_timescaledb_inge.Process.{Process, is_ok, wrote, Step, receive, tick, Reach, later}
use lighter_timescaledb_inge.Process.Delivery.{Reach-Delivers, Reach-taken}

module _ ⦃c : Chrono⦄ ⦃s : Serde⦄ ⦃f : Floats⦄ ⦃b : Database⦄ where
  -- The pool gives a connection, and no insert fails.
  pub record Works : Type 0 where
    pub connects : (db : b.Db) → (b.get db).0 ≡ some tt
    pub takes_trades :
        (rows : List TradeRow) (db : b.Db) → (n : ℕ) × ((b.execute_trades rows db).0 ≡ some n)
    pub takes_messages :
        (rows : List OrderbookMessageRow) (db : b.Db)
        → (n : ℕ) × ((b.execute_orderbook_messages rows db).0 ≡ some n)

module _ ⦃c : Chrono⦄ ⦃s : Serde⦄ ⦃f : Floats⦄ ⦃b : Database⦄ (works : Works) where
  unless-Succeeds : (test : Bool) (act : Action b.Db ℕ) → Succeeds act → Succeeds (unless test act)
  unless-Succeeds true act h db = (tt, refl)
  unless-Succeeds false act h db = >>=-Succeeds act (λ _. pure tt) h (λ n db'. (tt, refl)) db

  write_rows-Succeeds :
      (trades : List TradeRow) (messages : List OrderbookMessageRow)
      → Succeeds (write_rows trades messages)
  unfolding write_rows insert_trades insert_orderbook_messages
  write_rows-Succeeds trades messages =
      >>=-Succeeds get_conn
        (λ _.
          unless (is_empty trades) (insert_trades trades)
          >> unless (is_empty messages) (insert_orderbook_messages messages))
        (λ db. (tt, ap (λ o. ok_or o database_failed) (works.connects db)))
        (λ _.
          >>=-Succeeds (unless (is_empty trades) (insert_trades trades))
            (λ _. unless (is_empty messages) (insert_orderbook_messages messages))
            (unless-Succeeds (is_empty trades) (insert_trades trades) (λ db.
              let (n, e) = works.takes_trades trades db in
              (n, ap (λ o. ok_or o database_failed) e)))
            (λ _. unless-Succeeds (is_empty messages) (insert_orderbook_messages messages) (λ db.
              let (n, e) = works.takes_messages messages db in
              (n, ap (λ o. ok_or o database_failed) e))))

  flush_total : (writer : Writer) → (flush writer).0 ≡ ok tt
  unfolding flush
  flush_total writer = elim (Bool-cases (is_empty writer.batch)) [
    | inl e ↦ rw e refl
    | inr e ↦
        rw e
          (write_rows-Succeeds (trade_rows writer.batch) (orderbook_rows writer.batch) writer.db).1
  ]

  push_total : (msg : WriteMsg) (writer : Writer) → (push msg writer).0 ≡ ok tt
  unfolding push
  push_total msg writer =
      let pushed : Writer = record writer { batch = writer.batch ++ msg ∷ [] } in
      elim (Bool-cases (leb batch_capacity (length pushed.batch))) [
        | inl e ↦ rw e (flush_total pushed)
        | inr e ↦ rw e refl
      ]

module _ ⦃d : Decimals⦄ ⦃c : Chrono⦄ ⦃s : Serde⦄ ⦃f : Floats⦄ ⦃b : Database⦄ (market_ids : List ℤ)
    (cache : IntMap ℤ) where
  -- Any number of steps.
  pub data Steps (p : Process) : Process → Type 0 where
    stay : Steps p p
    further : {q r : Process} → Steps p q → Step market_ids cache q r → Steps p r

  Reach-Steps :
      (start : b.Db) (p q : Process)
      → Reach market_ids cache start p
      → Steps p q
      → Reach market_ids cache start q
  Reach-Steps start p q reach stay = reach
  Reach-Steps start p q reach (further {q = middle} steps step) =
      later (Reach-Steps start p middle reach steps) step

module _ ⦃d : Decimals⦄ ⦃c : Chrono⦄ ⦃s : Serde⦄ ⦃f : Floats⦄ ⦃b : Database⦄ (works : Works)
    (market_ids : List ℤ) (cache : IntMap ℤ) where
  -- The process came from `p` by steps of the writer, which has received all that was sent.
  record Drained (p q : Process) : Type 0 where
    steps : Steps market_ids cache p q
    live : q.exited ≡ false
    same_session : q.session ≡ p.session
    all_taken : q.taken ≡ p.session.sent

  drain :
      (queue : List WriteMsg) (p q : Process)
      → Steps market_ids cache p q
      → q.exited ≡ false
      → q.session ≡ p.session
      → q.taken ++ queue ≡ p.session.sent
      → (r : Process) × Drained p r
  drain [] p q steps live same queued = (
    q,
    record {
      steps = steps;
      live = live;
      same_session = same;
      all_taken = sym (append-nil q.taken) ∙ queued;
    },
  )
  drain (msg ∷ queue) p q steps live same queued =
      drain queue p (wrote (record q { taken = q.taken ++ msg ∷ [] }) (push msg q.writer))
        (further steps (receive msg queue live (queued ∙ ap (λ (x : Session). x.sent) (sym same))))
        (ap (λ r. not (is_ok r)) (push_total works msg q.writer)) same
        (append_assoc q.taken (msg ∷ []) queue ∙ queued)

  -- The same, with the rows that `flush` takes from a list of messages.
  Reach-empties :
      (start : b.Db) (p : Process)
      → Reach market_ids cache start p
      → p.exited ≡ false
      → (q : Process) × Steps market_ids cache p q
        × (q.exited ≡ false)
        × (q.session ≡ p.session)
        × (b.trades q.writer.db ≡ insert_new_trades (b.trades start) (trade_rows p.session.sent))
        × (b.orderbook_messages q.writer.db
            ≡ b.orderbook_messages start ++ orderbook_rows p.session.sent)
  unfolding trade_rows orderbook_rows
  Reach-empties start p reach live =
      let h = Reach-Delivers cache market_ids start p reach in
      let (r, x) = drain h.queue p p stay live refl h.queued in
      let q = wrote r (flush r.writer) in
      let steps = further x.steps (tick x.live) in
      let q_live : q.exited ≡ false = ap (λ o. not (is_ok o)) (flush_total works r.writer) in
      let (queue, queued, _, trades, messages) =
        Reach-taken cache market_ids start q (Reach-Steps market_ids cache start p q reach steps)
          q_live in
      let none_queued : queue ≡ [] = append-cancel r.taken (
        queued
        ∙ ap (λ (y : Session). y.sent) x.same_session
        ∙ sym x.all_taken
        ∙ sym (append-nil r.taken)) in
      let none_left : q.writer.batch ++ queue ≡ [] =
        ap (λ l. l ++ queue) (flush-empties r.writer) ∙ none_queued in
      let sent : q.session.sent ≡ p.session.sent = ap (λ (y : Session). y.sent) x.same_session in
      (
        q,
        steps,
        q_live,
        x.same_session,
        Part-whole insert_new_trades (trade_rows q.session.sent) (b.trades start)
              (b.trades q.writer.db)
              (subst
                (λ l.
                  Part insert_new_trades (trade_rows q.session.sent) (trade_rows l) (b.trades start)
                    (b.trades q.writer.db))
                none_left trades)
            ∙ ap (λ l. insert_new_trades (b.trades start) (trade_rows l)) sent,
        Part-whole ◌++◌ (orderbook_rows q.session.sent) (b.orderbook_messages start)
              (b.orderbook_messages q.writer.db)
              (subst
                (λ l.
                  Part ◌++◌ (orderbook_rows q.session.sent) (orderbook_rows l)
                    (b.orderbook_messages start) (b.orderbook_messages q.writer.db))
                none_left messages)
            ∙ ap (λ l. b.orderbook_messages start ++ orderbook_rows l) sent,
      )

  -- If every statement on the database succeeds, then from any moment of a process that has not exited
  -- there are steps, in which the connections stay as they are, to one that has not exited either and at
  -- which the tables have taken all trades and order-book rows that the sent messages carry, in order.
  -- The table of trades skips a trade that it holds.
  pub Reach-drains :
      (start : b.Db) (p : Process)
      → Reach market_ids cache start p
      → p.exited ≡ false
      → (q : Process) × Steps market_ids cache p q
        × (q.exited ≡ false)
        × (q.session ≡ p.session)
        × ((ts : List TradeRow) × (ms : List OrderbookMessageRow) × Splits p.session.sent ts ms
            × (b.trades q.writer.db ≡ insert_new_trades (b.trades start) ts)
            × (b.orderbook_messages q.writer.db ≡ b.orderbook_messages start ++ ms))
  Reach-drains start p reach live =
      let (q, steps, q_live, same, trades, messages) = Reach-empties start p reach live in
      let sent = p.session.sent in
      (
        q,
        steps,
        q_live,
        same,
        (trade_rows sent, orderbook_rows sent, rows-Splits sent, trades, messages),
      )
