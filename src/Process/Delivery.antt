-- ===== src/Process/Delivery.antt =====
-- src/main.rs and src/ws.rs: at any moment of a process, the writer has received a first part of what
-- was sent, and what it has received is stored, or behind an error, or in its batch.
use lighter_timescaledb_inge.Base.{
  ◌≡◌, refl, sym, ap, ◌∙◌, subst, false, not, List, [], ◌∷◌, ◌++◌, append_assoc, append-nil, Result,
  ok, err, length, ◌<◌, arith, All, All-append,
}
use lighter_timescaledb_inge.Base.Int.{ℤ}
use lighter_timescaledb_inge.Base.IntMap.{IntMap}
use lighter_timescaledb_inge.External.{Decimals, Chrono, Serde, Floats}
use lighter_timescaledb_inge.Ws.Session.{WriteMsg, Session, handle_event, run_ws_ingestion}
use lighter_timescaledb_inge.Ws.Shape.{IsShaped, Sends}
use lighter_timescaledb_inge.Ws.Sends.{handle_event-Sends, run_ws_ingestion-Sends}
use lighter_timescaledb_inge.Database.{Database}
use lighter_timescaledb_inge.Writer.{Writer, push, flush, batch_capacity}
use lighter_timescaledb_inge.Writer.Accounts.{
  Accounts, start-Accounts, push-Accounts, flush-Accounts, then-Accounts,
}
use lighter_timescaledb_inge.Process.{
  Process, is_ok, booted, served, wrote, Step, connection, event, receive, tick, Reach, boot, later,
}
use lighter_timescaledb_inge.Table.Part.{Part, Part-more}
use lighter_timescaledb_inge.Database.{insert_new_trades}
use lighter_timescaledb_inge.Writer.{trade_rows, orderbook_rows}
use lighter_timescaledb_inge.Writer.Inserts.{trade_rows-append, orderbook_rows-append}
use lighter_timescaledb_inge.Writer.Splits.{Splits, rows-Splits}
use lighter_timescaledb_inge.Models.{TradeRow, OrderbookMessageRow}
use lighter_timescaledb_inge.Writer.Delivery.{push-bound, flush-empties}

module _ {ℓ κ} {M : Type ℓ} {A : Type κ} (rows : List M → List A)
    (rows-append : (xs ys : List M) → rows (xs ++ ys) ≡ rows xs ++ rows ys)
    (put : List A → List A → List A) where
  -- What a table has taken of what was sent, if it has taken what was received but for a batch.
  queued_Part :
      (taken queue sent batch : List M) (old now left : List A)
      → taken ++ queue ≡ sent
      → left ≡ rows batch
      → Part put (rows taken) left old now
      → Part put (rows sent) (rows (batch ++ queue)) old now
  queued_Part taken queue sent batch old now left queued pending part =
      subst (λ l. Part put l (rows (batch ++ queue)) old now)
        (sym (rows-append taken queue) ∙ ap rows queued)
        (subst (λ l. Part put (rows taken ++ rows queue) l old now)
          (ap (λ l. l ++ rows queue) pending ∙ sym (rows-append batch queue))
          (Part-more put (rows taken) left (rows queue) old now part))

module _ ⦃d : Decimals⦄ ⦃c : Chrono⦄ ⦃s : Serde⦄ ⦃f : Floats⦄ ⦃b : Database⦄ (cache : IntMap ℤ)
    (start : b.Db) where
  -- What was sent has its shape, `queue` is in the channel, and the writer has an account of what it has
  -- received.
  pub record Delivers (p : Process) : Type 0 where
    pub shaped : All (IsShaped cache) p.session.sent
    pub queue : List WriteMsg
    pub queued : p.taken ++ queue ≡ p.session.sent
    pub result : Result (Unit {0})
    pub running : p.exited ≡ false → result ≡ ok tt
    pub stored : Accounts p.taken start result p.writer
    pub bounded : length p.writer.batch < batch_capacity

  booted-Delivers : Delivers (booted start)
  booted-Delivers = record {
    shaped = tt;
    queue = [];
    queued = refl;
    result = ok tt;
    running = λ _. refl;
    stored = start-Accounts (booted start).writer;
    bounded = omega arith;
  }

  -- A round of the connection.
  served-Delivers :
      (p : Process) (r : Result (Unit {0}) × Session)
      → Delivers p
      → Sends cache p.session.sent r
      → Delivers (served p r)
  served-Delivers p r h (more, grown, shaped) = record {
    shaped = rw grown (All-append (IsShaped cache) p.session.sent more h.shaped shaped);
    queue = h.queue ++ more;
    queued = sym (append_assoc p.taken h.queue more) ∙ ap (λ l. l ++ more) h.queued ∙ sym grown;
    result = h.result;
    running = h.running;
    stored = h.stored;
    bounded = h.bounded;
  }

  not_exited : (r : Result (Unit {0})) → not (is_ok r) ≡ false → r ≡ ok tt
  not_exited (ok _) e = refl
  not_exited (err x) e = absurd (cc)

  -- A round of the writer, which takes `more` from the channel.
  wrote-Delivers :
      (p : Process) (more queue : List WriteMsg) (r : Result (Unit {0}) × Writer)
      → Delivers p
      → p.exited ≡ false
      → p.taken ++ more ++ queue ≡ p.session.sent
      → Accounts (p.writer.batch ++ more) p.writer.db r.0 r.1
      → length r.1.batch < batch_capacity
      → Delivers (wrote (record p { taken = p.taken ++ more }) r)
  wrote-Delivers p more queue (result, writer) h running queued accounts bounded = record {
    shaped = h.shaped;
    queue = queue;
    queued = queued;
    result = result;
    running = not_exited result;
    stored =
        then-Accounts p.taken more start p.writer result writer
          (subst (λ r. Accounts p.taken start r p.writer) (h.running running) h.stored) accounts;
    bounded = bounded;
  }

module _ ⦃d : Decimals⦄ ⦃c : Chrono⦄ ⦃s : Serde⦄ ⦃f : Floats⦄ ⦃b : Database⦄ (cache : IntMap ℤ)
    (market_ids : List ℤ) (start : b.Db) where
  Step-Delivers :
      (p q : Process) → Step market_ids cache p q → Delivers cache start p → Delivers cache start q
  Step-Delivers p q (connection connected live down) h =
      served-Delivers cache start p (run_ws_ingestion market_ids cache connected [] p.session) h
        (run_ws_ingestion-Sends cache market_ids connected [] p.session)
  Step-Delivers p q (event e live up) h =
      served-Delivers cache start p (handle_event market_ids cache e p.session) h
        (handle_event-Sends cache market_ids e p.session)
  Step-Delivers p q (receive msg rest live queued) h =
      wrote-Delivers cache start p (msg ∷ []) rest (push msg p.writer) h live
        (append_assoc p.taken (msg ∷ []) rest ∙ queued) (push-Accounts msg p.writer)
        (push-bound msg p.writer)
  Step-Delivers p q (tick live) h =
      subst (λ l. Delivers cache start (wrote (record p { taken = l }) (flush p.writer)))
        (append-nil p.taken)
        (wrote-Delivers cache start p [] h.queue (flush p.writer) h live
          (rw (append-nil p.taken) h.queued)
          (rw (append-nil p.writer.batch) (flush-Accounts p.writer))
          (rw (flush-empties p.writer) (omega arith)))

  pub Reach-Delivers : (p : Process) → Reach market_ids cache start p → Delivers cache start p
  Reach-Delivers p boot = booted-Delivers cache start
  Reach-Delivers p (later {p = p'} reach step) = Step-Delivers p' p step (Reach-Delivers p' reach)

  -- The same, with the rows that `flush` takes from a list of messages.
  pub Reach-taken :
      (p : Process)
      → Reach market_ids cache start p
      → p.exited ≡ false
      → (queue : List WriteMsg) × (p.taken ++ queue ≡ p.session.sent)
        × (length p.writer.batch < batch_capacity)
        × Part insert_new_trades
            (trade_rows p.session.sent)
            (trade_rows (p.writer.batch ++ queue))
            (b.trades start)
            (b.trades p.writer.db)
        × Part ◌++◌
            (orderbook_rows p.session.sent)
            (orderbook_rows (p.writer.batch ++ queue))
            (b.orderbook_messages start)
            (b.orderbook_messages p.writer.db)
  Reach-taken p reach live =
      let h = Reach-Delivers p reach in
      let (t, m) = h.stored.pending (h.running live) in
      (
        h.queue,
        h.queued,
        h.bounded,
        queued_Part trade_rows trade_rows-append insert_new_trades p.taken h.queue p.session.sent
            p.writer.batch (b.trades start) (b.trades p.writer.db) h.stored.trades_left h.queued t
            h.stored.trades,
        queued_Part orderbook_rows orderbook_rows-append ◌++◌ p.taken h.queue p.session.sent
            p.writer.batch (b.orderbook_messages start) (b.orderbook_messages p.writer.db)
            h.stored.messages_left h.queued m h.stored.messages,
      )

  -- At any moment of a process that has not exited, whatever its connections and its flushes met and
  -- in whatever order, nothing that was sent is lost: of the trades and the order-book rows that the
  -- sent messages carry, in order, each table has taken all but those that the messages in the batch of
  -- the writer, which are fewer than 128, and in the channel carry. The table of trades skips a trade
  -- that it holds.
  pub Reach-stored :
      (p : Process)
      → Reach market_ids cache start p
      → p.exited ≡ false
      → (queue : List WriteMsg) × (p.taken ++ queue ≡ p.session.sent)
        × (length p.writer.batch < batch_capacity)
        × ((ts : List TradeRow) × (ms : List OrderbookMessageRow) × (left_ts : List TradeRow)
            × (left_ms : List OrderbookMessageRow) × Splits p.session.sent ts ms
            × Splits (p.writer.batch ++ queue) left_ts left_ms
            × Part insert_new_trades ts left_ts (b.trades start) (b.trades p.writer.db)
            × Part ◌++◌ ms left_ms (b.orderbook_messages start) (b.orderbook_messages p.writer.db))
  Reach-stored p reach live =
      let (queue, queued, bounded, trades, messages) = Reach-taken p reach live in
      let sent = p.session.sent in
      let left = p.writer.batch ++ queue in
      (
        queue,
        queued,
        bounded,
        (
          trade_rows sent,
          orderbook_rows sent,
          trade_rows left,
          orderbook_rows left,
          rows-Splits sent,
          rows-Splits left,
          trades,
          messages,
        ),
      )
