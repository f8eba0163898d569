-- ===== src/Writer/Accounts.antt =====
-- The account of the writer: over any events, each row received is stored, or left behind an error, or
-- still in the batch.
use lighter_timescaledb_inge.Base.{
  ◌≡◌, refl, subst, sym, ap, ◌∙◌, List, [], ◌∷◌, ◌++◌, append-nil, ◌>>=◌, append_assoc, Result, ok,
  err, Error, length, is_empty, leb, Bool-cases, inl, inr,
}
use lighter_timescaledb_inge.External.{Chrono, Serde, Floats}
use lighter_timescaledb_inge.Models.{TradeRow, OrderbookMessageRow}
use lighter_timescaledb_inge.Ws.Session.{WriteMsg}
use lighter_timescaledb_inge.Table.{insert_new-append}
use lighter_timescaledb_inge.Table.Part.{Part, Part-none, Part-then, Part-more}
use lighter_timescaledb_inge.Database.{Database, same_trade, insert_new_trades}
use lighter_timescaledb_inge.Writer.{
  WriterEvent, received, senders_dropped, flush_tick, trade_rows, orderbook_rows, Writer, flush,
  push, writer_task, batch_capacity,
}
use lighter_timescaledb_inge.Writer.Inserts.{
  trade_rows-append, orderbook_rows-append, messages_of, no_trades, Wrote, write_rows-Wrote,
}

module _ ⦃c : Chrono⦄ ⦃s : Serde⦄ ⦃f : Floats⦄ ⦃b : Database⦄ where
  -- Of the messages `all`, the database has taken some rows and the rest is left: in the batch, if no
  -- error came up.
  pub record Accounts (all : List WriteMsg) (db : b.Db) (r : Result (Unit {0})) (writer : Writer)
      : Type 0 where
    pub trades_left : List TradeRow
    pub messages_left : List OrderbookMessageRow
    pub trades :
        Part insert_new_trades (trade_rows all) trades_left (b.trades db) (b.trades writer.db)
    pub messages :
        Part ◌++◌
          (orderbook_rows all)
          messages_left
          (b.orderbook_messages db)
          (b.orderbook_messages writer.db)
    pub pending :
        r ≡ ok tt
        → (trades_left ≡ trade_rows writer.batch) × (messages_left ≡ orderbook_rows writer.batch)

  pub start-Accounts : (writer : Writer) → Accounts writer.batch writer.db (ok tt) writer
  start-Accounts writer = record {
    trades_left = trade_rows writer.batch;
    messages_left = orderbook_rows writer.batch;
    trades =
        Part-none insert_new_trades no_trades (trade_rows writer.batch) (b.trades writer.db)
          (b.trades writer.db) refl;
    messages =
        Part-none ◌++◌ append-nil (orderbook_rows writer.batch) (b.orderbook_messages writer.db)
          (b.orderbook_messages writer.db) refl;
    pending = λ h. (refl, refl);
  }

  flushed :
      (batch : List WriteMsg) (db db' : b.Db) (r : Result (Unit {0}))
      → Wrote (trade_rows batch) (orderbook_rows batch) db r db'
      → Accounts batch db r (record { batch = []; db = db' })
  unfolding trade_rows orderbook_rows
  flushed batch db db' r w = record {
    trades_left = w.lost_trades;
    messages_left = w.lost_messages;
    trades = w.trades;
    messages = w.messages;
    pending = λ h. w.none_lost h;
  }

  pub flush-Accounts :
      (writer : Writer) → Accounts writer.batch writer.db (flush writer).0 (flush writer).1
  unfolding flush
  flush-Accounts writer = elim (Bool-cases (is_empty writer.batch)) [
    | inl e ↦ rw e (start-Accounts writer)
    | inr e ↦ rw e (
        flushed writer.batch writer.db _ _
          (write_rows-Wrote (trade_rows writer.batch) (orderbook_rows writer.batch) writer.db))
  ]

  pub push-Accounts :
      (msg : WriteMsg) (writer : Writer)
      → Accounts (writer.batch ++ msg ∷ []) writer.db (push msg writer).0 (push msg writer).1
  unfolding push
  push-Accounts msg writer =
      let pushed : Writer = record writer { batch = writer.batch ++ msg ∷ [] } in
      elim (Bool-cases (leb batch_capacity (length pushed.batch))) [
        | inl e ↦ rw e (flush-Accounts pushed)
        | inr e ↦ rw e (start-Accounts pushed)
      ]

  -- A step and then more.
  pub then-Accounts :
      (all more : List WriteMsg) (db : b.Db) (middle : Writer) (r : Result (Unit {0}))
      (writer : Writer)
      → Accounts all db (ok tt) middle
      → Accounts (middle.batch ++ more) middle.db r writer
      → Accounts (all ++ more) db r writer
  then-Accounts all more db middle r writer x y = record {
    trades_left = y.trades_left;
    messages_left = y.messages_left;
    trades = rw (trade_rows-append all more) (
        Part-then insert_new_trades (insert_new-append same_trade) (trade_rows all) x.trades_left
          (trade_rows more) y.trades_left (b.trades db) (b.trades middle.db) (b.trades writer.db)
          x.trades
          (subst
            (λ l. Part insert_new_trades l y.trades_left (b.trades middle.db) (b.trades writer.db))
            (trade_rows-append middle.batch more
              ∙ ap (λ l. l ++ trade_rows more) (sym (x.pending refl).0))
            y.trades));
    messages = rw (orderbook_rows-append all more) (
        Part-then ◌++◌ (λ t v w. sym (append_assoc t v w)) (orderbook_rows all) x.messages_left
          (orderbook_rows more) y.messages_left (b.orderbook_messages db)
          (b.orderbook_messages middle.db) (b.orderbook_messages writer.db) x.messages
          (subst
            (λ l.
              Part ◌++◌ l y.messages_left (b.orderbook_messages middle.db)
                (b.orderbook_messages writer.db))
            (orderbook_rows-append middle.batch more
              ∙ ap (λ l. l ++ orderbook_rows more) (sym (x.pending refl).1))
            y.messages));
    pending = y.pending;
  }

  -- An error, whatever was still to come.
  stop-Accounts :
      (all more : List WriteMsg) (db : b.Db) (e : Error) (writer : Writer)
      → Accounts all db (err e) writer
      → Accounts (all ++ more) db (err e) writer
  stop-Accounts all more db e writer x = record {
    trades_left = x.trades_left ++ trade_rows more;
    messages_left = x.messages_left ++ orderbook_rows more;
    trades = rw (trade_rows-append all more) (
        Part-more insert_new_trades (trade_rows all) x.trades_left (trade_rows more) (b.trades db)
          (b.trades writer.db) x.trades);
    messages = rw (orderbook_rows-append all more) (
        Part-more ◌++◌ (orderbook_rows all) x.messages_left (orderbook_rows more)
          (b.orderbook_messages db) (b.orderbook_messages writer.db) x.messages);
    pending = λ h. absurd (cc);
  }

  bind-Accounts :
      (all more : List WriteMsg) (db : b.Db) (r : Result (Unit {0}) × Writer)
      (rest : Writer → Result (Unit {0}) × Writer)
      → Accounts all db r.0 r.1
      → ((middle : Writer)
          → Accounts (middle.batch ++ more) middle.db (rest middle).0 (rest middle).1)
      → (let run : Result (Unit {0}) × Writer = ((λ _. r) >>= λ _. rest) r.1 in
          Accounts (all ++ more) db run.0 run.1)
  bind-Accounts all more db (ok _, middle) rest x y =
      then-Accounts all more db middle _ _ x (y middle)
  bind-Accounts all more db (err e, writer) rest x y = stop-Accounts all more db e writer x

  pub writer_task-Accounts :
      (events : List WriterEvent) (writer : Writer)
      → Accounts
          (writer.batch ++ messages_of events)
          writer.db
          (writer_task events writer).0
          (writer_task events writer).1
  unfolding writer_task
  writer_task-Accounts [] writer = rw (append-nil writer.batch) (start-Accounts writer)
  writer_task-Accounts (senders_dropped ∷ events) writer =
      rw (append-nil writer.batch) (flush-Accounts writer)
  writer_task-Accounts (flush_tick ∷ events) writer =
      bind-Accounts writer.batch (messages_of events) writer.db (flush writer) (writer_task events)
        (flush-Accounts writer) (writer_task-Accounts events)
  writer_task-Accounts (received msg ∷ events) writer =
      rw (sym (append_assoc writer.batch (msg ∷ []) (messages_of events))) (
        bind-Accounts (writer.batch ++ msg ∷ []) (messages_of events) writer.db (push msg writer)
          (writer_task events) (push-Accounts msg writer) (writer_task-Accounts events))
