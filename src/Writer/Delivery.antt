-- ===== src/Writer/Delivery.antt =====
-- src/ws.rs: what the writer delivers, row by row and in order, but for the trades that the table holds.
use lighter_timescaledb_inge.Base.{
  subst, All, All-prefix, All-suffix, ◌<◌, true, arith, ◌≡◌, refl, sym, ap, ◌∙◌, List, [], ◌∷◌,
  ◌++◌, ◌>>=◌, Result, ok, err, length, is_empty, leb, Bool-cases, inl, inr,
}
use lighter_timescaledb_inge.External.{Chrono, Serde, Floats}
use lighter_timescaledb_inge.Models.{TradeRow, OrderbookMessageRow}
use lighter_timescaledb_inge.Ws.Session.{WriteMsg}
use lighter_timescaledb_inge.Base.Int.{==ℤ_refl}
use lighter_timescaledb_inge.Table.{conflicts, insert_new-All, insert_new-taken}
use lighter_timescaledb_inge.Table.Part.{Part, Part-whole}
use lighter_timescaledb_inge.Database.{Database, same_trade, insert_new_trades}
use lighter_timescaledb_inge.Writer.{
  WriterEvent, received, senders_dropped, flush_tick, trade_rows, orderbook_rows, Writer, flush,
  push, writer_task, batch_capacity,
}
use lighter_timescaledb_inge.Writer.Inserts.{messages_of}
use lighter_timescaledb_inge.Writer.Splits.{Splits, Splits-trade_rows}
use lighter_timescaledb_inge.Writer.Accounts.{writer_task-Accounts}

module _ {ℓ} {A : Type ℓ} where
  empty_nil : (xs : List A) → is_empty xs ≡ true → xs ≡ []
  empty_nil [] h = refl
  empty_nil (x ∷ xs) h = absurd (cc)

module _ ⦃c : Chrono⦄ ⦃s : Serde⦄ ⦃f : Floats⦄ ⦃b : Database⦄ where
  -- While the writer runs and no flush fails, the tables have taken all rows of its batch at the
  -- start and all that it received, in order, but for those that are in its batch now. The table of
  -- trades skips a trade that it holds.
  pub writer_task-stored :
      (events : List WriterEvent) (writer : Writer)
      → (writer_task events writer).0 ≡ ok tt
      → Part insert_new_trades
          (trade_rows (writer.batch ++ messages_of events))
          (trade_rows (writer_task events writer).1.batch)
          (b.trades writer.db)
          (b.trades (writer_task events writer).1.db)
        × Part ◌++◌
            (orderbook_rows (writer.batch ++ messages_of events))
            (orderbook_rows (writer_task events writer).1.batch)
            (b.orderbook_messages writer.db)
            (b.orderbook_messages (writer_task events writer).1.db)
  writer_task-stored events writer h =
      let x = writer_task-Accounts events writer in
      let (t, m) = x.pending h in
      let w = (writer_task events writer).1 in
      let all = writer.batch ++ messages_of events in
      (
        subst (λ l. Part insert_new_trades (trade_rows all) l (b.trades writer.db) (b.trades w.db))
            t x.trades,
        subst
            (λ l.
              Part ◌++◌ (orderbook_rows all) l (b.orderbook_messages writer.db)
                (b.orderbook_messages w.db))
            m x.messages,
      )

  -- Whatever the writer meets, and also where it exits, each table has taken the rows of its batch at
  -- the start and of all that it received, in order, up to some row.
  pub writer_task-prefix :
      (events : List WriterEvent) (writer : Writer)
      → ((left : List TradeRow) × Part insert_new_trades
            (trade_rows (writer.batch ++ messages_of events))
            left
            (b.trades writer.db)
            (b.trades (writer_task events writer).1.db))
        × ((left : List OrderbookMessageRow) × Part ◌++◌
              (orderbook_rows (writer.batch ++ messages_of events))
              left
              (b.orderbook_messages writer.db)
              (b.orderbook_messages (writer_task events writer).1.db))
  writer_task-prefix events writer =
      let x = writer_task-Accounts events writer in
      ((x.trades_left, x.trades), (x.messages_left, x.messages))

  pub flush-empties : (writer : Writer) → (flush writer).1.batch ≡ []
  unfolding flush
  flush-empties writer = elim (Bool-cases (is_empty writer.batch)) [
    | inl e ↦ rw e (empty_nil writer.batch e)
    | inr e ↦ rw e
  ]

  pub push-bound :
      (msg : WriteMsg) (writer : Writer) → length (push msg writer).1.batch < batch_capacity
  unfolding push
  push-bound msg writer =
      elim (Bool-cases (leb batch_capacity (length (writer.batch ++ msg ∷ [])))) [
        | inl e ↦
            rw (e, flush-empties (record writer { batch = writer.batch ++ msg ∷ [] })) (omega arith)
        | inr e ↦ rw e (ground arith)
      ]

  -- The batch is below its capacity after a step and whatever follows it.
  bind-bound :
      (r : Result (Unit {0}) × Writer) (rest : Writer → Result (Unit {0}) × Writer)
      → length r.1.batch < batch_capacity
      → ((middle : Writer)
          → length middle.batch < batch_capacity
          → length (rest middle).1.batch < batch_capacity)
      → length (((λ _. r) >>= λ _. rest) r.1).1.batch < batch_capacity
  bind-bound (ok _, writer) rest h k = k writer h
  bind-bound (err e, writer) rest h k = h

  -- A batch below its capacity stays below it between two rounds, whatever the writer meets.
  pub writer_task-bounded :
      (events : List WriterEvent) (writer : Writer)
      → length writer.batch < batch_capacity
      → length (writer_task events writer).1.batch < batch_capacity
  unfolding writer_task
  writer_task-bounded [] writer h = h
  writer_task-bounded (senders_dropped ∷ events) writer h = rw (flush-empties writer) (omega arith)
  writer_task-bounded (flush_tick ∷ events) writer h =
      bind-bound (flush writer) (writer_task events) (rw (flush-empties writer) (omega arith))
        (writer_task-bounded events)
  writer_task-bounded (received msg ∷ events) writer h =
      bind-bound (push msg writer) (writer_task events) (push-bound msg writer)
        (writer_task-bounded events)

  bind-empties :
      (r : Result (Unit {0}) × Writer) (rest : Writer → Result (Unit {0}) × Writer)
      → ((middle : Writer) → (rest middle).0 ≡ ok tt → (rest middle).1.batch ≡ [])
      → (((λ _. r) >>= λ _. rest) r.1).0 ≡ ok tt
      → (((λ _. r) >>= λ _. rest) r.1).1.batch ≡ []
  bind-empties (ok _, writer) rest k h = k writer h
  bind-empties (err e, writer) rest k h = absurd (cc)

  then_stops :
      (r : Result (Unit {0}) × Writer)
      → r.1.batch ≡ []
      → (((λ _. r) >>= λ _. writer_task []) r.1).1.batch ≡ []
  unfolding writer_task
  then_stops (ok _, writer) h = h
  then_stops (err e, writer) h = h

  flushed-empties :
      (events : List WriterEvent) (writer : Writer)
      → (writer_task (events ++ flush_tick ∷ []) writer).0 ≡ ok tt
      → (writer_task (events ++ flush_tick ∷ []) writer).1.batch ≡ []
  unfolding writer_task
  flushed-empties [] writer h = then_stops (flush writer) (flush-empties writer)
  flushed-empties (senders_dropped ∷ events) writer h = flush-empties writer
  flushed-empties (flush_tick ∷ events) writer h =
      bind-empties (flush writer) (writer_task (events ++ flush_tick ∷ [])) (flushed-empties events)
        h
  flushed-empties (received msg ∷ events) writer h =
      bind-empties (push msg writer) (writer_task (events ++ flush_tick ∷ []))
        (flushed-empties events) h

  messages_of-flushed :
      (events : List WriterEvent) → messages_of (events ++ flush_tick ∷ []) ≡ messages_of events
  messages_of-flushed [] = refl
  messages_of-flushed (received msg ∷ events) = ap (λ l. msg ∷ l) (messages_of-flushed events)
  messages_of-flushed (senders_dropped ∷ events) = refl
  messages_of-flushed (flush_tick ∷ events) = messages_of-flushed events

  -- After a last round that flushes, if no flush failed, the table of trades has taken the batch at
  -- the start and all that was received, in order, but for the trades that it holds.
  writer_task-flushed :
      (events : List WriterEvent) (writer : Writer)
      → (writer_task (events ++ flush_tick ∷ []) writer).0 ≡ ok tt
      → b.trades (writer_task (events ++ flush_tick ∷ []) writer).1.db
        ≡ insert_new_trades (b.trades writer.db) (trade_rows (writer.batch ++ messages_of events))
  unfolding trade_rows
  writer_task-flushed events writer h =
      let w = (writer_task (events ++ flush_tick ∷ []) writer).1 in
      let all = writer.batch ++ messages_of (events ++ flush_tick ∷ []) in
      let (t, _) = writer_task-stored (events ++ flush_tick ∷ []) writer h in
      Part-whole insert_new_trades (trade_rows all) (b.trades writer.db) (b.trades w.db) (
        subst
          (λ l.
            Part insert_new_trades (trade_rows all) (trade_rows l) (b.trades writer.db)
              (b.trades w.db))
          (flushed-empties events writer h) t)
      ∙ ap (λ l. insert_new_trades (b.trades writer.db) (trade_rows (writer.batch ++ l)))
          (messages_of-flushed events)

  same_trade_refl : (row : TradeRow) → same_trade row row ≡ true
  unfolding same_trade
  same_trade_refl row =
      rw (==ℤ_refl (c.nanos row.time), ==ℤ_refl row.symbol, ==ℤ_refl row.lighter_trade_id)

  -- Whatever the writer meets, a table of trades that holds all of the rows that it has for it stays
  -- as it is.
  writer_task-known :
      (events : List WriterEvent) (writer : Writer)
      → All
          (λ row. conflicts same_trade row (b.trades writer.db) ≡ true)
          (trade_rows (writer.batch ++ messages_of events))
      → b.trades (writer_task events writer).1.db ≡ b.trades writer.db
  writer_task-known events writer known =
      let ((left, part), _) = writer_task-prefix events writer in
      let IsKnown = λ (row : TradeRow). conflicts same_trade row (b.trades writer.db) ≡ true in
      part.there
      ∙ insert_new-taken same_trade (b.trades writer.db) part.done
          (All-prefix IsKnown part.done left (subst (All IsKnown) (sym part.split) known))

  -- If no flush failed up to a tick that flushes, the table of trades holds all trades that were in the
  -- batch or received until then. If the messages of the next rounds carry a part of these trades again,
  -- as a reconnect replays them, then these rounds leave the table as it is, whatever they meet and also
  -- where a flush fails.
  pub writer_task-replay :
      (events again : List WriterEvent) (writer : Writer) (before replayed behind : List TradeRow)
      (ms ms' : List OrderbookMessageRow)
      → (writer_task (events ++ flush_tick ∷ []) writer).0 ≡ ok tt
      → Splits (writer.batch ++ messages_of events) (before ++ (replayed ++ behind)) ms
      → Splits (messages_of again) replayed ms'
      → let w = (writer_task (events ++ flush_tick ∷ []) writer).1 in
        All
          (λ row. conflicts same_trade row (b.trades w.db) ≡ true)
          (before ++ (replayed ++ behind))
        × (b.trades (writer_task again w).1.db ≡ b.trades w.db)
  writer_task-replay events again writer before replayed behind ms ms' h first second =
      let w = (writer_task (events ++ flush_tick ∷ []) writer).1 in
      let all = before ++ (replayed ++ behind) in
      let IsKnown = λ (row : TradeRow). conflicts same_trade row (b.trades w.db) ≡ true in
      let taken : b.trades w.db ≡ insert_new_trades (b.trades writer.db) all =
        writer_task-flushed events writer h
        ∙ ap (insert_new_trades (b.trades writer.db))
            (Splits-trade_rows (writer.batch ++ messages_of events) all ms first) in
      let known : All IsKnown all =
        subst (λ table. All (λ row. conflicts same_trade row table ≡ true) all) (sym taken)
          (insert_new-All same_trade same_trade_refl (b.trades writer.db) all) in
      let rows : trade_rows (w.batch ++ messages_of again) ≡ replayed =
        ap (λ l. trade_rows (l ++ messages_of again)) (flushed-empties events writer h)
        ∙ Splits-trade_rows (messages_of again) replayed ms' second in
      (
        known,
        writer_task-known again w (
            subst (All IsKnown) (sym rows) (
              All-prefix IsKnown replayed behind
                (All-suffix IsKnown before (replayed ++ behind) known))),
      )
