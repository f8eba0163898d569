-- ===== src/Writer/Inserts.antt =====
-- What `flush` leaves in the tables: all of its rows, or some of the trades and none of the messages
-- behind an error.
use lighter_timescaledb_inge.Base.{
  ◌≡◌, refl, sym, ap, ◌∙◌, ℕ, false, none, some, List, [], ◌∷◌, ◌++◌, ◌>>=◌, append_assoc, subst,
  append-nil, Result, ok, err, Error, is_empty, database_failed, ok_or, Option,
}
use lighter_timescaledb_inge.External.{Chrono, Serde, Floats}
use lighter_timescaledb_inge.Models.{TradeRow, OrderbookMessageRow}
use lighter_timescaledb_inge.Ws.Session.{WriteMsg, trade, orderbook}
use lighter_timescaledb_inge.Table.{insert_new, insert_new-append}
use lighter_timescaledb_inge.Table.Part.{Part, Part-none, Part-all, Part-then, Part-more, Part-from}
use lighter_timescaledb_inge.Database.{
  same_trade, insert_new_trades, Database, insert_trades, insert_orderbook_messages,
}
use lighter_timescaledb_inge.Writer.{
  WriterEvent, received, senders_dropped, flush_tick, trade_rows, orderbook_rows, write_rows,
  unless,
}

module _ ⦃c : Chrono⦄ ⦃s : Serde⦄ ⦃f : Floats⦄ where
  pub trade_rows-append :
      (xs ys : List WriteMsg) → trade_rows (xs ++ ys) ≡ trade_rows xs ++ trade_rows ys
  unfolding trade_rows
  trade_rows-append [] ys = refl
  trade_rows-append (trade r ∷ xs) ys = ap (λ l. r ∷ l) (trade_rows-append xs ys)
  trade_rows-append (orderbook r ∷ xs) ys = trade_rows-append xs ys

  pub orderbook_rows-append :
      (xs ys : List WriteMsg) → orderbook_rows (xs ++ ys) ≡ orderbook_rows xs ++ orderbook_rows ys
  unfolding orderbook_rows
  orderbook_rows-append [] ys = refl
  orderbook_rows-append (trade r ∷ xs) ys = orderbook_rows-append xs ys
  orderbook_rows-append (orderbook r ∷ xs) ys = ap (λ l. r ∷ l) (orderbook_rows-append xs ys)

  -- The messages received until the channel closes.
  abbrev pub messages_of : List WriterEvent → List WriteMsg
  messages_of [] = []
  messages_of (received msg ∷ events) = msg ∷ messages_of events
  messages_of (senders_dropped ∷ events) = []
  messages_of (flush_tick ∷ events) = messages_of events

module _ ⦃c : Chrono⦄ ⦃s : Serde⦄ ⦃f : Floats⦄ ⦃b : Database⦄ where
  -- How much of some rows of either kind the database has taken: all of them, or an error leaves
  -- a part of them behind.
  pub record Wrote (ts : List TradeRow) (ms : List OrderbookMessageRow) (db : b.Db)
      (r : Result (Unit {0})) (db' : b.Db) : Type 0 where
    pub lost_trades : List TradeRow
    pub lost_messages : List OrderbookMessageRow
    pub trades : Part insert_new_trades ts lost_trades (b.trades db) (b.trades db')
    pub messages : Part ◌++◌ ms lost_messages (b.orderbook_messages db) (b.orderbook_messages db')
    pub none_lost : r ≡ ok tt → (lost_trades ≡ []) × (lost_messages ≡ [])

  pub no_trades : (table : List TradeRow) → insert_new_trades table [] ≡ table
  unfolding insert_new
  no_trades table = refl

  -- Nothing is written.
  unwritten :
      (ts : List TradeRow) (ms : List OrderbookMessageRow) (e : Error) (db db' : b.Db)
      → b.trades db' ≡ b.trades db
      → b.orderbook_messages db' ≡ b.orderbook_messages db
      → Wrote ts ms db (err e) db'
  unwritten ts ms e db db' ht hm = record {
    lost_trades = ts;
    lost_messages = ms;
    trades = Part-none insert_new_trades no_trades ts (b.trades db) (b.trades db') ht;
    messages = Part-none ◌++◌ append-nil ms (b.orderbook_messages db) (b.orderbook_messages db') hm;
    none_lost = λ h. absurd (cc);
  }

  -- All is written.
  written :
      (ts : List TradeRow) (ms : List OrderbookMessageRow) (db db' : b.Db)
      → b.trades db' ≡ insert_new_trades (b.trades db) ts
      → b.orderbook_messages db' ≡ b.orderbook_messages db ++ ms
      → Wrote ts ms db (ok tt) db'
  written ts ms db db' ht hm = record {
    lost_trades = [];
    lost_messages = [];
    trades = Part-all insert_new_trades no_trades ts (b.trades db) (b.trades db') ht;
    messages = Part-all ◌++◌ append-nil ms (b.orderbook_messages db) (b.orderbook_messages db') hm;
    none_lost = λ h. (refl, refl);
  }

  insert_trades-Wrote :
      (ts : List TradeRow) (db : b.Db)
      → Wrote ts [] db
          (unless (is_empty ts) (insert_trades ts) db).0
          (unless (is_empty ts) (insert_trades ts) db).1
  unfolding insert_trades
  insert_trades-Wrote [] db =
      written [] [] db db (sym (no_trades (b.trades db)))
        (sym (append-nil (b.orderbook_messages db)))
  insert_trades-Wrote (t ∷ ts) db = run (b.execute_trades (t ∷ ts) db) refl
    where
      run :
          (r : Option ℕ × b.Db)
          → b.execute_trades (t ∷ ts) db ≡ r
          → Wrote
              (t ∷ ts)
              []
              db
              (unless false (λ db'. (ok_or r.0 database_failed, r.1)) db).0
              (unless false (λ db'. (ok_or r.0 database_failed, r.1)) db).1
      run (none, db') h =
          let l = b.trades_failed (t ∷ ts) db db' h in
          unwritten (t ∷ ts) [] database_failed db db' l.0 l.1
      run (some n, db') h =
          let l = b.trades_inserted (t ∷ ts) db db' n h in
          written (t ∷ ts) [] db db' l.0 (l.1 ∙ sym (append-nil (b.orderbook_messages db)))

  insert_messages-Wrote :
      (ms : List OrderbookMessageRow) (db : b.Db)
      → Wrote [] ms db
          (unless (is_empty ms) (insert_orderbook_messages ms) db).0
          (unless (is_empty ms) (insert_orderbook_messages ms) db).1
  unfolding insert_orderbook_messages
  insert_messages-Wrote [] db =
      written [] [] db db (sym (no_trades (b.trades db)))
        (sym (append-nil (b.orderbook_messages db)))
  insert_messages-Wrote (m ∷ ms) db = run (b.execute_orderbook_messages (m ∷ ms) db) refl
    where
      run :
          (r : Option ℕ × b.Db)
          → b.execute_orderbook_messages (m ∷ ms) db ≡ r
          → Wrote []
              (m ∷ ms)
              db
              (unless false (λ db'. (ok_or r.0 database_failed, r.1)) db).0
              (unless false (λ db'. (ok_or r.0 database_failed, r.1)) db).1
      run (none, db') h =
          let l = b.messages_failed (m ∷ ms) db db' h in
          unwritten [] (m ∷ ms) database_failed db db' l.0 l.1
      run (some n, db') h =
          let l = b.messages_inserted (m ∷ ms) db db' n h in
          written [] (m ∷ ms) db db' (l.0 ∙ sym (no_trades (b.trades db))) l.1

  -- First the trades and then the messages.
  both :
      (ts : List TradeRow) (ms : List OrderbookMessageRow) (db db' db'' : b.Db)
      (r : Result (Unit {0}))
      → Wrote ts [] db (ok tt) db'
      → Wrote [] ms db' r db''
      → Wrote ts ms db r db''
  both ts ms db db' db'' r first second = record {
    lost_trades = second.lost_trades;
    lost_messages = second.lost_messages;
    trades =
        subst (λ l. Part insert_new_trades l second.lost_trades (b.trades db) (b.trades db''))
          (append-nil ts)
          (Part-then insert_new_trades (insert_new-append same_trade) ts [] [] second.lost_trades
            (b.trades db) (b.trades db') (b.trades db'')
            (subst (λ l. Part insert_new_trades ts l (b.trades db) (b.trades db'))
              (first.none_lost refl).0 first.trades)
            second.trades);
    messages =
        Part-then ◌++◌ (λ t x y. sym (append_assoc t x y)) [] [] ms second.lost_messages
          (b.orderbook_messages db) (b.orderbook_messages db') (b.orderbook_messages db'')
          (subst (λ l. Part ◌++◌ [] l (b.orderbook_messages db) (b.orderbook_messages db'))
            (first.none_lost refl).1 first.messages)
          second.messages;
    none_lost = second.none_lost;
  }

  stopped :
      (ts : List TradeRow) (ms : List OrderbookMessageRow) (db db' : b.Db) (e : Error)
      → Wrote ts [] db (err e) db'
      → Wrote ts ms db (err e) db'
  stopped ts ms db db' e first = record {
    lost_trades = first.lost_trades;
    lost_messages = first.lost_messages ++ ms;
    trades = first.trades;
    messages =
        Part-more ◌++◌ [] first.lost_messages ms (b.orderbook_messages db)
          (b.orderbook_messages db') first.messages;
    none_lost = λ h. absurd (cc);
  }

  inserts-Wrote :
      (ts : List TradeRow) (ms : List OrderbookMessageRow) (db : b.Db)
      (r : Result (Unit {0}) × b.Db)
      → Wrote ts [] db r.0 r.1
      → Wrote ts ms db
          (((λ _. r) >>= λ _. unless (is_empty ms) (insert_orderbook_messages ms)) db).0
          (((λ _. r) >>= λ _. unless (is_empty ms) (insert_orderbook_messages ms)) db).1
  inserts-Wrote ts ms db (ok _, db') first =
      both ts ms db db' _ _ first (insert_messages-Wrote ms db')
  inserts-Wrote ts ms db (err e, db') first = stopped ts ms db db' e first

  from_same :
      (ts : List TradeRow) (ms : List OrderbookMessageRow) (db db' db'' : b.Db)
      (r : Result (Unit {0}))
      → b.trades db' ≡ b.trades db
      → b.orderbook_messages db' ≡ b.orderbook_messages db
      → Wrote ts ms db' r db''
      → Wrote ts ms db r db''
  from_same ts ms db db' db'' r ht hm w = record {
    lost_trades = w.lost_trades;
    lost_messages = w.lost_messages;
    trades =
        Part-from insert_new_trades ts w.lost_trades (b.trades db) (b.trades db') (b.trades db'') ht
          w.trades;
    messages =
        Part-from ◌++◌ ms w.lost_messages (b.orderbook_messages db) (b.orderbook_messages db')
          (b.orderbook_messages db'') hm w.messages;
    none_lost = w.none_lost;
  }

  pub write_rows-Wrote :
      (ts : List TradeRow) (ms : List OrderbookMessageRow) (db : b.Db)
      → Wrote ts ms db (write_rows ts ms db).0 (write_rows ts ms db).1
  unfolding write_rows
  write_rows-Wrote ts ms db = connected (b.get db) refl
    where
      connected :
          (r : Option (Unit {0}) × b.Db)
          → b.get db ≡ r
          → (let run : Result (Unit {0}) × b.Db =
                ((λ _. (ok_or r.0 database_failed, r.1)) >>= λ _.
                unless (is_empty ts) (insert_trades ts) >>= λ _.
                unless (is_empty ms) (insert_orderbook_messages ms))
                  db in
              Wrote ts ms db run.0 run.1)
      connected (none, db') h =
          unwritten ts ms database_failed db db' (sym (ap (λ x. b.trades x.1) h) ∙ b.get-trades db)
            (sym (ap (λ x. b.orderbook_messages x.1) h) ∙ b.get-messages db)
      connected (some _, db') h =
          from_same ts ms db db' _ _ (sym (ap (λ x. b.trades x.1) h) ∙ b.get-trades db)
            (sym (ap (λ x. b.orderbook_messages x.1) h) ∙ b.get-messages db)
            (inserts-Wrote ts ms db' (unless (is_empty ts) (insert_trades ts) db')
              (insert_trades-Wrote ts db'))
