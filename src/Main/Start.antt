-- ===== src/Main/Start.antt =====
-- src/main.rs: what a start that succeeds hands to the loops.
use lighter_timescaledb_inge.Base.{
  Bool, List, [], ◌++◌, ◌≡◌, sym, ap, ◌∙◌, subst, Option, some, All, All-imp, ok, Action, ◌>>=◌,
  ◌>>◌, pure, lift, >>=-eq-ok, ok_or, ok-injective, database_failed,
}
use lighter_timescaledb_inge.Base.Int.{ℤ}
use lighter_timescaledb_inge.Base.IntMap.{IntMap, lookup}
use lighter_timescaledb_inge.Wire.Market.{OrderBookInfo, OrderBooksResponse}
use lighter_timescaledb_inge.Symbols.{
  find_symbol, SymbolTable, sync_symbols, load_symbol_cache, load_perp_markets,
}
use lighter_timescaledb_inge.Symbols.Upsert.{IsKeyed, id_of}
use lighter_timescaledb_inge.Symbols.Sync.{sync_symbols_lem}
use lighter_timescaledb_inge.Symbols.Cache.{load_symbol_cache_lem, load_symbol_cache-IsInjective}
use lighter_timescaledb_inge.Ws.Stream.{IsInjective}
use lighter_timescaledb_inge.Main.{Started, start, keys}
use lighter_timescaledb_inge.External.{Decimals, Chrono, Serde, Floats}
use lighter_timescaledb_inge.Database.{Database}
use lighter_timescaledb_inge.Ws.Session.{Session, Event, WriteMsg, reconnect_loop}
use lighter_timescaledb_inge.Writer.{WriterEvent, writer_task}
use lighter_timescaledb_inge.Writer.Inserts.{messages_of}
use lighter_timescaledb_inge.Writer.Replay.{IsReadable, stored_rows-IsReadable}

module _ ⦃t : SymbolTable⦄ where
  -- If the keys of the table of symbols are unique, then after a start that succeeds no two markets
  -- have one symbol in the cache, every market of the reply has one, and every market that was in
  -- the table before has the symbol that it had.
  pub start_lem :
      (connected : Option (Unit {0})) (reply : Option OrderBooksResponse) (started : Started)
      (db db' : t.Db)
      → IsKeyed (t.symbols db)
      → start connected reply db ≡ (ok started, db')
      → IsInjective started.symbol_cache
        × ((resp : OrderBooksResponse) × (reply ≡ some resp)
            × All
                (λ (m : OrderBookInfo).
                  (i : ℤ) × (lookup m.market_id started.symbol_cache ≡ some i))
                resp.order_books)
        × ((market i : ℤ)
            → id_of (find_symbol market (t.symbols db)) ≡ some i
            → lookup market started.symbol_cache ≡ some i)
  unfolding start
  start_lem connected reply started db db' keyed h =
      let end : IntMap ℤ → Action t.Db Started = λ cache. load_perp_markets >>= λ perps.
      pure (record { symbol_cache = cache; market_ids = keys cache; perp_markets = perps }) in
      let (_, db1, connect_eq, h1) =
        >>=-eq-ok (lift (ok_or connected database_failed))
          (λ _. sync_symbols reply >> (load_symbol_cache >>= end)) db h in
      let (_, db2, sync_eq, h2) =
        >>=-eq-ok (sync_symbols reply) (λ _. load_symbol_cache >>= end) db1 h1 in
      let (cache, db3, cache_eq, h3) = >>=-eq-ok load_symbol_cache end db2 h2 in
      let (perps, db4, _, end_eq) =
        >>=-eq-ok load_perp_markets
          (λ perps.
            pure (record { symbol_cache = cache; market_ids = keys cache; perp_markets = perps }))
          db3 h3 in
      let same : t.symbols db1 ≡ t.symbols db = ap t.symbols (sym (ap (λ x. x.1) connect_eq)) in
      let (resp, reply_eq, _, _, _, synced) = sync_symbols_lem reply db1 db2 sync_eq in
      let keyed2 = synced.keyed (subst IsKeyed (sym same) keyed) in
      let at = load_symbol_cache_lem cache db2 db3 keyed2 cache_eq in
      let started_eq : cache ≡ started.symbol_cache =
        ap (λ x. x.symbol_cache)
          (ok-injective
            (record { symbol_cache = cache; market_ids = keys cache; perp_markets = perps }) started
            (ap (λ x. x.0) end_eq)) in
      (
        subst IsInjective started_eq (load_symbol_cache-IsInjective cache db2 db3 keyed2 cache_eq),
        (
          resp,
          reply_eq,
          All-imp
              (λ (m : OrderBookInfo) found.
                (found.0, sym (ap (lookup m.market_id) started_eq) ∙ at m.market_id ∙ found.1))
              resp.order_books synced.covered,
        ),
        λ market i known.
            sym (ap (lookup market) started_eq)
            ∙ at market
            ∙ synced.kept market i (ap (λ l. id_of (find_symbol market l)) same ∙ known),
      )

module _ ⦃t : SymbolTable⦄ ⦃d : Decimals⦄ ⦃c : Chrono⦄ ⦃s : Serde⦄ ⦃f : Floats⦄ ⦃b : Database⦄ where
  -- If the keys of the table of symbols are unique and a reader accepts every row of a symbol that the
  -- table of order-book messages holds, then after a start that succeeds, over any number of connections
  -- of this process, whatever each of them meets, and whatever the writer meets while it receives any
  -- first part of the rows that were sent, a reader of the stored rows of the symbol accepts every one of
  -- them.
  pub started_rows-IsReadable :
      (connected : Option (Unit {0})) (reply : Option OrderBooksResponse) (started : Started)
      (symbols symbols' : t.Db) (connections : List (Bool × List Event)) (session : Session)
      (symbol : ℤ) (events : List WriterEvent) (rest : List WriteMsg) (db : b.Db)
      → IsKeyed (t.symbols symbols)
      → start connected reply symbols ≡ (ok started, symbols')
      → session.sent ≡ []
      → messages_of events ++ rest
        ≡ (reconnect_loop started.market_ids started.symbol_cache connections session).sent
      → IsReadable (b.orderbook_messages db) symbol
      → IsReadable
          (b.orderbook_messages (writer_task events (record { batch = []; db = db })).1.db)
          symbol
  started_rows-IsReadable connected reply started symbols symbols' connections session symbol events
        rest db keyed starts =
      stored_rows-IsReadable started.symbol_cache
        (start_lem connected reply started symbols symbols' keyed starts).0 started.market_ids
        connections session symbol events rest db
