-- ===== src/Process/Restart.antt =====
-- src/main.rs: one process after the other on the same tables. A process may end at any moment, by
-- its writer or from outside, and the next one starts from the tables that it leaves; it also may fail
-- to start. No other program writes to these tables.
use lighter_timescaledb_inge.Base.{
  ◌≡◌, refl, sym, ap, subst, Option, none, List, [], Error, ok, err, Action, ◌>>=◌, ◌>>◌, pure,
  lift, ok_or, database_failed, Outcome-cases, Preserves, map, Preserves-bind, inl, inr,
}
use lighter_timescaledb_inge.Base.Int.{ℤ}
use lighter_timescaledb_inge.Base.IntMap.{IntMap}
use lighter_timescaledb_inge.Wire.Market.{OrderBooksResponse}
use lighter_timescaledb_inge.External.{Decimals, Chrono, Serde, Floats}
use lighter_timescaledb_inge.Symbols.{
  SymbolTable, sync_symbols, load_rows, load_symbol_cache, load_perp_markets, collect, perp_rows,
  sort_rows, perp_market,
}
use lighter_timescaledb_inge.Funding.Poll.{PerpMarket}
use lighter_timescaledb_inge.Symbols.Upsert.{IsKeyed}
use lighter_timescaledb_inge.Symbols.Sync.{sync_symbols_lem, sync_symbols-error}
use lighter_timescaledb_inge.Database.{Database}
use lighter_timescaledb_inge.Ws.Rows.{read_rows}
use lighter_timescaledb_inge.Ws.Chain.{IsChained, read_rows-IsChained}
use lighter_timescaledb_inge.Writer.Replay.{IsReadable, of_symbol}
use lighter_timescaledb_inge.Main.{Started, start, keys}
use lighter_timescaledb_inge.Main.Start.{start_lem}
use lighter_timescaledb_inge.Process.{Process, Reach}
use lighter_timescaledb_inge.Process.Safety.{Reach-IsReadable}

module _ ⦃t : SymbolTable⦄ where
  -- The keys of the table are unique.
  abbrev Keyed : t.Db → Type 0
  Keyed db = IsKeyed (t.symbols db)

  sync_symbols-Keyed : (reply : Option OrderBooksResponse) → Preserves Keyed (sync_symbols reply)
  sync_symbols-Keyed reply db h = elim (Outcome-cases (sync_symbols reply db)) [
    | inl (e, db', failed) ↦
        subst Keyed (sym (ap (λ x. x.1) failed))
          (subst IsKeyed (sym (sync_symbols-error reply e db db' failed)) h)
    | inr (_, db', done) ↦
        let (_, _, _, _, _, synced) = sync_symbols_lem reply db db' done in
        subst Keyed (sym (ap (λ x. x.1) done)) (synced.keyed h)
  ]

  load_rows-Keyed : Preserves Keyed load_rows
  load_rows-Keyed db h = subst IsKeyed (sym (t.load-symbols db)) h

  load_symbol_cache-Keyed : Preserves Keyed load_symbol_cache
  unfolding load_symbol_cache
  load_symbol_cache-Keyed =
      Preserves-bind Keyed load_rows (λ rows. pure (collect rows [])) load_rows-Keyed
        (λ rows db h. h)

  load_perp_markets-Keyed : Preserves Keyed load_perp_markets
  unfolding load_perp_markets
  load_perp_markets-Keyed =
      Preserves-bind Keyed load_rows (λ rows. pure (map perp_market (sort_rows (perp_rows rows))))
        load_rows-Keyed (λ rows db h. h)

  -- A start leaves the keys unique, also where it fails.
  start-Keyed :
      (connected : Option (Unit {0})) (reply : Option OrderBooksResponse)
      → Preserves Keyed (start connected reply)
  unfolding start
  start-Keyed connected reply =
      let pack : IntMap ℤ → List PerpMarket → Action t.Db Started = λ cache perps.
        pure (record { symbol_cache = cache; market_ids = keys cache; perp_markets = perps }) in
      let end : IntMap ℤ → Action t.Db Started = λ cache. load_perp_markets >>= pack cache in
      Preserves-bind Keyed (lift (ok_or connected database_failed))
        (λ _. sync_symbols reply >> (load_symbol_cache >>= end)) (λ db h. h)
        (λ _.
          Preserves-bind Keyed (sync_symbols reply) (λ _. load_symbol_cache >>= end)
            (sync_symbols-Keyed reply)
            (λ _. Preserves-bind Keyed load_symbol_cache end load_symbol_cache-Keyed (λ cache.
              Preserves-bind Keyed load_perp_markets (pack cache) load_perp_markets-Keyed
                (λ perps db h. h))))

module _ ⦃t : SymbolTable⦄ ⦃d : Decimals⦄ ⦃c : Chrono⦄ ⦃s : Serde⦄ ⦃f : Floats⦄ ⦃b : Database⦄ where
  -- What the tables may have come to, from empty ones.
  pub data History : t.Db → b.Db → Type 0 where
    created :
        (symbols : t.Db) (db : b.Db)
        → t.symbols symbols ≡ []
        → b.trades db ≡ []
        → b.orderbook_messages db ≡ []
        → History symbols db
    failed :
        (connected : Option (Unit {0})) (reply : Option OrderBooksResponse) (e : Error)
        {symbols symbols' : t.Db} {db : b.Db}
        → History symbols db
        → start connected reply symbols ≡ (err e, symbols')
        → History symbols' db
    ran :
        (connected : Option (Unit {0})) (reply : Option OrderBooksResponse) (started : Started)
        {symbols symbols' : t.Db} {db : b.Db} {p : Process}
        → History symbols db
        → start connected reply symbols ≡ (ok started, symbols')
        → Reach started.market_ids started.symbol_cache db p
        → History symbols' p.writer.db

  History-Keyed : (symbols : t.Db) (db : b.Db) → History symbols db → IsKeyed (t.symbols symbols)
  History-Keyed symbols db (created _ _ none_listed _ _) = subst IsKeyed (sym none_listed) tt
  History-Keyed symbols db (failed connected reply e {symbols = before} h run) =
      subst Keyed (ap (λ x. x.1) run)
        (start-Keyed connected reply before (History-Keyed before db h))
  History-Keyed symbols db
        (ran connected reply started {symbols = before} {db = start_db} h run r) =
      subst Keyed (ap (λ x. x.1) run)
        (start-Keyed connected reply before (History-Keyed before start_db h))

  -- Over any number of processes, each of which fails to start or ends at any moment, whatever their
  -- connections and flushes met, a reader of the stored order-book rows of any symbol, in the order of
  -- insertion, accepts every one of them: the first is a snapshot, and each delta continues the nonce of
  -- the row before it at no earlier time.
  pub History-IsReadable :
      (symbols : t.Db) (db : b.Db) (symbol : ℤ)
      → History symbols db
      → IsReadable (b.orderbook_messages db) symbol
  unfolding read_rows of_symbol
  History-IsReadable symbols db symbol (created _ _ _ _ no_rows) = rw no_rows (none, refl)
  History-IsReadable symbols db symbol (failed _ _ _ {symbols = before} h _) =
      History-IsReadable before db symbol h
  History-IsReadable symbols db symbol
        (ran connected reply started {symbols = before} {db = start_db} {p = p} h run r) =
      Reach-IsReadable started.symbol_cache
        (start_lem connected reply started before symbols (History-Keyed before start_db h) run).0
        started.market_ids start_db p symbol r (History-IsReadable before start_db symbol h)

  -- Over any number of processes, each of which fails to start or ends at any moment, whatever their
  -- connections and flushes met, each stored order-book row is a snapshot, or the row of its symbol that
  -- was stored before it has for its `sequence` what the row has for its `begin_nonce`, and is not later.
  pub History-IsChained :
      (symbols : t.Db) (db : b.Db) (symbol : ℤ)
      → History symbols db
      → IsChained none (of_symbol symbol (b.orderbook_messages db))
  History-IsChained symbols db symbol h =
      let (have, read) = History-IsReadable symbols db symbol h in
      read_rows-IsChained (of_symbol symbol (b.orderbook_messages db)) have read
