-- ===== src/Main/Untouched.antt =====
-- src/main.rs: what a run of the program leaves as it is.
use lighter_timescaledb_inge.Base.{
  ◌≡◌, refl, Option, none, some, Result, ok, err, Action, ◌>>=◌, pure, lift, ok_or, no_database_url,
  Text,
}
use lighter_timescaledb_inge.External.{Chrono, Serde, Floats}
use lighter_timescaledb_inge.Symbols.{SymbolTable}
use lighter_timescaledb_inge.Export.Files.{Parquet}
use lighter_timescaledb_inge.Export.{export_parquet}
use lighter_timescaledb_inge.Main.{
  ExportCommand, IngestorConfig, Settings, settings, export_args,
  establish_postgres_connection_pool, Started, start, Surroundings, Outcome, exported, ingesting,
  World, on_db, run_command, main,
}

module _ ⦃c : Chrono⦄ ⦃s : Serde⦄ ⦃f : Floats⦄ ⦃t : SymbolTable⦄ ⦃p : Parquet⦄ where
  run_command-db :
      (env : Surroundings) (args : IngestorConfig) (url : Text) (command : ExportCommand)
      (world : World)
      → (run_command env args url (some command) world).1.db ≡ world.db
  unfolding run_command
  run_command-db env args url command world =
      by_result (export_parquet (env.client url) (export_args command) world.fs)
    where
      by_result :
          (r : Result (Unit {0}) × p.Fs)
          → (let run : Result Outcome × World =
                ((λ (w : World). (r.0, record world { fs = r.1 })) >>= λ _. pure exported) world in
              run.1.db ≡ world.db)
      by_result (ok _, fs) = refl
      by_result (err e, fs) = refl

  run_command-fs :
      (env : Surroundings) (args : IngestorConfig) (url : Text) (world : World)
      → (run_command env args url none world).1.fs ≡ world.fs
  unfolding run_command
  run_command-fs env args url world = by_settings (settings args)
    where
      starting : Action t.Db Started
      starting = start (env.establish_connection url) (env.fetch_order_books args.api_url)

      by_pool :
          (config : Settings) (started : Started) (world' : World) (r : Result (Unit {0}))
          → world'.fs ≡ world.fs
          → (let run : Result Outcome × World =
                (lift r >>= λ _. pure (ingesting config started)) world' in
              run.1.fs ≡ world.fs)
      by_pool config started world' (ok x) h = h
      by_pool config started world' (err e) h = h

      by_start :
          (config : Settings) (r : Result Started × t.Db)
          → (let run : Result Outcome × World =
                ((λ (w : World). (r.0, record world { db = r.1 })) >>= λ started.
                lift (establish_postgres_connection_pool env url) >>= λ _.
                pure (ingesting config started))
                  world in
              run.1.fs ≡ world.fs)
      by_start config (ok started, db) =
          by_pool config started (record world { db = db })
            (establish_postgres_connection_pool env url) refl
      by_start config (err e, db) = refl

      by_settings :
          (r : Result Settings)
          → (let run : Result Outcome × World =
                (lift r >>= λ config. on_db starting >>= λ started.
                lift (establish_postgres_connection_pool env url) >>= λ _.
                pure (ingesting config started))
                  world in
              run.1.fs ≡ world.fs)
      by_settings (ok config) = by_start config (starting world.db)
      by_settings (err e) = refl

  -- With a command the database is as it was, and without one the files.
  abbrev pub Untouched : Option ExportCommand → World → World → Type 0
  Untouched (some command) world world' = world'.db ≡ world.db
  Untouched none world world' = world'.fs ≡ world.fs

  -- A run with a command, however it ends, leaves the database as it is, and one without a command the
  -- files.
  pub main-Untouched :
      (env : Surroundings) (args : IngestorConfig) (world : World)
      → Untouched args.command world (main env args world).1
  unfolding main
  main-Untouched env args world = by_url env.database_url args.command
    where
      by_url :
          (url : Option Text) (command : Option ExportCommand)
          → (let run : Result Outcome × World =
                (lift (ok_or url no_database_url) >>= λ u. run_command env args u command) world in
              Untouched command world run.1)
      by_url none none = refl
      by_url none (some command) = refl
      by_url (some url) none = run_command-fs env args url world
      by_url (some url) (some command) = run_command-db env args url command world
