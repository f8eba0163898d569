-- ===== src/Main.antt =====
-- src/main.rs: the settings, the export command, and the start of the ingestor up to the loops. The
-- tasks themselves are Ws/Session, Writer and Funding. `color_eyre::install` and the error of a joined
-- blocking task, which a panic in it causes, are left out.
pub mod Start
pub mod Dispatch
pub mod Untouched
mod Examples
use lighter_timescaledb_inge.Base.{
  ℕ, Bool, true, false, not, Option, none, some, List, [], ◌∷◌, Text, Result, ok, and_then, err,
  Action, ◌>>=◌, ◌>>◌, pure, lift, ok_or, database_failed, missing_settings, no_database_url,
}
use lighter_timescaledb_inge.Base.Int.{ℤ}
use lighter_timescaledb_inge.Base.IntMap.{IntMap}
use lighter_timescaledb_inge.External.{Chrono, Serde, Floats}
use lighter_timescaledb_inge.Wire.Market.{OrderBooksResponse}
use lighter_timescaledb_inge.Symbols.{
  SymbolTable, sync_symbols, load_symbol_cache, load_perp_markets,
}
use lighter_timescaledb_inge.Funding.Poll.{PerpMarket}
use lighter_timescaledb_inge.Export.Files.{Parquet}
use lighter_timescaledb_inge.Export.{ExportArgs, Client, export_parquet}

pub data ExportDataset : Type 0 where
  trades orderbooks both : ExportDataset

-- `Command::Export`
pub record ExportCommand : Type 0 where
  pub output_dir : Text
  pub symbols : List Text
  pub dataset : ExportDataset
  pub hours : Option ℕ
  pub no_overwrite : Bool

abbrev pub with_trades : ExportDataset → Bool
with_trades trades = true
with_trades orderbooks = false
with_trades both = true

abbrev pub with_orderbooks : ExportDataset → Bool
with_orderbooks trades = false
with_orderbooks orderbooks = true
with_orderbooks both = true

module _ ⦃c : Chrono⦄ where
  pub record IngestorConfig : Type 0 where
    pub command : Option ExportCommand
    pub api_url : Text
    pub ws_url : Text
    pub funding_poll_interval_secs : Option ℕ
    pub funding_backfill_start : Option c.DateTime
    pub orderbook_snapshot_interval_secs : Option ℕ

  -- What runs without a subcommand.
  pub record Settings : Type 0 where
    pub poll_interval_secs : ℕ
    pub backfill_start : c.DateTime
    pub snapshot_interval_secs : ℕ

  unfoldable pub settings : IngestorConfig → Result Settings
  settings args = and_then (ok_or args.funding_poll_interval_secs missing_settings) λ poll.
      and_then (ok_or args.funding_backfill_start missing_settings) λ start.
        and_then (ok_or args.orderbook_snapshot_interval_secs missing_settings) λ snapshot.
          ok (record {
            poll_interval_secs = poll;
            backfill_start = start;
            snapshot_interval_secs = snapshot;
          })

module _ ⦃c : Chrono⦄ ⦃s : Serde⦄ ⦃f : Floats⦄ where
  unfoldable pub export_args : ExportCommand → ExportArgs
  export_args command = record {
    symbols = command.symbols;
    hours = command.hours;
    trades = with_trades command.dataset;
    orderbooks = with_orderbooks command.dataset;
    overwrite = not command.no_overwrite;
  }

-- `symbol_cache.keys()`
abbrev pub keys : IntMap ℤ → List ℤ
keys [] = []
keys ((market, symbol) ∷ cache) = market ∷ keys cache

-- What the loops are given.
pub record Started : Type 0 where
  pub symbol_cache : IntMap ℤ
  pub market_ids : List ℤ
  pub perp_markets : List PerpMarket

module _ ⦃t : SymbolTable⦄ where
  -- From the connection to the loops; `connected` is `none` if Postgres is not reached.
  unfoldable pub start : Option (Unit {0}) → Option OrderBooksResponse → Action t.Db Started
  start connected reply = do
    lift (ok_or connected database_failed)
    sync_symbols reply
    cache ← load_symbol_cache
    perps ← load_perp_markets
    pure (record { symbol_cache = cache; market_ids = keys cache; perp_markets = perps })

module _ ⦃c : Chrono⦄ ⦃s : Serde⦄ ⦃f : Floats⦄ where
  -- What the program finds: the variable `DATABASE_URL`, for a URL the answers of Postgres to an export,
  -- to the connection of a start and to the pool behind it, and the reply of the exchange.
  pub record Surroundings : Type 0 where
    pub database_url : Option Text
    pub client : Text → Client
    pub establish_connection : Text → Option (Unit {0})
    -- `Pool::builder()`, by `test_on_check_out` and `max_size`
    pub build_pool : Bool → ℕ → Text → Option (Unit {0})
    pub fetch_order_books : Text → Option OrderBooksResponse

  unfoldable pub establish_postgres_connection_pool : Surroundings → Text → Result (Unit {0})
  establish_postgres_connection_pool env database_url =
      ok_or (env.build_pool true 2 database_url) database_failed

  -- How `main` goes on: it returns after an export, or comes to the loops.
  pub data Outcome : Type 0 where
    exported : Outcome
    ingesting : Settings → Started → Outcome

module _ ⦃c : Chrono⦄ ⦃s : Serde⦄ ⦃f : Floats⦄ ⦃t : SymbolTable⦄ ⦃p : Parquet⦄ where
  -- What `main` may change before the loops.
  pub record World : Type 0 where
    pub fs : p.Fs
    pub db : t.Db

  abbrev pub on_fs {ℓ} : {A : Type ℓ} → Action p.Fs A → Action World A
  on_fs act world = let (result, fs) = act world.fs in (result, record world { fs = fs })

  abbrev pub on_db {ℓ} : {A : Type ℓ} → Action t.Db A → Action World A
  on_db act world = let (result, db) = act world.db in (result, record world { db = db })

  -- Behind the command line: the export, or the settings, the start and the pool.
  unfoldable pub run_command :
      Surroundings → IngestorConfig → Text → Option ExportCommand → Action World Outcome
  run_command env args database_url (some command) = do
    on_fs (export_parquet (env.client database_url) (export_args command))
    pure exported
  run_command env args database_url none = do
    config ← lift (settings args)
    started ←
        on_db (start (env.establish_connection database_url) (env.fetch_order_books args.api_url))
    lift (establish_postgres_connection_pool env database_url)
    pure (ingesting config started)

  unfoldable pub main : Surroundings → IngestorConfig → Action World Outcome
  unfolding run_command
  main env args = do
    database_url ← lift (ok_or env.database_url no_database_url)
    run_command env args database_url args.command
