-- ===== src/Main/Examples.antt =====
-- A start with one market, whose name has changed, and the rows that are stored after it.
use lighter_timescaledb_inge.Base.{◌↔◌, ◌≡◌, refl, true, none, some, [], ◌∷◌, codes, All, ok}
use lighter_timescaledb_inge.Base.Int.{ℤ, pos}
use lighter_timescaledb_inge.Base.IntMap.{lookup, insert}
use lighter_timescaledb_inge.Instances.{year_chrono, sample_serde, text_floats, whole_decimals}
use lighter_timescaledb_inge.Wire.Market.{OrderBookInfo, OrderBooksResponse}
use lighter_timescaledb_inge.Symbols.{
  find_symbol, upsert_rows, is_supported, all_supported, collect, perp_rows, insert_row, sort_rows,
  upsert_symbol, sync_all, sync_symbols, load_symbol_cache, load_perp_markets,
}
use lighter_timescaledb_inge.Symbols.Upsert.{IsKeyed, id_of}
use lighter_timescaledb_inge.Symbols.Examples.{memory_symbols, response, old_rows, new_rows}
use lighter_timescaledb_inge.Ws.Stream.{IsInjective}
use lighter_timescaledb_inge.Ws.Examples as Stream
use lighter_timescaledb_inge.Writer.Examples.{memory}
use lighter_timescaledb_inge.Main.{
  Started, start, IngestorConfig, Settings, Surroundings, ingesting,
  establish_postgres_connection_pool, main,
}
use lighter_timescaledb_inge.Main.Start.{start_lem}
use lighter_timescaledb_inge.Main.Dispatch.{Reaches, main-ingesting_iff}
use lighter_timescaledb_inge.Export.Examples.{sample_client, no_files}
use lighter_timescaledb_inge.Export.Memory.{memory_files}

abbrev started : Started
started = record {
  symbol_cache = Stream.cache;
  market_ids = pos 7 ∷ [];
  perp_markets = record { symbol_id = pos 3; name = codes "BTC"; lighter_market_id = pos 7 } ∷ [];
}

starts : start (some tt) (some (response true)) old_rows ≡ (ok started, new_rows)
unfolding start sync_symbols sync_all upsert_symbol upsert_rows all_supported is_supported
    load_symbol_cache collect insert load_perp_markets perp_rows sort_rows insert_row
starts = refl

keyed : IsKeyed old_rows
unfolding find_symbol
keyed = (refl, tt, tt)

start_lem_example :
    IsInjective Stream.cache
    × ((resp : OrderBooksResponse) × (some (response true) ≡ some resp)
        × All
            (λ (m : OrderBookInfo). (i : ℤ) × (lookup m.market_id Stream.cache ≡ some i))
            resp.order_books)
    × ((market i : ℤ)
        → id_of (find_symbol market old_rows) ≡ some i
        → lookup market Stream.cache ≡ some i)
start_lem_example =
    start_lem (some tt) (some (response true)) started old_rows new_rows keyed starts

abbrev asked : IngestorConfig
asked = record {
  command = none;
  api_url = codes "a";
  ws_url = codes "w";
  funding_poll_interval_secs = some 60;
  funding_backfill_start = some (pos 0);
  orderbook_snapshot_interval_secs = some 600;
}

abbrev config : Settings
config = record { poll_interval_secs = 60; backfill_start = pos 0; snapshot_interval_secs = 600 }

abbrev surroundings : Surroundings
surroundings = record {
  database_url = some (codes "postgres");
  client = λ url. sample_client;
  establish_connection = λ url. some tt;
  build_pool = λ test size url. some tt;
  fetch_order_books = λ url. some (response true);
}

main-ingesting_iff_example :
    (main surroundings asked (record { fs = no_files; db = old_rows })
      ≡ (ok (ingesting config started), record { fs = no_files; db = new_rows }))
    ↔ Reaches surroundings asked
        (record { fs = no_files; db = old_rows })
        (record { fs = no_files; db = new_rows })
        config
        started
main-ingesting_iff_example =
    main-ingesting_iff surroundings asked (record { fs = no_files; db = old_rows })
      (record { fs = no_files; db = new_rows }) config started

pooled : establish_postgres_connection_pool surroundings (codes "postgres") ≡ ok tt
unfolding establish_postgres_connection_pool
pooled = refl

-- The program comes to its loops.
main_runs :
    main surroundings asked (record { fs = no_files; db = old_rows })
    ≡ (ok (ingesting config started), record { fs = no_files; db = new_rows })
main_runs =
    (main-ingesting_iff surroundings asked (record { fs = no_files; db = old_rows })
        (record { fs = no_files; db = new_rows }) config started).1
      (record {
        no_command = refl;
        url = codes "postgres";
        url_set = refl;
        configured = record { poll_given = refl; start_given = refl; snapshot_given = refl };
        starts = starts;
        pooled = pooled;
        same_files = refl;
      })
