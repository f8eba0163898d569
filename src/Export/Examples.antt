-- ===== src/Export/Examples.antt =====
-- The theorems of the export on a file system in memory.
use lighter_timescaledb_inge.Base.{
  ℕ, ◌≡◌, refl, Bool, true, false, none, some, [], ◌∷◌, Text, codes, inl, ok, err, Error,
}
use lighter_timescaledb_inge.Base.Int.{pos}
use lighter_timescaledb_inge.Instances.{year_chrono, sample_serde, text_floats}
use lighter_timescaledb_inge.Export.Filter.Asks.{Asks}
use lighter_timescaledb_inge.Export.Rows.{
  TradeSelected, trades_len, push_trade, new_trades, messages_len, new_messages,
}
use lighter_timescaledb_inge.Export.Files.{
  File, run, exists, parquet_writer, write_trades, write_messages,
}
use lighter_timescaledb_inge.Export.Filter.{
  join, double_quotes, quote, quote_all, names_condition, contains, all_known, symbol_condition,
  where_clause,
}
use lighter_timescaledb_inge.Export.Filter.Quoting.{
  read_filter, time_part, read_filter-where_clause,
}
use lighter_timescaledb_inge.Export.Loop.{export_loop}
use lighter_timescaledb_inge.Export.Contents.{IsComplete}
use lighter_timescaledb_inge.Export.Writes.{TradesRecord, MessagesRecord}
use lighter_timescaledb_inge.Export.Guards.{export_parquet-keeps, trades_filter, orderbooks_filter}
use lighter_timescaledb_inge.Export.Unknown.{export_parquet-unknown}
use lighter_timescaledb_inge.Export.Complete.{export_parquet-IsComplete}
use lighter_timescaledb_inge.Export.{
  Client, ExportArgs, trades_path, orderbooks_path, trades_sql, orderbooks_sql, trades_rows,
  orderbooks_rows, export_trades, export_orderbooks, refuse_existing, export_datasets,
  export_parquet,
}
use lighter_timescaledb_inge.Export.Memory.{Columns, Files, set_file, memory_files}

abbrev pub row_at : ℕ → TradeSelected
row_at n = record {
  time = pos n;
  name = codes "BTC";
  lighter_trade_id = pos n;
  price = codes "1";
  size = codes "2";
  is_maker_ask = true;
  trade_type = codes "trade";
}

-- Two trades are stored, and no messages. One symbol is known.
abbrev pub sample_client : Client
sample_client = record {
  connect = some tt;
  select_names = λ names. some (codes "BTC" ∷ []);
  query_trades = λ sql. some (some (row_at 5) ∷ some (row_at 7) ∷ []);
  query_orderbooks = λ sql. some [];
}

abbrev ask_for : Text → Bool → ExportArgs
ask_for name overwrite = record {
  symbols = name ∷ [];
  hours = some 24;
  trades = true;
  orderbooks = true;
  overwrite = overwrite;
}

abbrev pub no_files : Files
no_files path = none

-- A file that an earlier export has left.
abbrev old_file : File Columns
old_file = record { batches = []; closed = true }

abbrev after_export : Files
after_export = (export_parquet sample_client (ask_for (codes "BTC") true) no_files).1

after_export-ok :
    export_parquet sample_client (ask_for (codes "BTC") true) no_files ≡ (ok tt, after_export)
unfolding export_parquet refuse_existing exists symbol_condition all_known contains names_condition
    join quote_all quote double_quotes run export_datasets export_trades export_orderbooks
    parquet_writer trades_rows orderbooks_rows export_loop trades_len push_trade new_trades
    messages_len new_messages write_trades write_messages where_clause
after_export-ok = refl

-- The two trades are one record batch, in the order of the query.
exported :
    after_export trades_path
    ≡ some (record {
      batches =
          inl (record {
            times = pos 0 ∷ pos 0 ∷ [];
            symbols = codes "BTC" ∷ codes "BTC" ∷ [];
            ids = pos 5 ∷ pos 7 ∷ [];
            prices = codes "1" ∷ codes "1" ∷ [];
            sizes = codes "2" ∷ codes "2" ∷ [];
            makers = true ∷ true ∷ [];
            kinds = codes "trade" ∷ codes "trade" ∷ [];
          })
          ∷ [];
      closed = true;
    })
unfolding export_parquet refuse_existing exists symbol_condition all_known contains names_condition
    join quote_all quote double_quotes run export_datasets export_trades export_orderbooks
    parquet_writer trades_rows orderbooks_rows export_loop trades_len push_trade new_trades
    messages_len new_messages write_trades write_messages where_clause
exported = refl

export_parquet-IsComplete_example :
    (condition : Text) × (symbol_condition (λ names. some (codes "BTC" ∷ [])) (codes "BTC" ∷ [])
      ≡ ok condition)
    × Asks
        (codes "BTC" ∷ [])
        (ask_for (codes "BTC") true).hours
        (codes "t.time")
        (trades_filter sample_client (ask_for (codes "BTC") true) condition)
    × Asks
        (codes "BTC" ∷ [])
        (ask_for (codes "BTC") true).hours
        (codes "o.time")
        (orderbooks_filter sample_client (ask_for (codes "BTC") true) condition)
    × (true ≡ true
        → IsComplete
            (sample_client.query_trades
              (trades_sql (trades_filter sample_client (ask_for (codes "BTC") true) condition)))
            TradesRecord
            trades_path
            after_export)
    × (true ≡ true
        → IsComplete
            (sample_client.query_orderbooks (
              orderbooks_sql
                (orderbooks_filter sample_client (ask_for (codes "BTC") true) condition)))
            MessagesRecord
            orderbooks_path
            after_export)
export_parquet-IsComplete_example =
    export_parquet-IsComplete sample_client (ask_for (codes "BTC") true) no_files after_export
      after_export-ok

export_parquet-keeps_example :
    (export_parquet sample_client
        (ask_for (codes "BTC") false)
        (set_file trades_path old_file no_files)).1
      trades_path
    ≡ some old_file
export_parquet-keeps_example =
    export_parquet-keeps sample_client (ask_for (codes "BTC") false)
      (set_file trades_path old_file no_files) trades_path old_file refl refl

export_parquet-unknown_example :
    (e : Error) × (export_parquet sample_client (ask_for (codes "DOGE") true) no_files
      ≡ (err e, no_files))
unfolding contains
export_parquet-unknown_example =
    export_parquet-unknown sample_client (ask_for (codes "DOGE") true) no_files (codes "BTC" ∷ [])
      (codes "DOGE") refl refl refl

-- A name with a quote in it.
read_filter-where_clause_example :
    read_filter 2 (
      where_clause
        (names_condition (codes "a'b, 'c" ∷ codes "ETH" ∷ []))
        (some 24)
        (codes "t.time"))
    ≡ some (codes "a'b, 'c" ∷ codes "ETH" ∷ [], time_part (some 24) (codes "t.time"))
read_filter-where_clause_example =
    read_filter-where_clause (codes "a'b, 'c") (codes "ETH" ∷ []) (some 24) (codes "t.time")
