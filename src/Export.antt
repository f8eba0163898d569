-- ===== src/Export.antt =====
-- src/export.rs: the export of stored rows as Parquet files.
pub mod Filter
pub mod Rows
pub mod Files
pub mod Loop
pub mod Holds
pub mod Writes
pub mod Frame
pub mod Contents
pub mod Guards
pub mod Unknown
pub mod Complete
pub mod Memory
pub mod Examples
use lighter_timescaledb_inge.Base.{
  ℕ, Bool, true, false, not, ◌&&◌, Option, none, some, List, [], ◌∷◌, ◌++◌, Text, codes, ok_or,
  no_dataset, output_exists, export_failed, Action, ◌>>=◌, ◌>>◌, pure, lift, gets, bail_if,
}
use lighter_timescaledb_inge.External.{Chrono, Serde, Floats}
use lighter_timescaledb_inge.Export.Filter.{symbol_condition, where_clause}
use lighter_timescaledb_inge.Export.Rows.{
  TradeSelected, MessageSelected, new_trades, trades_len, push_trade, new_messages, messages_len,
  push_message,
}
use lighter_timescaledb_inge.Export.Files.{
  Parquet, run, exists, parquet_writer, write_trades, write_messages,
}
use lighter_timescaledb_inge.Export.Loop.{batch_size, export_loop}

abbrev pub trades_path : Text
trades_path = codes "trades.parquet"

abbrev pub orderbooks_path : Text
orderbooks_path = codes "orderbook_messages.parquet"

-- The queries, with the filter between the two parts.
abbrev pub trades_sql : Text → Text
trades_sql filter =
    codes
      "SELECT t.time, s.name, t.lighter_trade_id, t.price, t.size, t.is_maker_ask, t.trade_type FROM trades t JOIN symbols s ON s.id = t.symbol"
    ++ (filter ++ codes " ORDER BY t.time, t.id")

abbrev pub orderbooks_sql : Text → Text
orderbooks_sql filter =
    codes
      "SELECT o.time, s.name, o.message_type, o.sequence, o.bids, o.asks FROM orderbook_messages o JOIN symbols s ON s.id = o.symbol"
    ++ (filter ++ codes " ORDER BY o.time, o.id")

module _ ⦃c : Chrono⦄ ⦃s : Serde⦄ ⦃f : Floats⦄ where
  -- What Postgres answers: to the connection, the query of names, and the two queries of rows, whose
  -- rows come one by one. `none` is a failure.
  pub record Client : Type 0 where
    pub connect : Option (Unit {0})
    pub select_names : List Text → Option (List Text)
    pub query_trades : Text → Option (List (Option TradeSelected))
    pub query_orderbooks : Text → Option (List (Option MessageSelected))

  -- The arguments of the command.
  pub record ExportArgs : Type 0 where
    pub symbols : List Text
    pub hours : Option ℕ
    pub trades : Bool
    pub orderbooks : Bool
    pub overwrite : Bool

  module _ ⦃p : Parquet⦄ where
    -- The part of `export_trades` behind `parquet_writer`.
    unfoldable pub trades_rows : Client → Text → Action p.Fs (Unit {0})
    unfolding run
    trades_rows client filter = do
      rows ← lift (ok_or (client.query_trades (trades_sql filter)) export_failed)
      export_loop batch_size trades_len push_trade (write_trades trades_path) new_trades rows
      run (p.close trades_path)

    unfoldable pub export_trades : Client → Text → Bool → Action p.Fs (Unit {0})
    export_trades client filter overwrite = do
      parquet_writer trades_path overwrite
      trades_rows client filter

    -- The part of `export_orderbooks` behind `parquet_writer`.
    unfoldable pub orderbooks_rows : Client → Text → Action p.Fs (Unit {0})
    unfolding run
    orderbooks_rows client filter = do
      rows ← lift (ok_or (client.query_orderbooks (orderbooks_sql filter)) export_failed)
      export_loop batch_size messages_len push_message (write_messages orderbooks_path) new_messages
          rows
      run (p.close orderbooks_path)

    unfoldable pub export_orderbooks : Client → Text → Bool → Action p.Fs (Unit {0})
    export_orderbooks client filter overwrite = do
      parquet_writer orderbooks_path overwrite
      orderbooks_rows client filter

    abbrev pub when : Bool → Action p.Fs (Unit {0}) → Action p.Fs (Unit {0})
    when true action = action
    when false action = pure tt

    -- `if !overwrite { for … { if selected && path.exists() { return Err(…) } } }`
    unfoldable pub refuse_existing : ExportArgs → Action p.Fs (Unit {0})
    refuse_existing args = do
      trades_there ← gets (exists trades_path)
      bail_if (not args.overwrite && args.trades && trades_there) output_exists
      orderbooks_there ← gets (exists orderbooks_path)
      bail_if (not args.overwrite && args.orderbooks && orderbooks_there) output_exists

    -- The datasets, one after the other.
    unfoldable pub export_datasets : Client → ExportArgs → Text → Action p.Fs (Unit {0})
    export_datasets client args condition = do
      when args.trades
          (export_trades client (where_clause condition args.hours (codes "t.time")) args.overwrite)
      when args.orderbooks (
          export_orderbooks client (where_clause condition args.hours (codes "o.time"))
            args.overwrite)

    unfoldable pub export_parquet : Client → ExportArgs → Action p.Fs (Unit {0})
    export_parquet client args = do
      bail_if (not args.trades && not args.orderbooks) no_dataset
      refuse_existing args
      lift (ok_or client.connect export_failed)
      condition ← lift (symbol_condition client.select_names args.symbols)
      run p.create_dir_all
      export_datasets client args condition
