-- ===== src/Export/Complete.antt =====
-- src/export.rs: an export that succeeds.
use lighter_timescaledb_inge.Base.{
  ◌≡◌, refl, sym, ap, ◌∙◌, subst, Bool, true, not, ◌&&◌, Text, codes, ok, Action, ◌>>=◌, ◌>>◌, lift,
  ok_or, >>=-eq-ok, export_failed, bail_if, no_dataset,
}
use lighter_timescaledb_inge.External.{Chrono, Serde, Floats}
use lighter_timescaledb_inge.Export.Filter.{symbol_condition}
use lighter_timescaledb_inge.Export.Filter.Asks.{Asks, symbol_condition-Asks}
use lighter_timescaledb_inge.Export.Files.{Parquet, run}
use lighter_timescaledb_inge.Export.Contents.{IsComplete, export_trades_lem, export_orderbooks_lem}
use lighter_timescaledb_inge.Export.Writes.{TradesRecord, MessagesRecord}
use lighter_timescaledb_inge.Export.Guards.{
  trades_filter, orderbooks_filter, trades_part, orderbooks_part, behind_guards,
}
use lighter_timescaledb_inge.Export.Frame.{Keeps-when, export_orderbooks-Keeps}
use lighter_timescaledb_inge.Export.{
  Client, ExportArgs, trades_path, orderbooks_path, trades_sql, orderbooks_sql, export_trades,
  export_orderbooks, when, refuse_existing, export_datasets, export_parquet,
}

module _ ⦃c : Chrono⦄ ⦃s : Serde⦄ ⦃f : Floats⦄ ⦃p : Parquet⦄ (client : Client)
    (args : ExportArgs) where
  when-eq-ok :
      (b : Bool) (m : Action p.Fs (Unit {0})) (fs fs' : p.Fs)
      → when b m fs ≡ (ok tt, fs')
      → b ≡ true
      → m fs ≡ (ok tt, fs')
  when-eq-ok b m fs fs' h e = subst (λ x. when x m fs ≡ (ok tt, fs')) e h

  -- The second dataset leaves the file of the first as it is.
  kept :
      (fs fs' : p.Fs) (condition : Text)
      → orderbooks_part client args condition fs ≡ (ok tt, fs')
      → p.file fs' trades_path ≡ p.file fs trades_path
  kept fs fs' condition h =
      let filter = orderbooks_filter client args condition in
      sym (ap (λ x. p.file x.1 trades_path) h)
      ∙ Keeps-when trades_path args.orderbooks (export_orderbooks client filter args.overwrite)
          (λ _. export_orderbooks-Keeps trades_path client filter args.overwrite refl) fs

  -- After an export that succeeds, the file of each selected dataset is closed and holds all rows of its
  -- query, in its order, column by column in record batches of 8192 rows but for a shorter last one. A
  -- reader of SQL literals finds in the filter of the query exactly the symbols asked for, in order, and
  -- behind them the condition on the time alone; where no symbol is asked for, the filter is of the time
  -- alone, and empty where no hours are.
  pub export_parquet-IsComplete :
      (fs fs' : p.Fs)
      → export_parquet client args fs ≡ (ok tt, fs')
      → (condition : Text) × (symbol_condition client.select_names args.symbols ≡ ok condition)
        × Asks args.symbols args.hours (codes "t.time") (trades_filter client args condition)
        × Asks args.symbols args.hours (codes "o.time") (orderbooks_filter client args condition)
        × (args.trades ≡ true
            → IsComplete
                (client.query_trades (trades_sql (trades_filter client args condition)))
                TradesRecord
                trades_path
                fs')
        × (args.orderbooks ≡ true
            → IsComplete
                (client.query_orderbooks (orderbooks_sql (orderbooks_filter client args condition)))
                MessagesRecord
                orderbooks_path
                fs')
  unfolding export_parquet export_datasets
  export_parquet-IsComplete fs fs' h =
      let (_, fs1, _, h1) =
        >>=-eq-ok (bail_if (not args.trades && not args.orderbooks) no_dataset)
          (λ _. refuse_existing args >> behind_guards client args) fs h in
      let (_, fs2, _, h2) =
        >>=-eq-ok (refuse_existing args) (λ _. behind_guards client args) fs1 h1 in
      let (_, fs3, _, h3) =
        >>=-eq-ok (lift (ok_or client.connect export_failed))
          (λ _. lift (symbol_condition client.select_names args.symbols) >>= λ condition.
            (run p.create_dir_all >> export_datasets client args condition))
          fs2 h2 in
      let (condition, fs4, condition_eq, h4) =
        >>=-eq-ok (lift (symbol_condition client.select_names args.symbols))
          (λ condition. run p.create_dir_all >> export_datasets client args condition) fs3 h3 in
      let (_, fs5, _, h5) =
        >>=-eq-ok (run p.create_dir_all) (λ _. export_datasets client args condition) fs4 h4 in
      let (_, fs6, trades_eq, orderbooks_eq) =
        >>=-eq-ok (trades_part client args condition) (λ _. orderbooks_part client args condition)
          fs5 h5 in
      let known : symbol_condition client.select_names args.symbols ≡ ok condition =
        ap (λ x. x.0) condition_eq in
      (
        condition,
        known,
        symbol_condition-Asks client.select_names args.symbols condition args.hours (codes "t.time")
            known,
        symbol_condition-Asks client.select_names args.symbols condition args.hours (codes "o.time")
            known,
        (λ selected.
            let (rows, batches, query_eq, grouped, file_eq) =
              export_trades_lem client (trades_filter client args condition) args.overwrite fs5 fs6
                (when-eq-ok args.trades
                  (export_trades client (trades_filter client args condition) args.overwrite) fs5
                  fs6 trades_eq selected) in
            (rows, batches, query_eq, grouped, kept fs6 fs' condition orderbooks_eq ∙ file_eq)),
        (λ selected.
            export_orderbooks_lem client (orderbooks_filter client args condition) args.overwrite
              fs6 fs'
              (when-eq-ok args.orderbooks
                (export_orderbooks client (orderbooks_filter client args condition) args.overwrite)
                fs6 fs' orderbooks_eq selected)),
      )
