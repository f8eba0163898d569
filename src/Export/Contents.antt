-- ===== src/Export/Contents.antt =====
-- src/export.rs: what the files hold when an export has succeeded.
use lighter_timescaledb_inge.Base.{
  ◌≡◌, refl, ap, Bool, true, Option, none, some, List, [], map, Text, ok, err, Action, ◌>>=◌, ◌>>◌,
  lift, ok_or, >>=-eq-ok, export_failed, Error, arith,
}
use lighter_timescaledb_inge.External.{Chrono, Serde, Floats}
use lighter_timescaledb_inge.Export.Rows.{
  new_trades, trades_len, push_trade, new_messages, messages_len, push_message,
}
use lighter_timescaledb_inge.Export.Files.{
  Parquet, run, parquet_writer, write_trades, write_messages,
}
use lighter_timescaledb_inge.Export.Loop.{batch_size, export_loop}
use lighter_timescaledb_inge.Export.Loop.Groups.{Grouped, export_loop_lem}
use lighter_timescaledb_inge.Export.Holds.{
  trades_columns, trades_len_lem, push_trade_lem, MessagesHold, MessagesHold-new, messages_len_lem,
  push_message_lem,
}
use lighter_timescaledb_inge.Export.Writes.{
  IsOpen, TradesRecord, MessagesRecord, run-eq-ok, write_trades_lem, write_messages_lem,
  parquet_writer_lem,
}
use lighter_timescaledb_inge.Export.{
  Client, trades_path, orderbooks_path, trades_sql, orderbooks_sql, trades_rows, orderbooks_rows,
  export_trades, export_orderbooks,
}

lift-eq-ok {ℓ κ} :
    {S : Type ℓ} {A : Type κ} (o : Option A) (e : Error) (a : A) (s s' : S)
    → lift (ok_or o e) s ≡ (ok a, s')
    → (o ≡ some a) × (s ≡ s')
lift-eq-ok none e a s s' h = absurd (cc)
lift-eq-ok (some x) e a s s' h =
    (ap (λ y. elim y.0 [ ok z ↦ some z | err _ ↦ none ]) h, ap (λ y. y.1) h)

module _ ⦃c : Chrono⦄ ⦃s : Serde⦄ ⦃f : Floats⦄ ⦃p : Parquet⦄ where
  -- The file at the path is complete: all rows of the query, in its order, in groups of the batch
  -- size but for the last, each group the columns of one record batch.
  abbrev pub IsComplete :
      {Row : Type 0}
      → Option (List (Option Row))
      → (List Row → p.RecordBatch → Type 0)
      → Text
      → p.Fs
      → Type 0
  IsComplete {Row} query Records path fs =
      (rows : List Row) × (batches : List p.RecordBatch) × (query ≡ some (map some rows))
      × (Grouped batch_size Records rows batches)
      × (p.file fs path ≡ some (record { batches = batches; closed = true }))

  -- A dataset behind its writer.
  rows_lem :
      {Row : Type 0} (Records : List Row → p.RecordBatch → Type 0) (path : Text)
      (query : Option (List (Option Row))) (loop : List (Option Row) → Action p.Fs (Unit {0}))
      (fs fs' : p.Fs)
      → IsOpen path [] fs
      → ((rows : List (Option Row)) (fs' : p.Fs)
          → loop rows fs ≡ (ok tt, fs')
          → (rs : List Row) × (rows ≡ map some rs)
            × (bs : List p.RecordBatch) × (Grouped batch_size Records rs bs)
            × IsOpen path bs fs')
      → (lift (ok_or query export_failed) >>= λ rows. (loop rows >> run (p.close path))) fs
        ≡ (ok tt, fs')
      → IsComplete query Records path fs'
  rows_lem Records path none loop fs fs' is_open hl h = absurd (cc)
  rows_lem Records path (some rows) loop fs fs' is_open hl h =
      let (_, fs1, loop_eq, close_eq) = >>=-eq-ok (loop rows) (λ _. run (p.close path)) fs h in
      let (rs, rows_eq, bs, grouped, still_open) = hl rows fs1 loop_eq in
      (
        rs,
        bs,
        ap some rows_eq,
        grouped,
        p.closed path fs1 fs' bs still_open (run-eq-ok (p.close path) fs1 fs' close_eq),
      )

  pub export_trades_lem :
      (client : Client) (filter : Text) (overwrite : Bool) (fs fs' : p.Fs)
      → export_trades client filter overwrite fs ≡ (ok tt, fs')
      → IsComplete (client.query_trades (trades_sql filter)) TradesRecord trades_path fs'
  unfolding export_trades trades_rows new_trades
  export_trades_lem client filter overwrite fs fs' h =
      let (_, fs1, writer_eq, rows_eq) =
        >>=-eq-ok (parquet_writer trades_path overwrite) (λ _. trades_rows client filter) fs h in
      let is_open = parquet_writer_lem trades_path overwrite fs fs1 writer_eq in
      rows_lem TradesRecord trades_path (client.query_trades (trades_sql filter))
        (export_loop batch_size trades_len push_trade (write_trades trades_path) new_trades) fs1 fs'
        is_open
        (λ rows fs2 loop_eq.
          export_loop_lem batch_size trades_len push_trade (write_trades trades_path)
            (λ g batch. batch ≡ trades_columns g) TradesRecord (IsOpen trades_path) trades_len_lem
            push_trade_lem (write_trades_lem trades_path) rows [] new_trades [] fs1 fs2 refl
            (omega arith) is_open loop_eq)
        rows_eq

  pub export_orderbooks_lem :
      (client : Client) (filter : Text) (overwrite : Bool) (fs fs' : p.Fs)
      → export_orderbooks client filter overwrite fs ≡ (ok tt, fs')
      → IsComplete
          (client.query_orderbooks (orderbooks_sql filter))
          MessagesRecord
          orderbooks_path
          fs'
  unfolding export_orderbooks orderbooks_rows
  export_orderbooks_lem client filter overwrite fs fs' h =
      let (_, fs1, writer_eq, rows_eq) =
        >>=-eq-ok (parquet_writer orderbooks_path overwrite) (λ _. orderbooks_rows client filter) fs
          h in
      let is_open = parquet_writer_lem orderbooks_path overwrite fs fs1 writer_eq in
      rows_lem MessagesRecord orderbooks_path (client.query_orderbooks (orderbooks_sql filter))
        (export_loop batch_size messages_len push_message (write_messages orderbooks_path)
          new_messages)
        fs1 fs' is_open
        (λ rows fs2 loop_eq.
          export_loop_lem batch_size messages_len push_message (write_messages orderbooks_path)
            MessagesHold MessagesRecord (IsOpen orderbooks_path) messages_len_lem push_message_lem
            (write_messages_lem orderbooks_path) rows [] new_messages [] fs1 fs2 MessagesHold-new
            (omega arith) is_open loop_eq)
        rows_eq
