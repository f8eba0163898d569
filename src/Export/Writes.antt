-- ===== src/Export/Writes.antt =====
-- src/export.rs: what the operations on a Parquet file leave when they succeed.
use lighter_timescaledb_inge.Base.{
  ◌≡◌, refl, sym, ap, ◌∙◌, subst, Bool, false, Option, none, some, List, [], ◌∷◌, ◌++◌, Text, ok,
  ◌>>=◌, ◌>>◌, lift, pure, ok_or, >>=-eq-ok, ok_or-eq-ok, ok-injective, export_failed,
}
use lighter_timescaledb_inge.External.{Chrono, Serde, Floats}
use lighter_timescaledb_inge.Export.Rows.{
  TradeSelected, TradeBatch, new_trades, MessageSelected, OrderbookBatch, new_messages,
}
use lighter_timescaledb_inge.Export.Files.{
  Parquet, run, parquet_writer, write_trades, write_messages,
}
use lighter_timescaledb_inge.Export.Holds.{trades_columns, MessagesHold, MessagesHold-new}

module _ ⦃c : Chrono⦄ ⦃s : Serde⦄ ⦃f : Floats⦄ ⦃p : Parquet⦄ where
  -- The file at a path is being written, and has got these record batches.
  abbrev pub IsOpen : Text → List p.RecordBatch → p.Fs → Type 0
  IsOpen path bs fs = p.file fs path ≡ some (record { batches = bs; closed = false })

  -- The record batch of some rows.
  abbrev pub TradesRecord : List TradeSelected → p.RecordBatch → Type 0
  TradesRecord g b = p.trades_record (trades_columns g) ≡ some b

  abbrev pub MessagesRecord : List MessageSelected → p.RecordBatch → Type 0
  MessagesRecord g b =
      (batch : OrderbookBatch) × MessagesHold g batch × (p.messages_record batch ≡ some b)

  -- What an operation of the file system that succeeds did.
  pub run-eq-ok :
      (operation : p.Fs → Option (Unit {0}) × p.Fs) (fs fs' : p.Fs)
      → run operation fs ≡ (ok tt, fs')
      → operation fs ≡ (some tt, fs')
  unfolding run
  run-eq-ok operation fs fs' h = ok_or-eq-ok (operation fs) export_failed tt fs' h

  -- A write of a record batch by either dataset, with the columns that were made for it.
  write_columns :
      (path : Text) {Batch : Type 0} (columns : Option p.RecordBatch) (rest batch' : Batch)
      (bs : List p.RecordBatch) (fs fs' : p.Fs)
      → IsOpen path bs fs
      → (lift (ok_or columns export_failed) >>= λ b. (run (p.write path b) >> pure rest)) fs
        ≡ (ok batch', fs')
      → (b : p.RecordBatch) × (rest ≡ batch') × (columns ≡ some b) × IsOpen path (bs ++ b ∷ []) fs'
  write_columns path none rest batch' bs fs fs' is_open h = absurd (cc)
  write_columns path (some b) rest batch' bs fs fs' is_open h =
      let (_, fs1, run_eq, pure_eq) = >>=-eq-ok (run (p.write path b)) (λ _. pure rest) fs h in
      let write_eq = run-eq-ok (p.write path b) fs fs1 run_eq in
      let same : fs1 ≡ fs' = ap (λ x. x.1) pure_eq in
      (
        b,
        ok-injective rest batch' (ap (λ x. x.0) pure_eq),
        refl,
        subst (IsOpen path (bs ++ b ∷ [])) same (p.written path b fs fs1 bs is_open write_eq),
      )

  pub write_trades_lem :
      (path : Text) (g : List TradeSelected) (batch batch' : TradeBatch) (bs : List p.RecordBatch)
      (fs fs' : p.Fs)
      → batch ≡ trades_columns g
      → IsOpen path bs fs
      → write_trades path batch fs ≡ (ok batch', fs')
      → (batch' ≡ trades_columns [])
        × (b : p.RecordBatch) × (TradesRecord g b)
        × IsOpen path (bs ++ b ∷ []) fs'
  unfolding write_trades new_trades
  write_trades_lem path g batch batch' bs fs fs' holds is_open h =
      let (b, rest, record_eq, is_open') =
        write_columns path (p.trades_record batch) new_trades batch' bs fs fs' is_open h in
      (sym rest, b, ap p.trades_record (sym holds) ∙ record_eq, is_open')

  pub write_messages_lem :
      (path : Text) (g : List MessageSelected) (batch batch' : OrderbookBatch)
      (bs : List p.RecordBatch) (fs fs' : p.Fs)
      → MessagesHold g batch
      → IsOpen path bs fs
      → write_messages path batch fs ≡ (ok batch', fs')
      → MessagesHold [] batch'
        × (b : p.RecordBatch) × (MessagesRecord g b)
        × IsOpen path (bs ++ b ∷ []) fs'
  unfolding write_messages
  write_messages_lem path g batch batch' bs fs fs' holds is_open h =
      let (b, rest, record_eq, is_open') =
        write_columns path (p.messages_record batch) new_messages batch' bs fs fs' is_open h in
      (subst (MessagesHold []) rest MessagesHold-new, b, (batch, holds, record_eq), is_open')

  pub parquet_writer_lem :
      (path : Text) (overwrite : Bool) (fs fs' : p.Fs)
      → parquet_writer path overwrite fs ≡ (ok tt, fs')
      → IsOpen path [] fs'
  unfolding parquet_writer
  parquet_writer_lem path overwrite fs fs' h =
      let (_, fs1, open_eq, try_eq) =
        >>=-eq-ok (run (p.open_file overwrite path)) (λ _. run (p.try_new path)) fs h in
      p.started path fs1 fs' (run-eq-ok (p.try_new path) fs1 fs' try_eq)
      ∙ p.opened overwrite path fs fs1 (run-eq-ok (p.open_file overwrite path) fs fs1 open_eq)
