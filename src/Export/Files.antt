-- ===== src/Export/Files.antt =====
-- src/export.rs: the Parquet writer. The file system, arrow and parquet are an interface: a file is the
-- record batches written to it, and whether it was closed, without which it has no footer. A path is
-- the name of a file in the output directory.
use lighter_timescaledb_inge.Base.{
  Bool, true, false, Option, none, some, List, [], ◌∷◌, ◌++◌, Text, text_eq, ok_or, export_failed,
  ◌≡◌, Action, ◌>>=◌, ◌>>◌, pure, lift,
}
use lighter_timescaledb_inge.External.{Chrono, Serde, Floats}
use lighter_timescaledb_inge.Export.Rows.{TradeBatch, new_trades, OrderbookBatch, new_messages}

pub record File (RecordBatch : Type 0) : Type 0 where
  pub batches : List RecordBatch
  pub closed : Bool

module _ ⦃c : Chrono⦄ ⦃s : Serde⦄ ⦃f : Floats⦄ where
  -- `none` is a failure. A failed write may leave a part behind.
  pub record Parquet : Type 1 where
    pub Fs : Type 0
    pub RecordBatch : Type 0
    pub file : Fs → Text → Option (File RecordBatch)
    -- `RecordBatch::try_new` with the schema and the columns of the batch
    pub trades_record : TradeBatch → Option RecordBatch
    pub messages_record : OrderbookBatch → Option RecordBatch
    pub create_dir_all : Fs → Option (Unit {0}) × Fs
    -- `options.open(path)`, with `create` and `truncate`, or with `create_new`
    pub open_file : Bool → Text → Fs → Option (Unit {0}) × Fs
    -- `ArrowWriter::try_new`
    pub try_new : Text → Fs → Option (Unit {0}) × Fs
    pub write : Text → RecordBatch → Fs → Option (Unit {0}) × Fs
    pub close : Text → Fs → Option (Unit {0}) × Fs
    -- Only the file at the path is touched.
    pub create_dir-files : (fs : Fs) (path : Text) → file (create_dir_all fs).1 path ≡ file fs path
    pub open-others :
        (overwrite : Bool) (path other : Text) (fs : Fs)
        → text_eq path other ≡ false
        → file (open_file overwrite path fs).1 other ≡ file fs other
    pub try_new-others :
        (path other : Text) (fs : Fs)
        → text_eq path other ≡ false
        → file (try_new path fs).1 other ≡ file fs other
    pub write-others :
        (path other : Text) (batch : RecordBatch) (fs : Fs)
        → text_eq path other ≡ false
        → file (write path batch fs).1 other ≡ file fs other
    pub close-others :
        (path other : Text) (fs : Fs)
        → text_eq path other ≡ false
        → file (close path fs).1 other ≡ file fs other
    -- What the operations that succeed do.
    pub opened :
        (overwrite : Bool) (path : Text) (fs fs' : Fs)
        → open_file overwrite path fs ≡ (some tt, fs')
        → file fs' path ≡ some (record { batches = []; closed = false })
    pub started :
        (path : Text) (fs fs' : Fs)
        → try_new path fs ≡ (some tt, fs')
        → file fs' path ≡ file fs path
    pub written :
        (path : Text) (batch : RecordBatch) (fs fs' : Fs) (batches : List RecordBatch)
        → file fs path ≡ some (record { batches = batches; closed = false })
        → write path batch fs ≡ (some tt, fs')
        → file fs' path ≡ some (record { batches = batches ++ batch ∷ []; closed = false })
    pub closed :
        (path : Text) (fs fs' : Fs) (batches : List RecordBatch)
        → file fs path ≡ some (record { batches = batches; closed = false })
        → close path fs ≡ (some tt, fs')
        → file fs' path ≡ some (record { batches = batches; closed = true })

  module _ ⦃p : Parquet⦄ where
    -- An operation of the file system, with `?`.
    unfoldable pub run : (p.Fs → Option (Unit {0}) × p.Fs) → Action p.Fs (Unit {0})
    run operation fs = let (r, fs') = operation fs in (ok_or r export_failed, fs')

    -- `path.exists()`
    unfoldable pub exists : Text → p.Fs → Bool
    exists path fs = elim (p.file fs path) [ none ↦ false | some file ↦ true ]

    unfoldable pub parquet_writer : Text → Bool → Action p.Fs (Unit {0})
    parquet_writer path overwrite = do run (p.open_file overwrite path); run (p.try_new path)

    -- The builders are taken, and are empty afterwards.
    unfoldable pub write_trades : Text → TradeBatch → Action p.Fs TradeBatch
    write_trades path batch = do
      columns ← lift (ok_or (p.trades_record batch) export_failed)
      run (p.write path columns)
      pure new_trades

    unfoldable pub write_messages : Text → OrderbookBatch → Action p.Fs OrderbookBatch
    write_messages path batch = do
      columns ← lift (ok_or (p.messages_record batch) export_failed)
      run (p.write path columns)
      pure new_messages
