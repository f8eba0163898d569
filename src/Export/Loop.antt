-- ===== src/Export/Loop.antt =====
-- src/export.rs: the loop of an export, which fills a batch and writes it when it is full.
pub mod Groups
use lighter_timescaledb_inge.Base.{
  ℕ, Option, none, some, List, [], ◌∷◌, ◌==◌, Result, export_failed, Action, ◌>>=◌, ◌>>◌, pure,
  lift, fail, if◌then◌else◌,
}

-- `BATCH_SIZE`
abbrev pub batch_size : ℕ
batch_size = 8192

-- `batch.push(&row)?` may fail; `batch.write(..)?` gives the batch that it leaves behind.
module _ {ℓ κ μ} {Row : Type ℓ} {Batch : Type κ} {Fs : Type μ} (size : ℕ) (len : Batch → ℕ)
    (push : Row → Batch → Result Batch) (write : Batch → Action Fs Batch) where
  -- `if batch.len() == BATCH_SIZE { batch.write(..)? }`
  abbrev pub write_full : Batch → Action Fs Batch
  write_full batch = if len batch == size then write batch else pure batch

  -- `if !batch.is_empty() { batch.write(..)? }`
  abbrev pub write_last : Batch → Action Fs (Unit {0})
  write_last batch = if len batch == 0 then pure tt else (write batch >>= λ _. pure tt)

  -- One round for each row that the query gives; `none` is a failure of `rows.next()`.
  unfoldable pub export_loop : Batch → List (Option Row) → Action Fs (Unit {0})
  export_loop batch [] = write_last batch
  export_loop batch (none ∷ rows) = fail export_failed
  export_loop batch (some row ∷ rows) = do
    pushed ← lift (push row batch)
    next ← write_full pushed
    export_loop next rows
