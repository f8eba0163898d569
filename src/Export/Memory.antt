-- ===== src/Export/Memory.antt =====
-- A file system in memory, for the examples: every operation succeeds but the creation of a file that
-- is there.
use lighter_timescaledb_inge.Base.{
  ◌≡◌, refl, ap, sym, ◌∙◌, Bool, true, false, not, ◌&&◌, Option, none, some, [], ◌∷◌, ◌++◌, Text,
  text_eq, text_eq_iff, ◌⊎◌, inl, inr, if◌then◌else◌,
}
use lighter_timescaledb_inge.Instances.{year_chrono, sample_serde, text_floats}
use lighter_timescaledb_inge.Export.Rows.{TradeBatch, OrderbookBatch}
use lighter_timescaledb_inge.Export.Files.{File, Parquet}

abbrev pub Columns : Type 0
Columns = TradeBatch ⊎ OrderbookBatch

abbrev pub Files : Type 0
Files = Text → Option (File Columns)

abbrev pub Done : Type 0
Done = Option (Unit {0}) × Files

abbrev pub set_file : Text → File Columns → Files → Files
set_file path file fs other = if text_eq path other then some file else fs other

-- A change of the file at the path, if it is there.
abbrev pub change_file : (File Columns → File Columns) → Text → Files → Option (File Columns) → Done
change_file g path fs none = (none, fs)
change_file g path fs (some file) = (some tt, set_file path (g file) fs)

abbrev pub open_if : Bool → Text → Files → Done
open_if true path fs = (none, fs)
open_if false path fs = (some tt, set_file path (record { batches = []; closed = false }) fs)

abbrev pub is_there : Option (File Columns) → Bool
is_there none = false
is_there (some file) = true

abbrev pub add_batch : Columns → File Columns → File Columns
add_batch batch file = record file { batches = file.batches ++ batch ∷ [] }

abbrev pub end_file : File Columns → File Columns
end_file file = record file { closed = true }

pub set_file-other :
    (path other : Text) (file : File Columns) (fs : Files)
    → text_eq path other ≡ false
    → set_file path file fs other ≡ fs other
set_file-other path other file fs h = rw h refl

pub set_file-same :
    (path : Text) (file : File Columns) (fs : Files) → set_file path file fs path ≡ some file
set_file-same path file fs = rw ((text_eq_iff path path).1 refl) refl

pub change_file-other :
    (g : File Columns → File Columns) (path other : Text) (fs : Files) (o : Option (File Columns))
    → text_eq path other ≡ false
    → (change_file g path fs o).1 other ≡ fs other
change_file-other g path other fs none h = refl
change_file-other g path other fs (some file) h = set_file-other path other (g file) fs h

pub change_file-same :
    (g : File Columns → File Columns) (path : Text) (fs fs' : Files) (file : File Columns)
    → fs path ≡ some file
    → ◌≡◌ {A = Done} (change_file g path fs (fs path)) (some tt, fs')
    → fs' path ≡ some (g file)
change_file-same g path fs fs' file there h =
    sym (ap (λ (x : Done). x.1 path) h)
    ∙ ap (λ o. (change_file g path fs o).1 path) there
    ∙ set_file-same path (g file) fs

pub open_if-other :
    (b : Bool) (path other : Text) (fs : Files)
    → text_eq path other ≡ false
    → (open_if b path fs).1 other ≡ fs other
open_if-other true path other fs h = refl
open_if-other false path other fs h =
    set_file-other path other (record { batches = []; closed = false }) fs h

pub open_if-same :
    (b : Bool) (path : Text) (fs fs' : Files)
    → ◌≡◌ {A = Done} (open_if b path fs) (some tt, fs')
    → fs' path ≡ some (record { batches = []; closed = false })
open_if-same true path fs fs' h = absurd (cc)
open_if-same false path fs fs' h =
    sym (ap (λ (x : Done). x.1 path) h)
    ∙ set_file-same path (record { batches = []; closed = false }) fs

instance abbrev pub memory_files : Parquet
memory_files = record {
  Fs = Files;
  RecordBatch = Columns;
  file = λ fs path. fs path;
  trades_record = λ batch. some (inl batch);
  messages_record = λ batch. some (inr batch);
  create_dir_all = λ fs. (some tt, fs);
  open_file = λ overwrite path fs. open_if (not overwrite && is_there (fs path)) path fs;
  try_new = λ path fs. (some tt, fs);
  write = λ path batch fs. change_file (add_batch batch) path fs (fs path);
  close = λ path fs. change_file end_file path fs (fs path);
  create_dir-files = λ fs path. refl;
  open-others = λ overwrite path other fs h.
      open_if-other (not overwrite && is_there (fs path)) path other fs h;
  try_new-others = λ path other fs h. refl;
  write-others =
      λ path other batch fs h. change_file-other (add_batch batch) path other fs (fs path) h;
  close-others = λ path other fs h. change_file-other end_file path other fs (fs path) h;
  opened =
      λ overwrite path fs fs' h. open_if-same (not overwrite && is_there (fs path)) path fs fs' h;
  started = λ path fs fs' h. sym (ap (λ (x : Done). x.1 path) h);
  written = λ path batch fs fs' batches there h.
      change_file-same (add_batch batch) path fs fs' (record { batches = batches; closed = false })
        there h;
  closed = λ path fs fs' batches there h.
      change_file-same end_file path fs fs' (record { batches = batches; closed = false }) there h;
}
