-- ===== src/Export/Frame.antt =====
-- src/export.rs: the files that an action leaves alone, whether it succeeds or fails.
use lighter_timescaledb_inge.Base.{
  ℕ, ◌≡◌, refl, ◌∙◌, Bool, true, false, Option, none, some, List, [], ◌∷◌, Text, text_eq, Result,
  ok, err, Action, ◌>>=◌, ◌>>◌, lift, pure, bail_if, Error, ok_or, export_failed, if◌then◌else◌,
  ◌==◌,
}
use lighter_timescaledb_inge.External.{Chrono, Serde, Floats}
use lighter_timescaledb_inge.Export.Rows.{
  new_trades, new_messages, trades_len, push_trade, messages_len, push_message,
}
use lighter_timescaledb_inge.Export.Files.{
  Parquet, run, parquet_writer, write_trades, write_messages,
}
use lighter_timescaledb_inge.Export.Loop.{batch_size, export_loop, write_full, write_last}
use lighter_timescaledb_inge.Export.{
  Client, trades_path, orderbooks_path, trades_sql, orderbooks_sql, trades_rows, orderbooks_rows,
  export_trades, export_orderbooks, when,
}

module _ ⦃c : Chrono⦄ ⦃s : Serde⦄ ⦃f : Floats⦄ ⦃p : Parquet⦄ (other : Text) where
  abbrev pub Keeps {ℓ} : {A : Type ℓ} → Action p.Fs A → Type 0
  Keeps m = (fs : p.Fs) → p.file (m fs).1 other ≡ p.file fs other

  pub Keeps-bind {ℓ κ} :
      {A : Type ℓ} {B : Type κ} (m : Action p.Fs A) (k : A → Action p.Fs B)
      → Keeps m
      → ((a : A) → Keeps (k a))
      → Keeps (m >>= k)
  Keeps-bind {A} m k hm hk fs = by_result (m fs) ∙ hm fs
    where
      by_result : (r : Result A × p.Fs) → p.file (((λ _. r) >>= k) fs).1 other ≡ p.file r.1 other
      by_result (ok a, fs1) = hk a fs1
      by_result (err e, fs1) = refl

  pub Keeps-run :
      (operation : p.Fs → Option (Unit {0}) × p.Fs)
      → ((fs : p.Fs) → p.file (operation fs).1 other ≡ p.file fs other)
      → Keeps (run operation)
  unfolding run
  Keeps-run operation h fs = h fs

  pub Keeps-bail_if : (b : Bool) (e : Error) → Keeps (bail_if b e)
  Keeps-bail_if true e fs = refl
  Keeps-bail_if false e fs = refl

  pub Keeps-when : (b : Bool) (m : Action p.Fs (Unit {0})) → (b ≡ true → Keeps m) → Keeps (when b m)
  Keeps-when true m h fs = h refl fs
  Keeps-when false m h fs = refl

  module _ {ℓ κ} {Row : Type ℓ} {Batch : Type κ} (size : ℕ) (len : Batch → ℕ)
      (push : Row → Batch → Result Batch) (write : Batch → Action p.Fs Batch)
      (write-Keeps : (batch : Batch) → Keeps (write batch)) where
    write_full-Keeps : (batch : Batch) → Keeps (write_full size len push write batch)
    write_full-Keeps batch = by_test (len batch == size)
      where
        by_test : (b : Bool) → Keeps (if b then write batch else pure batch)
        by_test true fs = write-Keeps batch fs
        by_test false fs = refl

    write_last-Keeps : (batch : Batch) → Keeps (write_last size len push write batch)
    write_last-Keeps batch = by_test (len batch == 0)
      where
        by_test :
            (b : Bool)
            → Keeps {A = Unit {0}} (if b then pure tt else (write batch >>= λ _. pure tt))
        by_test true fs = refl
        by_test false fs =
            Keeps-bind (write batch) (λ _. pure tt) (write-Keeps batch) (λ _ fs. refl) fs

    export_loop-Keeps :
        (rows : List (Option Row)) (batch : Batch)
        → Keeps (export_loop size len push write batch rows)
    unfolding export_loop
    export_loop-Keeps [] batch fs = write_last-Keeps batch fs
    export_loop-Keeps (none ∷ rows) batch fs = refl
    export_loop-Keeps (some row ∷ rows) batch fs =
        Keeps-bind (lift (push row batch))
          (λ pushed. write_full size len push write pushed >>= λ next.
            export_loop size len push write next rows)
          (λ fs. refl)
          (λ pushed.
            Keeps-bind (write_full size len push write pushed)
              (λ next. export_loop size len push write next rows) (write_full-Keeps pushed)
              λ next. export_loop-Keeps rows next)
          fs

  parquet_writer-Keeps :
      (path : Text) (overwrite : Bool)
      → text_eq path other ≡ false
      → Keeps (parquet_writer path overwrite)
  unfolding parquet_writer
  parquet_writer-Keeps path overwrite h =
      Keeps-bind (run (p.open_file overwrite path)) (λ _. run (p.try_new path))
        (Keeps-run (p.open_file overwrite path) λ fs. p.open-others overwrite path other fs h)
        (λ _. Keeps-run (p.try_new path) λ fs. p.try_new-others path other fs h)

  write_columns-Keeps {ℓ} :
      (path : Text) {Batch : Type ℓ} (columns : Option p.RecordBatch) (rest : Batch)
      → text_eq path other ≡ false
      → Keeps (lift (ok_or columns export_failed) >>= λ b. (run (p.write path b) >> pure rest))
  write_columns-Keeps path none rest h fs = refl
  write_columns-Keeps path (some b) rest h fs =
      Keeps-bind (run (p.write path b)) (λ _. pure rest)
        (Keeps-run (p.write path b) λ fs. p.write-others path other b fs h) (λ _ fs. refl) fs

  -- A dataset behind its writer: the query, the loop, and the closing of the file.
  rows-Keeps :
      {Row : Type 0} (path : Text) (rows : Option (List (Option Row)))
      (loop : List (Option Row) → Action p.Fs (Unit {0}))
      → text_eq path other ≡ false
      → ((rows : List (Option Row)) → Keeps (loop rows))
      → Keeps (lift (ok_or rows export_failed) >>= λ rows. (loop rows >> run (p.close path)))
  rows-Keeps path none loop h hl fs = refl
  rows-Keeps path (some rows) loop h hl fs =
      Keeps-bind (loop rows) (λ _. run (p.close path)) (hl rows)
        (λ _. Keeps-run (p.close path) λ fs. p.close-others path other fs h) fs

  pub export_trades-Keeps :
      (client : Client) (filter : Text) (overwrite : Bool)
      → text_eq trades_path other ≡ false
      → Keeps (export_trades client filter overwrite)
  unfolding export_trades trades_rows write_trades
  export_trades-Keeps client filter overwrite h =
      Keeps-bind (parquet_writer trades_path overwrite) (λ _. trades_rows client filter)
        (parquet_writer-Keeps trades_path overwrite h)
        λ _.
          rows-Keeps trades_path (client.query_trades (trades_sql filter))
            (export_loop batch_size trades_len push_trade (write_trades trades_path) new_trades) h
            λ rows.
              export_loop-Keeps batch_size trades_len push_trade (write_trades trades_path)
                (λ batch. write_columns-Keeps trades_path (p.trades_record batch) new_trades h) rows
                new_trades

  pub export_orderbooks-Keeps :
      (client : Client) (filter : Text) (overwrite : Bool)
      → text_eq orderbooks_path other ≡ false
      → Keeps (export_orderbooks client filter overwrite)
  unfolding export_orderbooks orderbooks_rows write_messages
  export_orderbooks-Keeps client filter overwrite h =
      Keeps-bind (parquet_writer orderbooks_path overwrite) (λ _. orderbooks_rows client filter)
        (parquet_writer-Keeps orderbooks_path overwrite h)
        λ _.
          rows-Keeps orderbooks_path (client.query_orderbooks (orderbooks_sql filter))
            (export_loop batch_size messages_len push_message (write_messages orderbooks_path)
              new_messages)
            h
            λ rows.
              export_loop-Keeps batch_size messages_len push_message
                (write_messages orderbooks_path)
                (λ batch.
                  write_columns-Keeps orderbooks_path (p.messages_record batch) new_messages h)
                rows new_messages
