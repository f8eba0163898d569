-- ===== src/Export/Guards.antt =====
-- src/export.rs: which files an export touches, and those it keeps.
use lighter_timescaledb_inge.Base.{
  ◌≡◌, refl, sym, ap, ◌∙◌, subst, Bool, true, false, not, ◌&&◌, none, some, Text, text_eq,
  text_eq_iff, codes, ok, err, Action, ◌>>=◌, ◌>>◌, lift, ok_or, export_failed, bail_if,
  if◌then◌else◌, ◌||◌, no_dataset, output_exists, Error, gets, arith, inl, inr, Bool-cases,
}
use lighter_timescaledb_inge.External.{Chrono, Serde, Floats}
use lighter_timescaledb_inge.Export.Filter.{symbol_condition, where_clause}
use lighter_timescaledb_inge.Export.Files.{File, Parquet, run, exists}
use lighter_timescaledb_inge.Export.Frame.{
  Keeps, Keeps-bind, Keeps-run, Keeps-bail_if, Keeps-when, export_trades-Keeps,
  export_orderbooks-Keeps,
}
use lighter_timescaledb_inge.Export.{
  Client, ExportArgs, trades_path, orderbooks_path, export_trades, export_orderbooks, when,
  refuse_existing, export_datasets, export_parquet,
}

module _ ⦃c : Chrono⦄ ⦃s : Serde⦄ ⦃f : Floats⦄ ⦃p : Parquet⦄ (client : Client)
    (args : ExportArgs) where
  abbrev pub trades_filter : Text → Text
  trades_filter condition = where_clause condition args.hours (codes "t.time")

  abbrev pub orderbooks_filter : Text → Text
  orderbooks_filter condition = where_clause condition args.hours (codes "o.time")

  abbrev pub trades_part : Text → Action p.Fs (Unit {0})
  trades_part condition =
      when args.trades (export_trades client (trades_filter condition) args.overwrite)

  abbrev pub orderbooks_part : Text → Action p.Fs (Unit {0})
  orderbooks_part condition =
      when args.orderbooks (export_orderbooks client (orderbooks_filter condition) args.overwrite)

  -- What stands behind the guards.
  abbrev pub behind_guards : Action p.Fs (Unit {0})
  behind_guards = do
    lift (ok_or client.connect export_failed)
    condition ← lift (symbol_condition client.select_names args.symbols)
    run p.create_dir_all
    export_datasets client args condition

  -- The path is not that of a selected dataset.
  abbrev IsUnselected : Text → Type 0
  IsUnselected path =
      (args.trades ≡ true → text_eq trades_path path ≡ false)
      × (args.orderbooks ≡ true → text_eq orderbooks_path path ≡ false)

  export_datasets-Keeps :
      (path condition : Text)
      → IsUnselected path
      → Keeps path (export_datasets client args condition)
  unfolding export_datasets
  export_datasets-Keeps path condition h =
      Keeps-bind path (trades_part condition) (λ _. orderbooks_part condition)
        (Keeps-when path args.trades (export_trades client (trades_filter condition) args.overwrite)
          λ selected.
            export_trades-Keeps path client (trades_filter condition) args.overwrite (h.0 selected))
        λ _.
          Keeps-when path args.orderbooks
            (export_orderbooks client (orderbooks_filter condition) args.overwrite)
            λ selected.
              export_orderbooks-Keeps path client (orderbooks_filter condition) args.overwrite
                (h.1 selected)

  -- A selected dataset would be refused for this path.
  abbrev pub is_refused : Bool → Text → p.Fs → Bool
  is_refused selected path fs = not args.overwrite && selected && exists path fs

  pub refuse_existing_lem :
      (fs : p.Fs)
      → refuse_existing args fs ≡ (
        if is_refused args.trades trades_path fs || is_refused args.orderbooks orderbooks_path fs
            then err output_exists
            else ok tt,
        fs,
      )
  unfolding refuse_existing
  refuse_existing_lem fs = by_test (is_refused args.trades trades_path fs)
    where
      bail : (b : Bool) → bail_if b output_exists fs ≡ (if b then err output_exists else ok tt, fs)
      bail true = refl
      bail false = refl

      by_test :
          (b : Bool)
          → (bail_if b output_exists >>= λ _. gets (exists orderbooks_path) >>= λ there.
                bail_if (not args.overwrite && args.orderbooks && there) output_exists)
              fs
            ≡ (
              if b || is_refused args.orderbooks orderbooks_path fs
                  then err output_exists
                  else ok tt,
              fs,
            )
      by_test true = refl
      by_test false = bail (is_refused args.orderbooks orderbooks_path fs)

  -- Whatever an export meets, a file that is not that of a selected dataset stays as it is.
  pub export_parquet-others :
      (path : Text)
      → IsUnselected path
      → (fs : p.Fs) → p.file (export_parquet client args fs).1 path ≡ p.file fs path
  unfolding export_parquet
  export_parquet-others path h =
      Keeps-bind path (bail_if (not args.trades && not args.orderbooks) no_dataset)
        (λ _. refuse_existing args >> behind_guards)
        (Keeps-bail_if path (not args.trades && not args.orderbooks) no_dataset)
        λ _.
          Keeps-bind path (refuse_existing args) (λ _. behind_guards)
            (λ fs. ap (λ x. p.file x.1 path) (refuse_existing_lem fs))
            λ _.
              Keeps-bind path (lift (ok_or client.connect export_failed))
                (λ _. lift (symbol_condition client.select_names args.symbols) >>= λ condition.
                  (run p.create_dir_all >> export_datasets client args condition))
                (λ fs. refl)
                λ _.
                  Keeps-bind path (lift (symbol_condition client.select_names args.symbols))
                    (λ condition. run p.create_dir_all >> export_datasets client args condition)
                    (λ fs. refl)
                    λ condition.
                      Keeps-bind path (run p.create_dir_all)
                        (λ _. export_datasets client args condition)
                        (Keeps-run path p.create_dir_all λ fs. p.create_dir-files fs path)
                        λ _. export_datasets-Keeps path condition h

  -- A request that is refused touches nothing.
  refused :
      (fs : p.Fs)
      → (is_refused args.trades trades_path fs || is_refused args.orderbooks orderbooks_path fs)
        ≡ true
      → (e : Error) × (export_parquet client args fs ≡ (err e, fs))
  unfolding export_parquet
  refused fs h = by_selection (not args.trades && not args.orderbooks)
    where
      by_selection :
          (b : Bool)
          → (e : Error) × ((bail_if b no_dataset >>= λ _. refuse_existing args >> behind_guards) fs
              ≡ (err e, fs))
      by_selection true = (no_dataset, refl)
      by_selection false = (
        output_exists,
        ap (λ r. ((λ _. r) >> behind_guards) fs) {y = (err output_exists, fs)}
            (refuse_existing_lem fs ∙ ap (λ b. (if b then err output_exists else ok tt, fs)) h),
      )

  -- Without `overwrite`, whatever the export meets, every file that was there stays as it is.
  pub export_parquet-keeps :
      (fs : p.Fs) (path : Text) (file : File p.RecordBatch)
      → args.overwrite ≡ false
      → p.file fs path ≡ some file
      → p.file (export_parquet client args fs).1 path ≡ some file
  unfolding exists
  export_parquet-keeps fs path file no_overwrite there =
      elim (Bool-cases
        (is_refused args.trades trades_path fs || is_refused args.orderbooks orderbooks_path fs)) [
          | inl refuse ↦ ap (λ x. p.file x.1 path) (refused fs refuse).1 ∙ there
          | inr pass ↦
              export_parquet-others path
                (
                  unrefused args.trades trades_path (ground (arith, pass)),
                  unrefused args.orderbooks orderbooks_path (ground (arith, pass)),
                )
                fs
              ∙ there
        ]
    where
      exists-there : exists path fs ≡ true
      exists-there = ap (λ o. elim o [ none ↦ false | some file ↦ true ]) there

      unrefused :
          (selected : Bool) (target : Text)
          → is_refused selected target fs ≡ false
          → selected ≡ true
          → text_eq target path ≡ false
      unrefused selected target free is_selected = elim (Bool-cases (text_eq target path)) [
        | inl same ↦
            let here : exists target fs ≡ true =
              subst (λ t. exists t fs ≡ true) (sym ((text_eq_iff target path).0 same))
                exists-there in
            absurd (ground (arith, here, free, is_selected, no_overwrite))
        | inr differs ↦ differs
      ]
