-- ===== src/Export/Unknown.antt =====
-- src/export.rs: an export of unknown symbols.
use lighter_timescaledb_inge.Base.{
  ◌≡◌, refl, sym, ap, ◌∙◌, subst, Bool, true, false, not, ◌&&◌, some, List, [], ◌∷◌, Text, text_eq,
  text_eq_iff, Result, ok, err, Action, ◌>>=◌, ◌>>◌, lift, ok_or, export_failed, bail_if,
  if◌then◌else◌, ◌||◌, no_dataset, output_exists, unknown_symbol, Error, arith, inl, inr,
  Bool-cases,
}
use lighter_timescaledb_inge.External.{Chrono, Serde, Floats}
use lighter_timescaledb_inge.Export.Filter.{contains, all_known, symbol_condition}
use lighter_timescaledb_inge.Export.Files.{Parquet, run}
use lighter_timescaledb_inge.Export.{
  Client, ExportArgs, trades_path, orderbooks_path, refuse_existing, export_datasets,
  export_parquet,
}
use lighter_timescaledb_inge.Export.Guards.{behind_guards, is_refused, refuse_existing_lem}

module _ ⦃c : Chrono⦄ ⦃s : Serde⦄ ⦃f : Floats⦄ ⦃p : Parquet⦄ (client : Client)
    (args : ExportArgs) where
  -- A symbol that is asked for and not in the table of symbols.
  unknown-all_known :
      (known names : List Text) (name : Text)
      → contains name names ≡ true
      → contains name known ≡ false
      → all_known known names ≡ false
  unfolding all_known contains
  unknown-all_known known [] name there absent = ground arith
  unknown-all_known known (n ∷ names) name there absent = elim (Bool-cases (text_eq n name)) [
    | inl same ↦
        let unknown : contains n known ≡ false =
          subst (λ x. contains x known ≡ false) (sym ((text_eq_iff n name).0 same)) absent in
        rw unknown refl
    | inr differs ↦
        let rest = unknown-all_known known names name (ground (arith, there, differs)) absent in
        ground (arith, rest)
  ]

  symbol_condition-unknown :
      (names known : List Text) (name : Text)
      → client.select_names names ≡ some known
      → contains name names ≡ true
      → contains name known ≡ false
      → symbol_condition client.select_names names ≡ err unknown_symbol
  unfolding symbol_condition contains
  symbol_condition-unknown [] known name answer there absent = ground arith
  symbol_condition-unknown (n ∷ names) known name answer there absent =
      rw (answer, unknown-all_known known (n ∷ names) name there absent) refl

  -- A step that changes nothing, before one that fails and changes nothing.
  then_fails :
      {A : Type 0} (m : Action p.Fs (Unit {0})) (k : Action p.Fs A) (fs : p.Fs)
      (r : Result (Unit {0}))
      → m fs ≡ (r, fs)
      → (e : Error) × (k fs ≡ (err e, fs))
      → (e : Error) × ((m >>= λ _. k) fs ≡ (err e, fs))
  then_fails m k fs (ok tt) h (e, fails) = (e, ap (λ x. ((λ _. x) >>= λ _. k) fs) h ∙ fails)
  then_fails m k fs (err e) h fails = (e, ap (λ x. ((λ _. x) >>= λ _. k) fs) h)

  bail_if-result :
      (b : Bool) (e : Error) (fs : p.Fs) → (r : Result (Unit {0})) × (bail_if b e fs ≡ (r, fs))
  bail_if-result true e fs = (err e, refl)
  bail_if-result false e fs = (ok tt, refl)

  -- If a symbol is asked for that the answer of Postgres does not name, the export fails and changes
  -- nothing.
  pub export_parquet-unknown :
      (fs : p.Fs) (known : List Text) (name : Text)
      → client.select_names args.symbols ≡ some known
      → contains name args.symbols ≡ true
      → contains name known ≡ false
      → (e : Error) × (export_parquet client args fs ≡ (err e, fs))
  unfolding export_parquet
  export_parquet-unknown fs known name answer there absent =
      let write_all : Text → Action p.Fs (Unit {0}) =
        λ condition. run p.create_dir_all >> export_datasets client args condition in
      let ask : Action p.Fs (Unit {0}) =
        lift (symbol_condition client.select_names args.symbols) >>= write_all in
      let unknown = symbol_condition-unknown args.symbols known name answer there absent in
      let ask_fails : ask fs ≡ (err unknown_symbol, fs) =
        ap (λ r. (lift r >>= write_all) fs) unknown in
      let (chosen, chosen_eq) =
        bail_if-result (not args.trades && not args.orderbooks) no_dataset fs in
      then_fails (bail_if (not args.trades && not args.orderbooks) no_dataset)
        (refuse_existing args >> behind_guards client args) fs chosen chosen_eq
        (then_fails (refuse_existing args) (behind_guards client args) fs
          (if is_refused client args args.trades trades_path fs
              || is_refused client args args.orderbooks orderbooks_path fs
            then err output_exists
            else ok tt)
          (refuse_existing_lem client args fs)
          (then_fails (lift (ok_or client.connect export_failed)) ask fs
            (ok_or client.connect export_failed) refl (unknown_symbol, ask_fails)))
