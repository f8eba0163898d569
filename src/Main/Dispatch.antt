-- ===== src/Main/Dispatch.antt =====
-- src/main.rs: what a run of the program comes to, by its command line and its surroundings.
use lighter_timescaledb_inge.Base.{
  Option-cases, inl, inr, arith, ◌≡◌, refl, sym, ap, ◌∙◌, Option, none, some, Result, ok, Action,
  ◌>>=◌, pure, lift, ok_or, ok_or-some, >>=-eq-ok, no_database_url, Text, ok-injective, ◌↔◌,
}
use lighter_timescaledb_inge.External.{Chrono, Serde, Floats}
use lighter_timescaledb_inge.Symbols.{SymbolTable}
use lighter_timescaledb_inge.Export.Files.{Parquet}
use lighter_timescaledb_inge.Export.{export_parquet}
use lighter_timescaledb_inge.Main.{
  ExportCommand, IngestorConfig, Settings, settings, export_args,
  establish_postgres_connection_pool, Started, start, Surroundings, Outcome, exported, ingesting,
  World, on_fs, on_db, run_command, main,
}

module _ ⦃c : Chrono⦄ where
  -- The three settings are there, and they are these.
  pub record AreSettings (args : IngestorConfig) (config : Settings) : Type 0 where
    pub poll_given : args.funding_poll_interval_secs ≡ some config.poll_interval_secs
    pub start_given : args.funding_backfill_start ≡ some config.backfill_start
    pub snapshot_given : args.orderbook_snapshot_interval_secs ≡ some config.snapshot_interval_secs

  settings-AreSettings :
      (args : IngestorConfig) (config : Settings)
      → settings args ≡ ok config
      → AreSettings args config
  unfolding settings
  settings-AreSettings args config h = elim (Option-cases args.funding_poll_interval_secs) [
    | inl missing ↦ absurd (ground arith)
    | inr (poll, e1) ↦ elim (Option-cases args.funding_backfill_start) [
      | inl missing ↦ absurd (ground arith)
      | inr (start, e2) ↦ elim (Option-cases args.orderbook_snapshot_interval_secs) [
        | inl missing ↦ absurd (ground arith)
        | inr (snapshot, e3) ↦
            let e : config ≡ record {
              poll_interval_secs = poll;
              backfill_start = start;
              snapshot_interval_secs = snapshot;
            } =
              ground arith in
            record {
              poll_given = e1 ∙ ap (λ x. some x.poll_interval_secs) (sym e);
              start_given = e2 ∙ ap (λ x. some x.backfill_start) (sym e);
              snapshot_given = e3 ∙ ap (λ x. some x.snapshot_interval_secs) (sym e);
            }
      ]
    ]
  ]

  AreSettings-settings :
      (args : IngestorConfig) (config : Settings)
      → AreSettings args config
      → settings args ≡ ok config
  unfolding settings
  AreSettings-settings args config a = rw (a.poll_given, a.start_given, a.snapshot_given) refl

module _ ⦃c : Chrono⦄ ⦃s : Serde⦄ ⦃f : Floats⦄ ⦃t : SymbolTable⦄ ⦃p : Parquet⦄ where
  -- The program comes to its loops.
  pub record Reaches (env : Surroundings) (args : IngestorConfig) (world world' : World)
      (config : Settings) (started : Started) : Type 0 where
    pub no_command : args.command ≡ none
    pub url : Text
    pub url_set : env.database_url ≡ some url
    pub configured : AreSettings args config
    pub starts :
        start (env.establish_connection url) (env.fetch_order_books args.api_url) world.db
        ≡ (ok started, world'.db)
    pub pooled : establish_postgres_connection_pool env url ≡ ok tt
    pub same_files : world'.fs ≡ world.fs

  run_command-Reaches :
      (env : Surroundings) (args : IngestorConfig) (url : Text) (command : Option ExportCommand)
      (world world' : World) (config : Settings) (started : Started)
      → env.database_url ≡ some url
      → args.command ≡ command
      → run_command env args url command world ≡ (ok (ingesting config started), world')
      → Reaches env args world world' config started
  unfolding run_command
  run_command-Reaches env args url (some command) world world' config started url_eq given h =
      let (_, world1, _, h1) =
        >>=-eq-ok (on_fs (export_parquet (env.client url) (export_args command)))
          (λ _. pure exported) world h in
      absurd (cc)
  run_command-Reaches env args url none world world' config started url_eq given h =
      let end : Settings → Started → Action World Outcome = λ config started.
        lift (establish_postgres_connection_pool env url) >>= λ _.
        pure (ingesting config started) in
      let starting : Action t.Db Started =
        start (env.establish_connection url) (env.fetch_order_books args.api_url) in
      let (config1, world1, settings_eq, h1) =
        >>=-eq-ok (lift (settings args)) (λ config. on_db starting >>= end config) world h in
      let (started1, world2, start_eq, h2) = >>=-eq-ok (on_db starting) (end config1) world1 h1 in
      let (_, world3, pool_eq, h3) =
        >>=-eq-ok (lift (establish_postgres_connection_pool env url))
          (λ _. pure (ingesting config1 started1)) world2 h2 in
      let same1 : world ≡ world1 = ap (λ x. x.1) settings_eq in
      let same3 : world2 ≡ world' = ap (λ x. x.1) pool_eq ∙ ap (λ x. x.1) h3 in
      let at_end : ingesting config1 started1 ≡ ingesting config started =
        ok-injective (ingesting config1 started1) (ingesting config started) (ap (λ x. x.0) h3) in
      let started_eq : started1 ≡ started =
        ap (λ o. elim o [ exported ↦ started | ingesting _ s ↦ s ]) at_end in
      let config_eq : config1 ≡ config =
        ap (λ o. elim o [ exported ↦ config | ingesting c _ ↦ c ]) at_end in
      record {
        no_command = given;
        url = url;
        url_set = url_eq;
        configured = settings-AreSettings args config (ap (λ x. x.0) settings_eq ∙ ap ok config_eq);
        starts =
            ap (λ w. starting w.db) same1
            ∙ ap (λ (x : Result Started × World). (x.0, x.1.db)) start_eq
            ∙ ap (λ s. (ok s, world2.db)) started_eq
            ∙ ap (λ w. (ok started, w.db)) same3;
        pooled = ap (λ x. x.0) pool_eq;
        same_files =
            ap (λ w. w.fs) (sym same3)
            ∙ sym (ap (λ (x : Result Started × World). x.1.fs) start_eq)
            ∙ ap (λ w. w.fs) (sym same1);
      }

  Reaches-main :
      (env : Surroundings) (args : IngestorConfig) (world world' : World) (config : Settings)
      (started : Started)
      → Reaches env args world world' config started
      → main env args world ≡ (ok (ingesting config started), world')
  unfolding main run_command
  Reaches-main env args world world' config started r =
      let end : Settings → Started → Action World Outcome = λ config started.
        lift (establish_postgres_connection_pool env r.url) >>= λ _.
        pure (ingesting config started) in
      let starting : Action t.Db Started =
        start (env.establish_connection r.url) (env.fetch_order_books args.api_url) in
      let middle = record world { db = world'.db } in
      ap
        (λ u.
          (lift (ok_or u no_database_url) >>= λ url. run_command env args url args.command) world)
        r.url_set
      ∙ ap (λ command. run_command env args r.url command world) r.no_command
      ∙ ap (λ x. (lift x >>= λ config. on_db starting >>= end config) world)
          (AreSettings-settings args config r.configured)
      ∙ ap
          (λ (x : Result Started × t.Db).
            ((λ (w : World). (x.0, record world { db = x.1 })) >>= end config) world)
          r.starts
      ∙ ap (λ o. (lift o >>= λ _. pure (ingesting config started)) middle) r.pooled
      ∙ ap (λ fs. (ok (ingesting config started), record world' { fs = fs })) (sym r.same_files)

  -- A run comes to the loops, with these settings and what the start gave, exactly if there is no
  -- command, `DATABASE_URL` and the three settings are set, the start succeeds and the pool is built. The
  -- files are then as they were.
  pub main-ingesting_iff :
      (env : Surroundings) (args : IngestorConfig) (world world' : World) (config : Settings)
      (started : Started)
      → (main env args world ≡ (ok (ingesting config started), world'))
        ↔ Reaches env args world world' config started
  unfolding main
  main-ingesting_iff env args world world' config started = (
    λ h.
        let (url, world1, url_eq, h1) =
          >>=-eq-ok (lift (ok_or env.database_url no_database_url))
            (λ url. run_command env args url args.command) world h in
        run_command-Reaches env args url args.command world world' config started
          (ok_or-some env.database_url no_database_url url (ap (λ x. x.0) url_eq)) refl
          (ap (run_command env args url args.command) (ap (λ x. x.1) url_eq) ∙ h1),
    Reaches-main env args world world' config started,
  )
