-- ===== src/Symbols/Sync.antt =====
-- src/main.rs: what `sync_symbols` does to the table of symbols.
use lighter_timescaledb_inge.Base.{
  ◌≡◌, refl, sym, ap, ◌∙◌, subst, Bool, true, false, not, Option, none, some, List, [], ◌∷◌, Text,
  All, is_empty, arith, Error, ok, err, Action, ◌>>◌, bail_if, >>=-eq-ok, ok_or-eq-ok,
  if◌then◌else◌, database_failed, bad_market_code, no_market_listed, bad_market_type,
}
use lighter_timescaledb_inge.Base.Int.{ℤ, pos, ◌==ℤ◌, ==ℤ_iff}
use lighter_timescaledb_inge.Wire.Market.{OrderBookInfo, OrderBooksResponse}
use lighter_timescaledb_inge.Models.{Symbol, NewSymbol}
use lighter_timescaledb_inge.Symbols.{
  find_symbol, upsert_rows, SymbolTable, all_supported, upsert_symbol, sync_all, sync_symbols,
}
use lighter_timescaledb_inge.Symbols.Upsert.{
  IsKeyed, id_of, upserted_row, find_symbol-upsert, id_of-upsert, upsert-there, upsert_rows-IsKeyed,
}

-- The last listed market with this number.
unfoldable pub last_listed : ℤ → List OrderBookInfo → Option OrderBookInfo
last_listed id [] = none
last_listed id (market ∷ markets) = elim (last_listed id markets) [
  | none ↦ if market.market_id ==ℤ id then some market else none
  | some m ↦ some m
]

-- The name and type in the row of a market.
abbrev pub name_of : Option Symbol → Option (Text × Text)
name_of none = none
name_of (some row) = some (row.name, row.market_type)

abbrev pub name_after : Option OrderBookInfo → Option (Text × Text) → Option (Text × Text)
name_after none old = old
name_after (some market) old = some (market.symbol, market.market_type)

-- The table `new` is `old` with the listed markets: each has a row with the name and type that are
-- listed last for it, no other row is changed, every market keeps its `id`, and the keys stay unique.
pub record Synced (markets : List OrderBookInfo) (old new : List Symbol) : Type 0 where
  pub named :
      (id : ℤ)
      → name_of (find_symbol id new)
        ≡ name_after (last_listed id markets) (name_of (find_symbol id old))
  pub covered :
      All (λ (m : OrderBookInfo). (i : ℤ) × (id_of (find_symbol m.market_id new) ≡ some i)) markets
  pub kept : (id i : ℤ) → id_of (find_symbol id old) ≡ some i → id_of (find_symbol id new) ≡ some i
  pub keyed : IsKeyed old → IsKeyed new

Synced-none : (rows : List Symbol) → Synced [] rows rows
unfolding last_listed
Synced-none rows = record { named = λ id. refl; covered = tt; kept = λ id i h. h; keyed = λ h. h }

-- One upsert before the others.
Synced-add :
    (market : OrderBookInfo) (markets : List OrderBookInfo) (id : ℤ) (old new : List Symbol)
    → (find_symbol market.market_id old ≡ none
        → All (λ (row : Symbol). (row.id ==ℤ id) ≡ false) old)
    → Synced markets
        (upsert_rows
          (record {
            name = market.symbol;
            market_type = market.market_type;
            lighter_market_id = market.market_id;
          })
          id
          old)
        new
    → Synced (market ∷ markets) old new
unfolding last_listed
Synced-add market markets id old new fresh rest = record {
  named = λ j. rest.named j ∙ name_added j (last_listed j markets);
  covered = (
    (
      (upsert-there row id old).0,
      rest.kept market.market_id (upsert-there row id old).0 (upsert-there row id old).1,
    ),
    rest.covered,
  );
  kept = λ j i h. rest.kept j i (id_of-upsert row id j i old h);
  keyed = λ h. rest.keyed (upsert_rows-IsKeyed row id old h fresh);
}
  where
    row : NewSymbol
    row = record {
      name = market.symbol;
      market_type = market.market_type;
      lighter_market_id = market.market_id;
    }

    name_if :
        (b : Bool) (o : Option Symbol)
        → name_of (if b then some (upserted_row row id o) else o)
          ≡ name_after (if b then some market else none) (name_of o)
    name_if true none = refl
    name_if true (some r) = refl
    name_if false o = refl

    name_added :
        (j : ℤ) (l : Option OrderBookInfo)
        → name_after l (name_of (find_symbol j (upsert_rows row id old)))
          ≡ name_after
              (elim l [
                | none ↦ if market.market_id ==ℤ j then some market else none
                | some m ↦ some m
              ])
              (name_of (find_symbol j old))
    name_added j none =
        ap name_of (find_symbol-upsert row id j old)
        ∙ name_if (market.market_id ==ℤ j) (find_symbol j old)
    name_added j (some m) = refl

module _ ⦃t : SymbolTable⦄ where
  upsert_symbol-eq-ok :
      (new : NewSymbol) (id : ℤ) (db db' : t.Db)
      → upsert_symbol new.name new.market_type new.lighter_market_id db ≡ (ok id, db')
      → t.execute_upsert new db ≡ (some id, db')
  unfolding upsert_symbol
  upsert_symbol-eq-ok new id db db' h =
      ok_or-eq-ok (t.execute_upsert new db) database_failed id db' h

  sync_all_lem :
      (markets : List OrderBookInfo) (db db' : t.Db)
      → sync_all markets db ≡ (ok tt, db')
      → Synced markets (t.symbols db) (t.symbols db')
  unfolding sync_all
  sync_all_lem [] db db' h =
      subst (λ x. Synced [] (t.symbols db) (t.symbols x)) (ap (λ x. x.1) h)
        (Synced-none (t.symbols db))
  sync_all_lem (market ∷ markets) db db' h =
      let new : NewSymbol = record {
        name = market.symbol;
        market_type = market.market_type;
        lighter_market_id = market.market_id;
      } in
      let (id, db1, upsert_eq, rest_eq) =
        >>=-eq-ok (upsert_symbol market.symbol market.market_type market.market_id)
          (λ _. sync_all markets) db h in
      let (rows_eq, fresh) =
        t.upserted new id db db1 (upsert_symbol-eq-ok new id db db1 upsert_eq) in
      Synced-add market markets id (t.symbols db) (t.symbols db') fresh (
        subst (λ rows. Synced markets rows (t.symbols db')) rows_eq
          (sync_all_lem markets db1 db' rest_eq))

  -- A sync that succeeds was answered with markets, all of a known type, and code 200, and the table
  -- then holds them: each has a row with the name and type that are listed last for it, no other row
  -- is changed, every market keeps its `id`, and the keys stay unique.
  pub sync_symbols_lem :
      (reply : Option OrderBooksResponse) (db db' : t.Db)
      → sync_symbols reply db ≡ (ok tt, db')
      → (resp : OrderBooksResponse) × (reply ≡ some resp)
        × (resp.code ≡ pos 200)
        × (is_empty resp.order_books ≡ false)
        × (all_supported resp.order_books ≡ true)
        × Synced resp.order_books (t.symbols db) (t.symbols db')
  unfolding sync_symbols
  sync_symbols_lem none db db' h = absurd (cc)
  sync_symbols_lem (some resp) db db' h =
      let write : Action t.Db (Unit {0}) = t.transaction (sync_all resp.order_books) in
      let types : Action t.Db (Unit {0}) =
        bail_if (not (all_supported resp.order_books)) bad_market_type in
      let listed : Action t.Db (Unit {0}) = bail_if (is_empty resp.order_books) no_market_listed in
      let code : Action t.Db (Unit {0}) = bail_if (not (resp.code ==ℤ pos 200)) bad_market_code in
      let (_, db1, code_eq, h1) = >>=-eq-ok code (λ _. listed >> (types >> write)) db h in
      let (_, db2, listed_eq, h2) = >>=-eq-ok listed (λ _. types >> write) db1 h1 in
      let (_, db3, types_eq, h3) = >>=-eq-ok types (λ _. write) db2 h2 in
      let (code_ok, at1) = passed (not (resp.code ==ℤ pos 200)) bad_market_code db db1 code_eq in
      let (listed_ok, at2) =
        passed (is_empty resp.order_books) no_market_listed db1 db2 listed_eq in
      let (types_ok, at3) =
        passed (not (all_supported resp.order_books)) bad_market_type db2 db3 types_eq in
      let (start, end, start_eq, body_eq, end_eq) =
        t.committed (sync_all resp.order_books) db3 db' h3 in
      let start_rows : t.symbols start ≡ t.symbols db = start_eq ∙ ap t.symbols (at3 ∙ at2 ∙ at1) in
      (
        resp,
        refl,
        ground (arith, code_ok, ==ℤ_iff resp.code (pos 200)),
        listed_ok,
        ground (arith, types_ok),
        subst (λ l. Synced resp.order_books l (t.symbols db')) start_rows
            (subst (Synced resp.order_books (t.symbols start)) (sym end_eq)
              (sync_all_lem resp.order_books start end body_eq)),
      )
    where
      passed :
          (b : Bool) (e : Error) (db db' : t.Db)
          → bail_if b e db ≡ (ok tt, db')
          → (b ≡ false) × (db' ≡ db)
      passed true e db db' h = absurd (cc)
      passed false e db db' h = (refl, sym (ap (λ x. x.1) h))

  -- An action that fails without a trace.
  abbrev Atomic : Action t.Db (Unit {0}) → Type 0
  Atomic m = (e : Error) (db db' : t.Db) → m db ≡ (err e, db') → t.symbols db' ≡ t.symbols db

  bail_if-Atomic :
      (b : Bool) (e : Error) (m : Action t.Db (Unit {0})) → Atomic m → Atomic (bail_if b e >> m)
  bail_if-Atomic true e m atomic f db db' h = ap t.symbols (sym (ap (λ x. x.1) h))
  bail_if-Atomic false e m atomic f db db' h = atomic f db db' h

  -- A sync that fails, for whatever reason, leaves the table as it was.
  pub sync_symbols-error :
      (reply : Option OrderBooksResponse) (e : Error) (db db' : t.Db)
      → sync_symbols reply db ≡ (err e, db')
      → t.symbols db' ≡ t.symbols db
  unfolding sync_symbols
  sync_symbols-error none e db db' h = ap t.symbols (sym (ap (λ x. x.1) h))
  sync_symbols-error (some resp) e db db' h =
      let write : Action t.Db (Unit {0}) = t.transaction (sync_all resp.order_books) in
      let types : Action t.Db (Unit {0}) =
        bail_if (not (all_supported resp.order_books)) bad_market_type >> write in
      let listed : Action t.Db (Unit {0}) =
        bail_if (is_empty resp.order_books) no_market_listed >> types in
      bail_if-Atomic (not (resp.code ==ℤ pos 200)) bad_market_code listed
        (bail_if-Atomic (is_empty resp.order_books) no_market_listed types (
          bail_if-Atomic (not (all_supported resp.order_books)) bad_market_type write
            (λ e db db' h. t.rolled_back (sync_all resp.order_books) e db db' h)))
        e db db' h
