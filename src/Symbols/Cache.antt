-- ===== src/Symbols/Cache.antt =====
-- src/lib.rs: the cache that is loaded from the table of symbols.
use lighter_timescaledb_inge.Base.{
  ◌≡◌, ◌≢◌, refl, sym, ap, ◌∙◌, Bool, true, false, Option, none, some, List, [], ◌∷◌, All, arith,
  Bool-cases, inl, inr, ok, pure, >>=-eq-ok, ok_or-eq-ok, ok-injective, database_failed,
  if◌then◌else◌,
}
use lighter_timescaledb_inge.Base.Int.{ℤ, ◌==ℤ◌, ==ℤ_iff}
use lighter_timescaledb_inge.Base.IntMap.{IntMap, lookup, insert, lookup-insert}
use lighter_timescaledb_inge.Models.{Symbol}
use lighter_timescaledb_inge.Symbols.{
  find_symbol, SymbolTable, collect, load_rows, load_symbol_cache,
}
use lighter_timescaledb_inge.Symbols.Upsert.{IsKeyed, id_of}
use lighter_timescaledb_inge.Ws.Stream.{IsInjective}

abbrev or_else : Option ℤ → Option ℤ → Option ℤ
or_else none o = o
or_else (some i) o = some i

-- A row of a market that has no other one.
found_first :
    (b : Bool) (row : Symbol) (o : Option Symbol) (l : Option ℤ)
    → (b ≡ true → o ≡ none)
    → or_else (id_of o) (if b then some row.id else l)
      ≡ or_else (id_of (if b then some row else o)) l
found_first true row none l h = refl
found_first true row (some r) l h = absurd (ground (arith, h refl))
found_first false row o l h = refl

lookup-collect :
    (k : ℤ) (rows : List Symbol) (cache : IntMap ℤ)
    → IsKeyed rows
    → lookup k (collect rows cache) ≡ or_else (id_of (find_symbol k rows)) (lookup k cache)
unfolding collect find_symbol
lookup-collect k [] cache keyed = refl
lookup-collect k (row ∷ rows) cache keyed =
    lookup-collect k rows (insert row.lighter_market_id row.id cache) keyed.2
    ∙ ap (or_else (id_of (find_symbol k rows))) (lookup-insert k row.lighter_market_id row.id cache)
    ∙ ap (λ b. or_else (id_of (find_symbol k rows)) (if b then some row.id else lookup k cache))
        (==ℤ_sym k row.lighter_market_id)
    ∙ found_first (row.lighter_market_id ==ℤ k) row (find_symbol k rows) (lookup k cache) (λ here.
      ap (λ j. find_symbol j rows) (sym ((==ℤ_iff row.lighter_market_id k).0 here)) ∙ keyed.0)
  where
    ==ℤ_sym : (a b : ℤ) → (a ==ℤ b) ≡ (b ==ℤ a)
    ==ℤ_sym a b = ground (arith, ==ℤ_iff a b, ==ℤ_iff b a)

-- An `id` that no row has is not found.
absent_id :
    (id k : ℤ) (rows : List Symbol)
    → All (λ (r : Symbol). (r.id ==ℤ id) ≡ false) rows
    → id_of (find_symbol k rows) ≢ some id
unfolding find_symbol
absent_id id k [] a h = cc
absent_id id k (row ∷ rows) a h = elim (Bool-cases (row.lighter_market_id ==ℤ k)) [
  | inl here ↦
      let found : some row.id ≡ some id = rw here at h in
      ground (arith, found, a.0, ==ℤ_iff row.id id)
  | inr away ↦ absent_id id k rows a.1 (rw away at h)
]

-- No two markets of the table have one `id`.
find_symbol-injective :
    (i j s : ℤ) (rows : List Symbol)
    → IsKeyed rows
    → id_of (find_symbol i rows) ≡ some s
    → id_of (find_symbol j rows) ≡ some s
    → i ≡ j
unfolding find_symbol
find_symbol-injective i j s [] keyed hi hj = absurd (cc)
find_symbol-injective i j s (row ∷ rows) keyed hi hj =
    by_tests (row.lighter_market_id ==ℤ i) (row.lighter_market_id ==ℤ j) refl refl hi hj
      (find_symbol-injective i j s rows keyed.2)
  where
    by_tests :
        (a b : Bool)
        → (row.lighter_market_id ==ℤ i) ≡ a
        → (row.lighter_market_id ==ℤ j) ≡ b
        → id_of (if a then some row else find_symbol i rows) ≡ some s
        → id_of (if b then some row else find_symbol j rows) ≡ some s
        → (id_of (find_symbol i rows) ≡ some s → id_of (find_symbol j rows) ≡ some s → i ≡ j)
        → i ≡ j
    by_tests true true ha hb hi hj rest =
        sym ((==ℤ_iff row.lighter_market_id i).0 ha) ∙ (==ℤ_iff row.lighter_market_id j).0 hb
    by_tests true false ha hb hi hj rest = absurd (absent_id row.id j rows keyed.1 (hj ∙ sym hi))
    by_tests false true ha hb hi hj rest = absurd (absent_id row.id i rows keyed.1 (hi ∙ sym hj))
    by_tests false false ha hb hi hj rest = rest hi hj

module _ ⦃t : SymbolTable⦄ where
  -- The cache gives every market the `id` of its row.
  pub load_symbol_cache_lem :
      (cache : IntMap ℤ) (db db' : t.Db)
      → IsKeyed (t.symbols db)
      → load_symbol_cache db ≡ (ok cache, db')
      → (k : ℤ) → lookup k cache ≡ id_of (find_symbol k (t.symbols db))
  unfolding load_symbol_cache lookup
  load_symbol_cache_lem cache db db' keyed h k =
      let (rows, db1, load_eq, pure_eq) =
        >>=-eq-ok load_rows (λ rows. pure (collect rows [])) db h in
      let rows_eq : rows ≡ t.symbols db =
        t.loaded rows db db1 (ok_or-eq-ok (t.load db) database_failed rows db1 load_eq) in
      let cache_eq : collect rows [] ≡ cache =
        ok-injective (collect rows []) cache (ap (λ x. x.0) pure_eq) in
      sym (ap (lookup k) cache_eq)
      ∙ ap (λ l. lookup k (collect l [])) rows_eq
      ∙ lookup-collect k (t.symbols db) [] keyed
      ∙ or_none (id_of (find_symbol k (t.symbols db)))
    where
      or_none : (o : Option ℤ) → or_else o none ≡ o
      or_none none = refl
      or_none (some i) = refl

  -- No two markets have one symbol in the cache.
  pub load_symbol_cache-IsInjective :
      (cache : IntMap ℤ) (db db' : t.Db)
      → IsKeyed (t.symbols db)
      → load_symbol_cache db ≡ (ok cache, db')
      → IsInjective cache
  load_symbol_cache-IsInjective cache db db' keyed h i j s hi hj =
      find_symbol-injective i j s (t.symbols db) keyed
        (sym (load_symbol_cache_lem cache db db' keyed h i) ∙ hi)
        (sym (load_symbol_cache_lem cache db db' keyed h j) ∙ hj)
