-- ===== src/Symbols.antt =====
-- src/lib.rs and src/main.rs: the table of symbols, its sync with the markets of the exchange at the
-- start, and what is loaded from it. Postgres is an interface: `lighter_market_id` is unique, `id` is
-- the primary key, and a transaction is kept or undone as a whole.
pub mod Upsert
pub mod Sync
pub mod Cache
pub mod Examples
use lighter_timescaledb_inge.Base.{
  ℕ, ◌≡◌, Bool, true, false, not, ◌||◌, Option, none, some, List, [], ◌∷◌, Text, codes, text_eq,
  is_empty, All, Result, Error, ok, err, Action, ◌>>=◌, ◌>>◌, pure, lift, bail_if, ok_or,
  database_failed, fetch_failed, bad_market_code, no_market_listed, bad_market_type, if◌then◌else◌,
  map,
}
use lighter_timescaledb_inge.Base.Int.{ℤ, pos, ◌==ℤ◌, leb_ℤ}
use lighter_timescaledb_inge.Base.IntMap.{IntMap, insert}
use lighter_timescaledb_inge.Wire.Market.{OrderBookInfo, OrderBooksResponse}
use lighter_timescaledb_inge.Models.{Symbol, NewSymbol}
use lighter_timescaledb_inge.Funding.Poll.{PerpMarket}

-- The row of a market.
unfoldable pub find_symbol : ℤ → List Symbol → Option Symbol
find_symbol market [] = none
find_symbol market (row ∷ rows) =
    if row.lighter_market_id ==ℤ market then some row else find_symbol market rows

-- The rows after the upsert of a record: a row of its market gets its name and type and keeps its
-- `id`, else there is a new row with the given one.
unfoldable pub upsert_rows : NewSymbol → ℤ → List Symbol → List Symbol
upsert_rows new id [] =
    record {
      id = id;
      name = new.name;
      lighter_market_id = new.lighter_market_id;
      market_type = new.market_type;
    }
    ∷ []
upsert_rows new id (row ∷ rows) =
    if row.lighter_market_id ==ℤ new.lighter_market_id
    then record row { name = new.name; market_type = new.market_type } ∷ rows
    else row ∷ upsert_rows new id rows

-- `none` is a failure.
pub record SymbolTable : Type 1 where
  pub Db : Type 0
  pub symbols : Db → List Symbol
  -- `INSERT … ON CONFLICT (lighter_market_id) DO UPDATE … RETURNING id`
  pub execute_upsert : NewSymbol → Db → Option ℤ × Db
  -- `conn.transaction(…)`. An error stands for a transaction that is undone: a commit whose outcome the
  -- client does not learn counts as such.
  pub transaction : Action Db (Unit {0}) → Action Db (Unit {0})
  -- The rows of the table, in an order that the list of them stands for.
  pub load : Db → Option (List Symbol) × Db
  pub upserted :
      (new : NewSymbol) (id : ℤ) (db db' : Db)
      → execute_upsert new db ≡ (some id, db')
      → (symbols db' ≡ upsert_rows new id (symbols db))
        × (find_symbol new.lighter_market_id (symbols db) ≡ none
            → All (λ row. (row.id ==ℤ id) ≡ false) (symbols db))
  pub committed :
      (body : Action Db (Unit {0})) (db db' : Db)
      → transaction body db ≡ (ok tt, db')
      → (start end : Db) × (symbols start ≡ symbols db)
        × (body start ≡ (ok tt, end))
        × (symbols db' ≡ symbols end)
  pub rolled_back :
      (body : Action Db (Unit {0})) (e : Error) (db db' : Db)
      → transaction body db ≡ (err e, db')
      → symbols db' ≡ symbols db
  pub loaded : (rows : List Symbol) (db db' : Db) → load db ≡ (some rows, db') → rows ≡ symbols db
  pub load-symbols : (db : Db) → symbols (load db).1 ≡ symbols db

-- `matches!(market_type, "perp" | "spot")`
unfoldable pub is_supported : OrderBookInfo → Bool
is_supported market =
    text_eq market.market_type (codes "perp") || text_eq market.market_type (codes "spot")

unfoldable pub all_supported : List OrderBookInfo → Bool
unfolding is_supported
all_supported [] = true
all_supported (market ∷ markets) =
    let rest = all_supported markets in if is_supported market then rest else false

-- `collect` into a `HashMap`
unfoldable pub collect : List Symbol → IntMap ℤ → IntMap ℤ
collect [] cache = cache
collect (row ∷ rows) cache = collect rows (insert row.lighter_market_id row.id cache)

-- `filter(market_type.eq("perp"))`
unfoldable pub perp_rows : List Symbol → List Symbol
perp_rows [] = []
perp_rows (row ∷ rows) =
    let rest = perp_rows rows in if text_eq row.market_type (codes "perp") then row ∷ rest else rest

-- `order(lighter_market_id.asc())`
unfoldable pub insert_row : Symbol → List Symbol → List Symbol
insert_row row [] = row ∷ []
insert_row row (r ∷ rows) =
    let rest = insert_row row rows in
    if leb_ℤ row.lighter_market_id r.lighter_market_id then row ∷ r ∷ rows else r ∷ rest

unfoldable pub sort_rows : List Symbol → List Symbol
unfolding insert_row
sort_rows [] = []
sort_rows (row ∷ rows) = insert_row row (sort_rows rows)

abbrev pub perp_market : Symbol → PerpMarket
perp_market row = record {
  symbol_id = row.id;
  name = row.name;
  lighter_market_id = row.lighter_market_id;
}

module _ ⦃t : SymbolTable⦄ where
  unfoldable pub upsert_symbol : Text → Text → ℤ → Action t.Db ℤ
  upsert_symbol name market_type market_id db =
      let (id, db') =
        t.execute_upsert
          (record { name = name; market_type = market_type; lighter_market_id = market_id }) db in
      (ok_or id database_failed, db')

  unfoldable pub sync_all : List OrderBookInfo → Action t.Db (Unit {0})
  unfolding upsert_symbol
  sync_all [] = pure tt
  sync_all (market ∷ markets) = do
    id ← upsert_symbol market.symbol market.market_type market.market_id
    sync_all markets

  -- The reply is `none` if the request fails, its status is an error, or its body does not parse.
  unfoldable pub sync_symbols : Option OrderBooksResponse → Action t.Db (Unit {0})
  sync_symbols reply = do
    resp ← lift (ok_or reply fetch_failed)
    bail_if (not (resp.code ==ℤ pos 200)) bad_market_code
    bail_if (is_empty resp.order_books) no_market_listed
    bail_if (not (all_supported resp.order_books)) bad_market_type
    t.transaction (sync_all resp.order_books)

  abbrev pub load_rows : Action t.Db (List Symbol)
  load_rows db = let (rows, db') = t.load db in (ok_or rows database_failed, db')

  unfoldable pub load_symbol_cache : Action t.Db (IntMap ℤ)
  load_symbol_cache = do rows ← load_rows; pure (collect rows [])

  unfoldable pub load_perp_markets : Action t.Db (List PerpMarket)
  unfolding perp_rows sort_rows
  load_perp_markets = do rows ← load_rows; pure (map perp_market (sort_rows (perp_rows rows)))
