-- ===== src/Symbols/Examples.antt =====
-- A table of symbols in memory, and the theorems of the sync on it.
use lighter_timescaledb_inge.Base.{
  ◌≡◌, refl, sym, ap, ◌∙◌, Bool, true, false, ◌||◌, Option, none, some, List, [], ◌∷◌, codes, All,
  ◌+◌, length, Result, Error, ok, err, arith, if◌then◌else◌, is_empty, bad_market_type,
}
use lighter_timescaledb_inge.Base.Int.{ℤ, pos, ◌==ℤ◌}
use lighter_timescaledb_inge.Wire.Market.{OrderBookInfo, OrderBooksResponse}
use lighter_timescaledb_inge.Models.{Symbol, NewSymbol}
use lighter_timescaledb_inge.Symbols.{
  find_symbol, upsert_rows, SymbolTable, is_supported, all_supported, upsert_symbol, sync_all,
  sync_symbols,
}
use lighter_timescaledb_inge.Symbols.Sync.{Synced, sync_symbols_lem, sync_symbols-error}

abbrev Rows : Type 0
Rows = List Symbol

abbrev taken : ℤ → Rows → Bool
taken id [] = false
taken id (row ∷ rows) = (row.id ==ℤ id) || taken id rows

-- A row is inserted with 100 and the number of rows for its `id`, if that is free.
abbrev next_id : Rows → ℤ
next_id rows = pos (100 + length rows)

abbrev upsert_or_fail : Bool → NewSymbol → Rows → Option ℤ × Rows
upsert_or_fail true new rows = (none, rows)
upsert_or_fail false new rows = (some (next_id rows), upsert_rows new (next_id rows) rows)

abbrev keep_or_undo : Rows → Result (Unit {0}) × Rows → Result (Unit {0}) × Rows
keep_or_undo rows (ok x, rows') = (ok x, rows')
keep_or_undo rows (err e, rows') = (err e, rows)

pub untaken :
    (id : ℤ) (rows : Rows)
    → taken id rows ≡ false
    → All (λ (row : Symbol). (row.id ==ℤ id) ≡ false) rows
untaken id [] h = tt
untaken id (row ∷ rows) h = (ground (arith, h), untaken id rows (ground (arith, h)))

pub upsert_or_fail_lem :
    (b : Bool) (new : NewSymbol) (id : ℤ) (rows rows' : Rows)
    → taken (next_id rows) rows ≡ b
    → ◌≡◌ {A = Option ℤ × Rows} (upsert_or_fail b new rows) (some id, rows')
    → (rows' ≡ upsert_rows new id rows)
      × (find_symbol new.lighter_market_id rows ≡ none
          → All (λ (row : Symbol). (row.id ==ℤ id) ≡ false) rows)
upsert_or_fail_lem true new id rows rows' b h = absurd (cc)
upsert_or_fail_lem false new id rows rows' b h =
    let id_eq : next_id rows ≡ id =
      ap (λ (x : Option ℤ × Rows). elim x.0 [ none ↦ id | some i ↦ i ]) h in
    (
      sym (ap (λ (x : Option ℤ × Rows). x.1) h) ∙ ap (λ i. upsert_rows new i rows) id_eq,
      λ _. untaken id rows (ap (λ i. taken i rows) (sym id_eq) ∙ b),
    )

pub committed_lem :
    (r : Result (Unit {0}) × Rows) (rows rows' : Rows)
    → ◌≡◌ {A = Result (Unit {0}) × Rows} (keep_or_undo rows r) (ok tt, rows')
    → r ≡ (ok tt, rows')
committed_lem (ok x, end) rows rows' h = h
committed_lem (err e, end) rows rows' h = absurd (cc)

pub rolled_back_lem :
    (r : Result (Unit {0}) × Rows) (e : Error) (rows rows' : Rows)
    → ◌≡◌ {A = Result (Unit {0}) × Rows} (keep_or_undo rows r) (err e, rows')
    → rows' ≡ rows
rolled_back_lem (ok x, end) e rows rows' h = absurd (cc)
rolled_back_lem (err e', end) e rows rows' h = sym (ap (λ (x : Result (Unit {0}) × Rows). x.1) h)

instance abbrev pub memory_symbols : SymbolTable
memory_symbols = record {
  Db = Rows;
  symbols = λ rows. rows;
  execute_upsert = λ new rows. upsert_or_fail (taken (next_id rows) rows) new rows;
  transaction = λ body rows. keep_or_undo rows (body rows);
  load = λ rows. (some rows, rows);
  upserted = λ new id rows rows' h.
      upsert_or_fail_lem (taken (next_id rows) rows) new id rows rows' refl h;
  committed =
      λ body rows rows' h. (rows, rows', refl, committed_lem (body rows) rows rows' h, refl);
  rolled_back = λ body e rows rows' h. rolled_back_lem (body rows) e rows rows' h;
  loaded = λ rows db db' h.
      ap (λ (x : Option Rows × Rows). elim x.0 [ none ↦ rows | some l ↦ l ]) (sym h);
  load-symbols = λ rows. refl;
}

abbrev market : ℤ → Bool → OrderBookInfo
market id perp = record {
  symbol = codes "BTC";
  market_id = id;
  market_type = if perp then codes "perp" else codes "option";
  base_asset_id = pos 0;
  quote_asset_id = pos 0;
  status = codes "active";
  taker_fee = codes "0.0000";
  maker_fee = codes "0.0000";
  liquidation_fee = codes "1.0000";
  min_base_amount = codes "0.500";
  min_quote_amount = codes "10.000000";
  order_quote_limit = codes "25000000.000000";
  supported_size_decimals = 3;
  supported_price_decimals = 3;
  supported_quote_decimals = 6;
}

abbrev pub response : Bool → OrderBooksResponse
response perp = record { code = pos 200; order_books = market (pos 7) perp ∷ [] }

-- Market 7 had another name.
abbrev pub old_rows : Rows
old_rows =
    record { id = pos 3; name = codes "XBT"; lighter_market_id = pos 7; market_type = codes "perp" }
    ∷ []

abbrev pub new_rows : Rows
new_rows =
    record { id = pos 3; name = codes "BTC"; lighter_market_id = pos 7; market_type = codes "perp" }
    ∷ []

synced : sync_symbols (some (response true)) old_rows ≡ (ok tt, new_rows)
unfolding sync_symbols sync_all upsert_symbol upsert_rows all_supported is_supported
synced = refl

sync_symbols_lem_example :
    (resp : OrderBooksResponse) × (some (response true) ≡ some resp)
    × (resp.code ≡ pos 200)
    × (is_empty resp.order_books ≡ false)
    × (all_supported resp.order_books ≡ true)
    × Synced resp.order_books old_rows new_rows
sync_symbols_lem_example = sync_symbols_lem (some (response true)) old_rows new_rows synced

abbrev refused : Result (Unit {0}) × Rows
refused = sync_symbols (some (response false)) old_rows

unsynced : sync_symbols (some (response false)) old_rows ≡ (err bad_market_type, refused.1)
unfolding sync_symbols sync_all upsert_symbol upsert_rows all_supported is_supported
unsynced = refl

sync_symbols-error_example : refused.1 ≡ old_rows
sync_symbols-error_example =
    sync_symbols-error (some (response false)) bad_market_type old_rows refused.1 unsynced
