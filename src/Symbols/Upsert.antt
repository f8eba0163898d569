-- ===== src/Symbols/Upsert.antt =====
-- src/lib.rs: what an upsert does to the table of symbols.
use lighter_timescaledb_inge.Base.{
  ◌≡◌, refl, ap, ◌∙◌, Bool, true, false, Option, none, some, List, [], ◌∷◌, All, arith, Bool-cases,
  inl, inr, if◌then◌else◌,
}
use lighter_timescaledb_inge.Base.Int.{ℤ, ◌==ℤ◌, ==ℤ_iff, ==ℤ_refl}
use lighter_timescaledb_inge.Models.{Symbol, NewSymbol}
use lighter_timescaledb_inge.Symbols.{find_symbol, upsert_rows}

-- No two rows have one market, and no two have one `id`.
abbrev pub IsKeyed : List Symbol → Type 0
IsKeyed [] = Unit
IsKeyed (row ∷ rows) =
    (find_symbol row.lighter_market_id rows ≡ none)
    × (All (λ (r : Symbol). (r.id ==ℤ row.id) ≡ false) rows)
    × IsKeyed rows

-- The `id` of a market.
abbrev pub id_of : Option Symbol → Option ℤ
id_of none = none
id_of (some row) = some row.id

-- The row that an upsert leaves for its market.
abbrev pub upserted_row : NewSymbol → ℤ → Option Symbol → Symbol
upserted_row new id none = record {
  id = id;
  name = new.name;
  lighter_market_id = new.lighter_market_id;
  market_type = new.market_type;
}
upserted_row new id (some row) = record row { name = new.name; market_type = new.market_type }

pub find_symbol-upsert :
    (new : NewSymbol) (id market : ℤ) (rows : List Symbol)
    → find_symbol market (upsert_rows new id rows) ≡ (
        if new.lighter_market_id ==ℤ market
        then some (upserted_row new id (find_symbol market rows))
        else find_symbol market rows)
unfolding find_symbol upsert_rows
find_symbol-upsert new id market [] = refl
find_symbol-upsert new id market (row ∷ rows) =
    let ih = find_symbol-upsert new id market rows in
    elim (Bool-cases (row.lighter_market_id ==ℤ new.lighter_market_id)) [
      | inl same ↦
          let row_test : (row.lighter_market_id ==ℤ market) ≡ (new.lighter_market_id ==ℤ market) =
            ap (λ x. x ==ℤ market) ((==ℤ_iff row.lighter_market_id new.lighter_market_id).0 same) in
          elim (Bool-cases (new.lighter_market_id ==ℤ market)) [
            | inl here ↦ rw (same, here, row_test ∙ here) refl
            | inr away ↦ rw (same, away, row_test ∙ away) refl
          ]
      | inr differs ↦ elim (Bool-cases (row.lighter_market_id ==ℤ market)) [
        | inl here ↦
            let away : (new.lighter_market_id ==ℤ market) ≡ false = ground (
              arith,
              differs,
              here,
              ==ℤ_iff row.lighter_market_id market,
              ==ℤ_iff new.lighter_market_id market,
              ==ℤ_iff row.lighter_market_id new.lighter_market_id,
            ) in
            rw (differs, here, away) refl
        | inr away ↦ rw (differs, away) ih
      ]
    ]

-- A market keeps its `id`.
pub id_of-upsert :
    (new : NewSymbol) (id market i : ℤ) (rows : List Symbol)
    → id_of (find_symbol market rows) ≡ some i
    → id_of (find_symbol market (upsert_rows new id rows)) ≡ some i
id_of-upsert new id market i rows h =
    ap id_of (find_symbol-upsert new id market rows)
    ∙ kept (new.lighter_market_id ==ℤ market) (find_symbol market rows) h
  where
    kept :
        (b : Bool) (o : Option Symbol)
        → id_of o ≡ some i
        → id_of (if b then some (upserted_row new id o) else o) ≡ some i
    kept b none h = absurd (cc)
    kept true (some row) h = h
    kept false (some row) h = h

-- The market of the record has a row.
pub upsert-there :
    (new : NewSymbol) (id : ℤ) (rows : List Symbol)
    → (i : ℤ) × (id_of (find_symbol new.lighter_market_id (upsert_rows new id rows)) ≡ some i)
upsert-there new id rows = (
  (upserted_row new id (find_symbol new.lighter_market_id rows)).id,
  ap id_of (find_symbol-upsert new id new.lighter_market_id rows)
      ∙ ap
          (λ b. id_of (
            if b
            then some (upserted_row new id (find_symbol new.lighter_market_id rows))
            else find_symbol new.lighter_market_id rows))
          (==ℤ_refl new.lighter_market_id),
)

-- An `id` that is not in the table is not in the rows after an upsert, either.
other_id :
    (new : NewSymbol) (id j : ℤ) (rows : List Symbol)
    → (find_symbol new.lighter_market_id rows ≡ none → (id ==ℤ j) ≡ false)
    → All (λ (r : Symbol). (r.id ==ℤ j) ≡ false) rows
    → All (λ (r : Symbol). (r.id ==ℤ j) ≡ false) (upsert_rows new id rows)
unfolding upsert_rows find_symbol
other_id new id j [] h a = (h refl, tt)
other_id new id j (row ∷ rows) h a =
    elim (Bool-cases (row.lighter_market_id ==ℤ new.lighter_market_id)) [
      | inl same ↦ rw same (a.0, a.1)
      | inr differs ↦ rw differs (a.0, other_id new id j rows (λ e. h (rw differs e)) a.1)
    ]

-- The keys of the table stay unique.
pub upsert_rows-IsKeyed :
    (new : NewSymbol) (id : ℤ) (rows : List Symbol)
    → IsKeyed rows
    → (find_symbol new.lighter_market_id rows ≡ none
        → All (λ (r : Symbol). (r.id ==ℤ id) ≡ false) rows)
    → IsKeyed (upsert_rows new id rows)
unfolding upsert_rows find_symbol
upsert_rows-IsKeyed new id [] keyed fresh = (refl, tt, tt)
upsert_rows-IsKeyed new id (row ∷ rows) keyed fresh =
    elim (Bool-cases (row.lighter_market_id ==ℤ new.lighter_market_id)) [
      | inl same ↦ rw same keyed
      | inr differs ↦
          let new_differs : (new.lighter_market_id ==ℤ row.lighter_market_id) ≡ false = ground (
            arith,
            differs,
            ==ℤ_iff row.lighter_market_id new.lighter_market_id,
            ==ℤ_iff new.lighter_market_id row.lighter_market_id,
          ) in
          rw differs (
            find_symbol-upsert new id row.lighter_market_id rows ∙ rw new_differs keyed.0,
            other_id new id row.id rows
                (λ e.
                  ground (arith, (fresh (rw differs e)).0, ==ℤ_iff row.id id, ==ℤ_iff id row.id))
                keyed.1,
            upsert_rows-IsKeyed new id rows keyed.2 (λ e. (fresh (rw differs e)).1),
          )
    ]
