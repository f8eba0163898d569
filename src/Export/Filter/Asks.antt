-- ===== src/Export/Filter/Asks.antt =====
-- src/export.rs: the filter of a query asks for the symbols and hours of the arguments, and no others.
use lighter_timescaledb_inge.Base.{
  ◌≡◌, refl, subst, Option, none, some, ℕ, List, [], ◌∷◌, ◌++◌, Text, codes, length, ok, arith,
  Option-cases, Bool-cases, inl, inr,
}
use lighter_timescaledb_inge.Export.Filter.{
  all_known, names_condition, symbol_condition, time_condition, where_clause,
}
use lighter_timescaledb_inge.Export.Filter.Quoting.{
  read_filter, time_part, read_filter-where_clause,
}

-- A filter of the time alone.
abbrev pub time_filter : Option ℕ → Text → Text
time_filter none time_column = []
time_filter (some hours) time_column = codes " WHERE " ++ time_condition hours time_column

-- Without symbols the filter is of the time alone. Else a reader of SQL literals finds in it exactly
-- these symbols, in order, and behind them the condition on the time alone.
abbrev pub Asks : List Text → Option ℕ → Text → Text → Type 0
Asks [] hours time_column filter = filter ≡ time_filter hours time_column
Asks (name ∷ names) hours time_column filter =
    read_filter (length (name ∷ names)) filter ≡ some (name ∷ names, time_part hours time_column)

symbol_condition-names :
    (select_names : List Text → Option (List Text)) (name : Text) (names : List Text)
    (condition : Text)
    → symbol_condition select_names (name ∷ names) ≡ ok condition
    → names_condition (name ∷ names) ≡ condition
unfolding symbol_condition
symbol_condition-names select_names name names condition h =
    elim (Option-cases (select_names (name ∷ names))) [
      | inl bad ↦ ground arith
      | inr (known, good) ↦ elim (Bool-cases (all_known known (name ∷ names))) [
        | inl e ↦ ground arith
        | inr e ↦ ground arith
      ]
    ]

-- Where the condition on the symbols is found, the filter asks for them.
pub symbol_condition-Asks :
    (select_names : List Text → Option (List Text)) (symbols : List Text) (condition : Text)
    (hours : Option ℕ) (time_column : Text)
    → symbol_condition select_names symbols ≡ ok condition
    → Asks symbols hours time_column (where_clause condition hours time_column)
unfolding symbol_condition where_clause
symbol_condition-Asks select_names [] condition none column h =
    let e : [] ≡ condition = ground arith in subst (λ t. where_clause t none column ≡ []) e refl
symbol_condition-Asks select_names [] condition (some hours) column h =
    let e : [] ≡ condition = ground arith in
    subst (λ t. where_clause t (some hours) column ≡ time_filter (some hours) column) e refl
symbol_condition-Asks select_names (name ∷ names) condition hours column h =
    subst (λ t. Asks (name ∷ names) hours column (where_clause t hours column))
      (symbol_condition-names select_names name names condition h)
      (read_filter-where_clause name names hours column)
