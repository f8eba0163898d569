-- ===== src/Export/Filter.antt =====
-- src/export.rs: the `WHERE` clause of a query, and the names in it as SQL literals.
pub mod Quoting
pub mod Asks
use lighter_timescaledb_inge.Base.{
  ℕ, suc, Bool, true, false, not, ◌||◌, Option, none, some, List, [], ◌∷◌, ◌++◌, Text, codes,
  text_eq, is_empty, ◌==◌, Result, ok, err, and_then, ok_or, unknown_symbol, export_failed,
  if◌then◌else◌,
}
use lighter_timescaledb_inge.Wire.Channel.{print_nat}

-- `conditions.join(sep)`
unfoldable pub join : Text → List Text → Text
join sep [] = []
join sep (t ∷ []) = t
join sep (t ∷ u ∷ ts) = t ++ (sep ++ join sep (u ∷ ts))

-- `name.replace('\'', "''")`
unfoldable pub double_quotes : Text → Text
double_quotes [] = []
double_quotes (c ∷ cs) =
    let rest = double_quotes cs in if c == b'\'' then b'\'' ∷ b'\'' ∷ rest else c ∷ rest

-- `format!("'{}'", …)`
unfoldable pub quote : Text → Text
unfolding double_quotes
quote name = b'\'' ∷ (double_quotes name ++ b'\'' ∷ [])

unfoldable pub quote_all : List Text → List Text
unfolding quote
quote_all [] = []
quote_all (name ∷ names) = quote name ∷ quote_all names

-- The condition on known names.
unfoldable pub names_condition : List Text → Text
unfolding join quote_all
names_condition names = codes "s.name IN (" ++ (join (codes ", ") (quote_all names) ++ codes ")")

unfoldable pub contains : Text → List Text → Bool
contains name [] = false
contains name (k ∷ known) = text_eq k name || contains name known

-- Every name is known: the list `unknown` is empty.
unfoldable pub all_known : List Text → List Text → Bool
unfolding contains
all_known known [] = true
all_known known (name ∷ names) =
    let rest = all_known known names in if contains name known then rest else false

-- `select_names` is the query of the names that are in the table of symbols.
unfoldable pub symbol_condition : (List Text → Option (List Text)) → List Text → Result Text
unfolding all_known names_condition
symbol_condition select_names symbols =
    if is_empty symbols
    then ok []
    else and_then (ok_or (select_names symbols) export_failed) λ known.
      if all_known known symbols then ok (names_condition symbols) else err unknown_symbol

unfoldable pub time_condition : ℕ → Text → Text
time_condition hours time_column =
    time_column ++ (codes " >= now() - interval '" ++ (print_nat hours ++ codes " hours'"))

abbrev pub one_if : Bool → Text → List Text
one_if true t = t ∷ []
one_if false t = []

abbrev pub hours_condition : Option ℕ → Text → List Text
hours_condition none time_column = []
hours_condition (some hours) time_column = time_condition hours time_column ∷ []

unfoldable pub where_clause : Text → Option ℕ → Text → Text
unfolding join time_condition
where_clause symbol_condition hours time_column =
    let conditions =
      one_if (not (is_empty symbol_condition)) symbol_condition
      ++ hours_condition hours time_column in
    if is_empty conditions then [] else codes " WHERE " ++ join (codes " AND ") conditions
