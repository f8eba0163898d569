-- ===== src/Export/Filter/Quoting.antt =====
-- The names of a filter read back as the SQL literals that they are written as: no name can end its
-- literal early. A literal is read by the rule of SQL: two quotes stand for one, and one ends it.
use lighter_timescaledb_inge.Base.{
  ℕ, zero, suc, ◌<◌, ◌≡◌, refl, ap, ◌∙◌, false, Option, none, some, List, [], ◌∷◌, ◌++◌,
  append_assoc, Text, codes, length, ◌==◌, arith, Bool-cases, inl, inr, if◌then◌else◌,
}
use lighter_timescaledb_inge.Export.Filter.{
  join, double_quotes, quote, quote_all, names_condition, time_condition, where_clause,
}

abbrev then_read {ℓ κ} : {A : Type ℓ} {B : Type κ} → Option A → (A → Option B) → Option B
then_read none f = none
then_read (some a) f = f a

abbrev cons_char : ℕ → Option (Text × Text) → Option (Text × Text)
cons_char c none = none
cons_char c (some (t, rest)) = some (c ∷ t, rest)

-- The literal behind its first quote, and what follows it.
unfoldable pub read_literal : Text → Option (Text × Text)
read_literal [] = none
read_literal (c ∷ []) = if c == b'\'' then some ([], []) else none
read_literal (c ∷ d ∷ cs) =
    let more = read_literal (d ∷ cs) in
    let doubled = read_literal cs in
    if c == b'\''
    then (if d == b'\'' then cons_char b'\'' doubled else some ([], d ∷ cs))
    else cons_char c more

unfoldable pub strip_prefix : Text → Text → Option Text
strip_prefix [] t = some t
strip_prefix (p ∷ ps) [] = none
strip_prefix (p ∷ ps) (c ∷ t) = let rest = strip_prefix ps t in if p == c then rest else none

-- Behind a literal: the closing bracket, or a comma and more names.
abbrev after_name : (Text → Option (List Text × Text)) → Text × Text → Option (List Text × Text)
after_name read_more (name, rest) = elim (strip_prefix (codes ")") rest) [
  | some end ↦ some (name ∷ [], end)
  | none ↦
      then_read (strip_prefix (codes ", ") rest)
        λ more. then_read (read_more more) λ (names, end). some (name ∷ names, end)
]

-- Literals with commas between them, up to a closing bracket.
unfoldable pub read_names : ℕ → Text → Option (List Text × Text)
unfolding read_literal strip_prefix
read_names zero t = none
read_names (suc fuel) t =
    then_read (strip_prefix (codes "'") t)
      λ body. then_read (read_literal body) (after_name (read_names fuel))

-- The names of a filter, and what follows them.
unfoldable pub read_filter : ℕ → Text → Option (List Text × Text)
unfolding read_names strip_prefix
read_filter fuel t = then_read (strip_prefix (codes " WHERE s.name IN (") t) (read_names fuel)

abbrev NoQuote : Text → Type 0
NoQuote [] = Unit
NoQuote (c ∷ t) = (c == b'\'') ≡ false

read_literal-char :
    (c : ℕ) (t : Text) → (c == b'\'') ≡ false → read_literal (c ∷ t) ≡ cons_char c (read_literal t)
unfolding read_literal
read_literal-char c [] h = rw h
read_literal-char c (d ∷ t) h = rw h

read_literal-end : (rest : Text) → NoQuote rest → read_literal (b'\'' ∷ rest) ≡ some ([], rest)
unfolding read_literal
read_literal-end [] h = refl
read_literal-end (d ∷ rest) h = rw h

read_literal-double :
    (t : Text) → read_literal (b'\'' ∷ b'\'' ∷ t) ≡ cons_char b'\'' (read_literal t)
unfolding read_literal
read_literal-double t = refl

read_literal-quotes :
    (name rest : Text)
    → NoQuote rest
    → read_literal (double_quotes name ++ b'\'' ∷ rest) ≡ some (name, rest)
unfolding double_quotes
read_literal-quotes [] rest h = read_literal-end rest h
read_literal-quotes (c ∷ name) rest h = elim (Bool-cases (c == b'\'')) [
  | inl e ↦
      let same : b'\'' ≡ c = ground arith in
      rw e (
        read_literal-double (double_quotes name ++ b'\'' ∷ rest)
        ∙ ap (cons_char b'\'') (read_literal-quotes name rest h)
        ∙ ap (λ x. some (x ∷ name, rest)) same)
  | inr e ↦ rw e (
      read_literal-char c (double_quotes name ++ b'\'' ∷ rest) e
      ∙ ap (cons_char c) (read_literal-quotes name rest h))
]

quote-append :
    (name rest : Text) → quote name ++ rest ≡ b'\'' ∷ (double_quotes name ++ b'\'' ∷ rest)
unfolding quote
quote-append name rest = ap (λ t. b'\'' ∷ t) (append_assoc (double_quotes name) (b'\'' ∷ []) rest)

read_names-quote :
    (fuel : ℕ) (name tail : Text)
    → NoQuote tail
    → read_names (suc fuel) (quote name ++ tail) ≡ after_name (read_names fuel) (name, tail)
unfolding read_names
read_names-quote fuel name tail h =
    ap (read_names (suc fuel)) (quote-append name tail)
    ∙ ap (λ r. then_read r (after_name (read_names fuel))) (read_literal-quotes name tail h)

read_names-join :
    (fuel : ℕ) (name : Text) (names : List Text) (rest : Text)
    → length names < fuel
    → read_names fuel (join (codes ", ") (quote_all (name ∷ names)) ++ b')' ∷ rest)
      ≡ some (name ∷ names, rest)
unfolding join quote_all strip_prefix
read_names-join zero name names rest h = absurd (omega arith)
read_names-join (suc fuel) name [] rest h = read_names-quote fuel name (b')' ∷ rest) refl
read_names-join (suc fuel) name (next ∷ names) rest h =
    let more = join (codes ", ") (quote_all (next ∷ names)) in
    let tail = codes ", " ++ (more ++ b')' ∷ rest) in
    ap (read_names (suc fuel)) (append_assoc (quote name) (codes ", " ++ more) (b')' ∷ rest))
    ∙ read_names-quote fuel name tail refl
    ∙ ap (λ r. then_read r (λ (names, end). some (name ∷ names, end)))
        (read_names-join fuel next names rest (omega arith))

-- What a filter has behind the names.
abbrev pub time_part : Option ℕ → Text → Text
time_part none time_column = []
time_part (some hours) time_column = codes " AND " ++ time_condition hours time_column

-- Whatever the symbols' names hold, quotes and brackets too, a reader of SQL literals finds in the
-- `WHERE` clause exactly these names, in order, and behind them the condition on the time alone.
pub read_filter-where_clause :
    (name : Text) (names : List Text) (hours : Option ℕ) (time_column : Text)
    → read_filter
        (length (name ∷ names))
        (where_clause (names_condition (name ∷ names)) hours time_column)
      ≡ some (name ∷ names, time_part hours time_column)
unfolding where_clause read_filter names_condition
read_filter-where_clause name names none column =
    read_names-join (length (name ∷ names)) name names [] (omega arith)
read_filter-where_clause name names (some hours) column =
    ap (read_names (length (name ∷ names))) (
      append_assoc (join (codes ", ") (quote_all (name ∷ names))) (codes ")")
        (codes " AND " ++ time_condition hours column))
    ∙ read_names-join (length (name ∷ names)) name names
        (codes " AND " ++ time_condition hours column) (omega arith)
