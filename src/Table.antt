-- ===== src/Table.antt =====
-- `INSERT … ON CONFLICT DO NOTHING` into a table with a unique index, as the migrations declare it. A
-- table is the list of its rows in the order of insertion; `same` is the equality of index keys.
pub mod Part
use lighter_timescaledb_inge.Base.{
  ◌≡◌, refl, ap, ◌∙◌, sym, Bool, true, false, ◌||◌, List, [], ◌∷◌, ◌++◌, append_assoc, append-nil,
  All, arith, Bool-cases, inl, inr, if◌then◌else◌,
}

module _ {ℓ} {A : Type ℓ} (same : A → A → Bool) where
  -- A row of the table has the key of `row`.
  unfoldable pub conflicts : A → List A → Bool
  conflicts row [] = false
  conflicts row (r ∷ table) = same row r || conflicts row table

  abbrev pub add_new : List A → A → List A
  add_new table row = if conflicts row table then table else table ++ row ∷ []

  -- Row by row; a row whose key is taken is skipped.
  unfoldable pub insert_new : List A → List A → List A
  insert_new table [] = table
  insert_new table (row ∷ rows) = insert_new (add_new table row) rows

  pub insert_new-append :
      (table xs ys : List A) → insert_new table (xs ++ ys) ≡ insert_new (insert_new table xs) ys
  unfolding insert_new
  insert_new-append table [] ys = refl
  insert_new-append table (x ∷ xs) ys = insert_new-append (add_new table x) xs ys

  conflicts-append :
      (row : A) (xs ys : List A) → conflicts row (xs ++ ys) ≡ (conflicts row xs || conflicts row ys)
  unfolding conflicts
  conflicts-append row [] ys = refl
  conflicts-append row (x ∷ xs) ys = ground (arith, conflicts-append row xs ys)

  -- A key that is taken stays taken.
  conflicts-insert_new :
      (row : A) (table rows : List A)
      → conflicts row table ≡ true
      → conflicts row (insert_new table rows) ≡ true
  unfolding insert_new
  conflicts-insert_new row table [] h = h
  conflicts-insert_new row table (r ∷ rows) h = elim (Bool-cases (conflicts r table)) [
    | inl taken ↦ rw taken (conflicts-insert_new row table rows h)
    | inr free ↦ rw free (
        conflicts-insert_new row (table ++ r ∷ []) rows
          (conflicts-append row table (r ∷ []) ∙ rw h refl))
  ]

  module _ (same_refl : (row : A) → same row row ≡ true) where
    conflicts-add_new : (table : List A) (row : A) → conflicts row (add_new table row) ≡ true
    unfolding conflicts
    conflicts-add_new table row = elim (Bool-cases (conflicts row table)) [
      | inl taken ↦ rw taken taken
      | inr free ↦ rw free (conflicts-append row table (row ∷ []) ∙ ground (arith, same_refl row))
    ]

    -- After an insert every row of it has its key in the table.
    pub insert_new-All :
        (table rows : List A) → All (λ row. conflicts row (insert_new table rows) ≡ true) rows
    unfolding insert_new
    insert_new-All table [] = tt
    insert_new-All table (row ∷ rows) = (
      conflicts-insert_new row (add_new table row) rows (conflicts-add_new table row),
      insert_new-All (add_new table row) rows,
    )

  -- Rows whose keys are all taken change nothing.
  pub insert_new-taken :
      (table rows : List A)
      → All (λ row. conflicts row table ≡ true) rows
      → insert_new table rows ≡ table
  unfolding insert_new
  insert_new-taken table [] a = refl
  insert_new-taken table (row ∷ rows) a = rw a.0 (insert_new-taken table rows a.1)
