-- ===== src/Export/Loop/Groups.antt =====
-- What the loop has written when it ends well: the rows of the query in consecutive groups.
use lighter_timescaledb_inge.Base.{
  ℕ, false, ◌<◌, ◌≡◌, refl, sym, ap, ◌∙◌, subst, Option, none, some, List, [], ◌∷◌, ◌++◌,
  append-nil, append_assoc, map, length, length-append, ◌==◌, Result, ok, Action, ◌>>=◌, lift, pure,
  >>=-eq-ok, Bool-cases, inl, inr, arith,
}
use lighter_timescaledb_inge.Export.Loop.{export_loop, write_full, write_last}

module _ {ℓ κ} {Row : Type ℓ} {C : Type κ} (size : ℕ) (Records : List Row → C → Type 0) where
  -- The rows in groups of `size`, the last one with fewer, and a record batch for each.
  pub data Grouped : List Row → List C → Type (ℓ ⊔ κ) where
    no_rows : Grouped [] []
    last_group :
        (g : List Row) (b : C) → 0 < length g → length g < size → Records g b → Grouped g (b ∷ [])
    full_group :
        (g rest : List Row) (b : C) (bs : List C)
        → length g ≡ size
        → Records g b
        → Grouped rest bs
        → Grouped (g ++ rest) (b ∷ bs)

module _ {ℓ κ μ ν} {Row : Type ℓ} {Batch : Type κ} {Fs : Type μ} {C : Type ν} (size : ℕ)
    (len : Batch → ℕ) (push : Row → Batch → Result Batch) (write : Batch → Action Fs Batch)
    (Holds : List Row → Batch → Type 0) (Records : List Row → C → Type 0)
    (Wrote : List C → Fs → Type 0)
    (len_lem : (g : List Row) (batch : Batch) → Holds g batch → len batch ≡ length g)
    (push_lem : (g : List Row) (row : Row) (batch batch' : Batch)
      → Holds g batch
      → push row batch ≡ ok batch'
      → Holds (g ++ row ∷ []) batch')
    (write_lem : (g : List Row) (batch batch' : Batch) (bs : List C) (fs fs' : Fs)
      → Holds g batch
      → Wrote bs fs
      → write batch fs ≡ (ok batch', fs')
      → (Holds [] batch') × (b : C) × (Records g b) × Wrote (bs ++ b ∷ []) fs') where
  -- Behind the batches `bs` the file has got those of the rows `g` of the batch and of `rows`.
  abbrev Exported : List Row → List C → List (Option Row) → Fs → Type (ℓ ⊔ ν)
  Exported g bs rows fs =
      (rs : List Row) × (rows ≡ map some rs)
      × (more : List C) × (Grouped size Records (g ++ rs) more)
      × Wrote (bs ++ more) fs

  -- What a write of the last, short group leaves.
  last_written :
      (g : List Row) (batch batch' : Batch) (bs : List C) (fs fs' : Fs)
      → Holds g batch
      → 0 < length g
      → length g < size
      → Wrote bs fs
      → write batch fs ≡ (ok batch', fs')
      → Exported g bs [] fs'
  last_written g batch batch' bs fs fs' holds some_rows small wrote h =
      let (_, b, records, wrote') = write_lem g batch batch' bs fs fs' holds wrote h in
      (
        [],
        refl,
        b ∷ [],
        subst (λ l. Grouped size Records l (b ∷ [])) (sym (append-nil g))
            (last_group g b some_rows small records),
        wrote',
      )

  write_last_lem :
      (g : List Row) (batch : Batch) (bs : List C) (fs fs' : Fs)
      → Holds g batch
      → length g < size
      → Wrote bs fs
      → write_last size len push write batch fs ≡ (ok tt, fs')
      → Exported g bs [] fs'
  write_last_lem [] batch bs fs fs' holds small wrote h =
      let same : fs ≡ fs' = ap (λ x. x.1) (rw (len_lem [] batch holds) at h) in
      (
        [],
        refl,
        [],
        no_rows,
        subst (λ l. Wrote l fs') (sym (append-nil bs)) (subst (Wrote bs) same wrote),
      )
  write_last_lem (r ∷ g) batch bs fs fs' holds small wrote h =
      let nonempty : (len batch == 0) ≡ false = ground (arith, len_lem (r ∷ g) batch holds) in
      let wrote_eq : (write batch >>= λ _. pure tt) fs ≡ (ok tt, fs') = rw nonempty at h in
      let (batch', fs1, write_eq, pure_eq) = >>=-eq-ok (write batch) (λ _. pure tt) fs wrote_eq in
      let same : fs1 ≡ fs' = ap (λ x. x.1) pure_eq in
      last_written (r ∷ g) batch batch' bs fs fs' holds (omega arith) small wrote
        (write_eq ∙ ap (λ x. (ok batch', x)) same)

  -- The row `r` is added to the rows that are exported.
  more_rows :
      (r : Row) (rows : List (Option Row)) (rs : List Row)
      → rows ≡ map some rs
      → some r ∷ rows ≡ map some (r ∷ rs)
  more_rows r rows rs e = ap (λ l. some r ∷ l) e

  after_full :
      (g : List Row) (r : Row) (rows : List (Option Row)) (bs : List C) (b : C) (fs' : Fs)
      → length (g ++ r ∷ []) ≡ size
      → Records (g ++ r ∷ []) b
      → Exported [] (bs ++ b ∷ []) rows fs'
      → Exported g bs (some r ∷ rows) fs'
  after_full g r rows bs b fs' full records (rs, e, more, grouped, wrote) = (
    r ∷ rs,
    more_rows r rows rs e,
    b ∷ more,
    subst (λ l. Grouped size Records l (b ∷ more)) (append_assoc g (r ∷ []) rs)
        (full_group (g ++ r ∷ []) rs b more full records grouped),
    subst (λ l. Wrote l fs') (append_assoc bs (b ∷ []) more) wrote,
  )

  after_row :
      (g : List Row) (r : Row) (rows : List (Option Row)) (bs : List C) (fs' : Fs)
      → Exported (g ++ r ∷ []) bs rows fs'
      → Exported g bs (some r ∷ rows) fs'
  after_row g r rows bs fs' (rs, e, more, grouped, wrote) = (
    r ∷ rs,
    more_rows r rows rs e,
    more,
    subst (λ l. Grouped size Records l more) (append_assoc g (r ∷ []) rs) grouped,
    wrote,
  )

  -- A round behind its push.
  abbrev pushed_round : List (Option Row) → Batch → Action Fs (Unit {0})
  pushed_round rows pushed = do
    next ← write_full size len push write pushed
    export_loop size len push write next rows

  pub export_loop_lem :
      (rows : List (Option Row)) (g : List Row) (batch : Batch) (bs : List C) (fs fs' : Fs)
      → Holds g batch
      → length g < size
      → Wrote bs fs
      → export_loop size len push write batch rows fs ≡ (ok tt, fs')
      → Exported g bs rows fs'
  unfolding export_loop
  export_loop_lem [] g batch bs fs fs' holds small wrote h =
      write_last_lem g batch bs fs fs' holds small wrote h
  export_loop_lem (none ∷ rows) g batch bs fs fs' holds small wrote h = absurd (cc)
  export_loop_lem (some row ∷ rows) g batch bs fs fs' holds small wrote h =
      let (pushed, fs1, pushed_eq, h1) =
        >>=-eq-ok (lift (push row batch)) (pushed_round rows) fs h in
      let same : fs ≡ fs1 = ap (λ x. x.1) pushed_eq in
      let h2 : pushed_round rows pushed fs ≡ (ok tt, fs') =
        subst (λ x. pushed_round rows pushed x ≡ (ok tt, fs')) (sym same) h1 in
      let holds' = push_lem g row batch pushed holds (ap (λ x. x.0) pushed_eq) in
      let pushed_len = len_lem (g ++ row ∷ []) pushed holds' ∙ length-append g (row ∷ []) in
      elim (Bool-cases (len pushed == size)) [
        | inl full ↦
            let h3 : (write pushed >>= λ next. export_loop size len push write next rows) fs
                ≡ (ok tt, fs') =
              rw full at h2 in
            let (next, fs2, write_eq, h4) =
              >>=-eq-ok (write pushed) (λ next. export_loop size len push write next rows) fs h3 in
            let (holds2, b, records, wrote2) =
              write_lem (g ++ row ∷ []) pushed next bs fs fs2 holds' wrote write_eq in
            after_full g row rows bs b fs' (ground (arith, length-append g (row ∷ []), pushed_len))
              records
              (export_loop_lem rows [] next (bs ++ b ∷ []) fs2 fs' holds2 (omega arith) wrote2 h4)
        | inr not_full ↦
            let h3 : export_loop size len push write pushed rows fs ≡ (ok tt, fs') =
              rw not_full at h2 in
            after_row g row rows bs fs' (
              export_loop_lem rows (g ++ row ∷ []) pushed bs fs fs' holds'
                (ground (arith, length-append g (row ∷ []), pushed_len)) wrote h3)
      ]
