-- ===== src/OrderedMap/Lookup.antt =====
-- `insert` and `remove` keep the order and change the map at one key only.
use lighter_timescaledb_inge.Base.{
  Ordering, lt, eq, ◌≡◌, refl, none, some, List, [], ◌∷◌, arith, All, All-imp,
}
use mathlib.Core.Path.{ap₂}
use lighter_timescaledb_inge.OrderedMap.{IsOrder, get, insert, remove, IsSorted, values}

module _ {ℓ κ} {K : Type ℓ} {V : Type κ} {cmp : K → K → Ordering} (o : IsOrder cmp) where
  -- Every entry that an update leaves behind satisfies what the old entries and the new one did.
  pub All-insert {μ} :
      (P : K × V → Type μ) (q : K) (w : V) (m : List (K × V))
      → P (q, w)
      → ((k : K) (v : V) → cmp q k ≡ eq → P (k, v) → P (k, w))
      → All P m
      → All P (insert cmp q w m)
  unfolding insert
  All-insert P q w [] p f a = (p, tt)
  All-insert P q w ((k, v) ∷ m) p f a = ground (arith, f k v, All-insert P q w m p f a.1)

  pub All-remove {μ} :
      (P : K × V → Type μ) (q : K) (m : List (K × V)) → All P m → All P (remove cmp q m)
  unfolding remove
  All-remove P q [] a = tt
  All-remove P q ((k, v) ∷ m) a = ground (arith, All-remove P q m a.1)

  All-below :
      (k q : K) (m : List (K × V))
      → All (λ (e : K × V). cmp k e.0 ≡ lt) m
      → cmp q k ≡ lt
      → All (λ (e : K × V). cmp q e.0 ≡ lt) m
  All-below k q m a h = All-imp (λ e l. o.lt_trans q k e.0 h l) m a

  pub All-same :
      (k q : K) (m : List (K × V))
      → All (λ (e : K × V). cmp k e.0 ≡ lt) m
      → cmp q k ≡ eq
      → All (λ (e : K × V). cmp q e.0 ≡ lt) m
  All-same k q m a h = All-imp (λ e l. rw (o.eq_cmp q k e.0 h) l) m a

  pub insert-IsSorted :
      (q : K) (w : V) (m : List (K × V)) → IsSorted cmp m → IsSorted cmp (insert cmp q w m)
  unfolding insert
  insert-IsSorted q w [] s = (tt, tt)
  insert-IsSorted q w ((k, v) ∷ m) s = ground (
    arith,
    insert-IsSorted q w m s.1,
    All-insert (λ (e : K × V). cmp k e.0 ≡ lt) q w m,
    o.gt_flips q k,
    All-below k q m,
  )

  pub remove-IsSorted : (q : K) (m : List (K × V)) → IsSorted cmp m → IsSorted cmp (remove cmp q m)
  unfolding remove
  remove-IsSorted q [] s = tt
  remove-IsSorted q ((k, v) ∷ m) s =
      ground (arith, remove-IsSorted q m s.1, All-remove (λ (e : K × V). cmp k e.0 ≡ lt) q m s.0)

  -- Below the least key nothing is found.
  pub get_below :
      (p : K) (m : List (K × V)) → All (λ (e : K × V). cmp p e.0 ≡ lt) m → get cmp p m ≡ none
  unfolding get
  get_below p [] a = refl
  get_below p ((k, v) ∷ m) a = ground (arith, get_below p m a.1)

  -- After an insertion the map is changed at the keys equal to the new one.
  pub get-insert :
      (p q : K) (w : V) (m : List (K × V))
      → get cmp p (insert cmp q w m) ≡ elim (cmp p q) [ eq ↦ some w | _ ↦ get cmp p m ]
  unfolding get insert
  get-insert p q w [] = refl
  get-insert p q w ((k, v) ∷ m) =
      ground (arith, get-insert p q w m, o.eq_cmp p q k, o.eq_cmp p k q, o.eq_symm q k)

  -- After a removal nothing is found at the keys equal to the removed one.
  pub get-remove :
      (p q : K) (m : List (K × V))
      → IsSorted cmp m
      → get cmp p (remove cmp q m) ≡ elim (cmp p q) [ eq ↦ none | _ ↦ get cmp p m ]
  unfolding get remove
  get-remove p q [] s = ground arith
  get-remove p q ((k, v) ∷ m) s = ground (
    arith,
    get-remove p q m s.1,
    o.eq_cmp p q k,
    o.eq_cmp p k q,
    o.eq_symm q k,
    get_below p m,
    All-below k p m s.0,
    All-same k p m s.0,
  )

  get_tail :
      (k j : K) (v w : V) (m n : List (K × V))
      → All (λ (e : K × V). cmp k e.0 ≡ lt) m
      → All (λ (e : K × V). cmp j e.0 ≡ lt) n
      → cmp k j ≡ eq
      → ((p : K) → get cmp p ((k, v) ∷ m) ≡ get cmp p ((j, w) ∷ n))
      → (p : K) → get cmp p m ≡ get cmp p n
  unfolding get
  get_tail k j v w m n a b e h p = ground (
    arith,
    h p,
    o.eq_cmp p k j,
    o.eq_cmp p j k,
    o.eq_symm k j,
    get_below p m,
    get_below p n,
    All-same k p m a,
    All-same j p n b,
  )

  nothing : (p : K) → get {V = V} cmp p [] ≡ none
  unfolding get
  nothing p = refl

  get_head : (k : K) (v : V) (m : List (K × V)) → get cmp k ((k, v) ∷ m) ≡ some v
  unfolding get
  get_head k v m = rw (o.cmp_refl k, get)

  heads_eq :
      (k j : K) (v w : V) (m n : List (K × V))
      → IsSorted cmp ((k, v) ∷ m)
      → IsSorted cmp ((j, w) ∷ n)
      → ((p : K) → get cmp p ((k, v) ∷ m) ≡ get cmp p ((j, w) ∷ n))
      → (cmp k j ≡ eq) × (v ≡ w)
  unfolding get
  heads_eq k j v w m n s t h = ground (
    arith,
    h k,
    h j,
    o.cmp_refl k,
    o.cmp_refl j,
    o.gt_flips k j,
    o.lt_flips k j,
    o.eq_symm k j,
    get_below k n,
    All-below j k n t.0,
    get_below j m,
    All-below k j m s.0,
  )

  -- Maps that answer every lookup alike hold the same values in the same order.
  pub values_ext :
      (m n : List (K × V))
      → IsSorted cmp m
      → IsSorted cmp n
      → ((p : K) → get cmp p m ≡ get cmp p n)
      → values m ≡ values n
  unfolding values
  values_ext [] [] s t h = refl
  values_ext [] ((j, w) ∷ n) s t h = absurd (cc (h j, get_head j w n, nothing j))
  values_ext ((k, v) ∷ m) [] s t h = absurd (cc (h k, get_head k v m, nothing k))
  values_ext ((k, v) ∷ m) ((j, w) ∷ n) s t h =
      let e = heads_eq k j v w m n s t h in
      ap₂ ◌∷◌ e.1 (values_ext m n s.1 t.1 (get_tail k j v w m n s.0 t.0 e.0 h))
