-- ===== src/Funding/Grid.antt =====
-- The hourly grid: where a request starts, and when the hour it starts at is over.
use lighter_timescaledb_inge.Base.{refl}
use lighter_timescaledb_inge.Base.{
  ℕ, ◌/◌, ◌<◌, ◌+◌, ◌≡◌, ◌≢◌, ap, subst, ◌∙◌, false, ok, arith, Option-cases, Result-cases,
  Bool-cases, inl, inr,
}
use lighter_timescaledb_inge.Base.Int.{
  ℤ, pos, negsuc, pos_part, neg_part, scale, ◌+ℤ◌, ◌-ℤ◌, ◌≤ℤ◌, ◌<ℤ◌, ◌==ℤ◌, ==ℤ_iff, scale_parts,
  +ℤ_parts, -ℤ_parts, eq_of_parts,
}
use lighter_timescaledb_inge.External.{Chrono}
use lighter_timescaledb_inge.Funding.{rem_euclid, floor_hour, ceil_hour}

abbrev pub hour : ℕ
hour = 3600000000000

-- The whole hours of some seconds.
abbrev hours_of : ℤ → ℤ
hours_of (pos n) = pos (n / 3600)
hours_of (negsuc n) = negsuc (n / 3600)

-- Taking off the remainder leaves whole hours.
rem_euclid-hours : (n : ℤ) → n -ℤ pos (rem_euclid n 3600) ≡ scale 3600 (hours_of n)
unfolding rem_euclid ◌-ℤ◌ scale
rem_euclid-hours (pos n) = ground arith
rem_euclid-hours (negsuc n) = ground arith

rem_euclid-bound : (n : ℤ) → rem_euclid n 3600 < 3600
unfolding rem_euclid
rem_euclid-bound (pos n) = omega arith
rem_euclid-bound (negsuc n) = omega arith

scale-scale : (n : ℤ) → scale 1000000000 (scale 3600 n) ≡ scale hour n
unfolding scale
scale-scale n = ground arith

floor_arith :
    (s n v : ℤ)
    → v ≡ scale 1000000000 (s -ℤ pos (rem_euclid s 3600))
    → scale 1000000000 s ≤ℤ n
    → n <ℤ scale 1000000000 s +ℤ pos 1000000000
    → (v ≡ scale hour (hours_of s)) × (v ≤ℤ n) × (n <ℤ v +ℤ pos hour)
floor_arith s n v e lo hi =
    let w = s -ℤ pos (rem_euclid s 3600) in
    let parts = -ℤ_parts s (pos (rem_euclid s 3600)) in
    let small = rem_euclid-bound s in
    let p1 = scale_parts 1000000000 w in
    let p2 = scale_parts 1000000000 s in
    let p3 = +ℤ_parts (scale 1000000000 s) (pos 1000000000) in
    let p4 = +ℤ_parts v (pos hour) in
    let p5 = ap pos_part e in
    let p6 = ap neg_part e in
    (
      e ∙ ap (scale 1000000000) (rem_euclid-hours s) ∙ scale-scale (hours_of s),
      omega arith,
      omega arith,
    )

-- A whole hour that is less than an hour behind an instant is the first one that is not before it.
grid_least :
    (h j n u v : ℤ) → u ≡ scale hour h → v ≡ scale hour j → u <ℤ n +ℤ pos hour → n ≤ℤ v → u ≤ℤ v
grid_least h j n u v eu ev near wanted =
    let p1 = scale_parts hour h in
    let p2 = scale_parts hour j in
    let p3 = +ℤ_parts n (pos hour) in
    let p4 = ap pos_part eu in
    let p5 = ap neg_part eu in let p6 = ap pos_part ev in let p7 = ap neg_part ev in omega arith

-- Integers that are told apart have parts that differ.
differ : (n f : ℤ) → (f ==ℤ n) ≡ false → pos_part f + neg_part n ≢ pos_part n + neg_part f
differ n f other same = ground (arith, ==ℤ_iff f n, eq_of_parts f n)

next_on_grid : (h : ℤ) → scale hour h +ℤ pos hour ≡ scale hour (h +ℤ pos 1)
next_on_grid h =
    let p1 = scale_parts hour h in
    let p2 = scale_parts hour (h +ℤ pos 1) in
    let p3 = +ℤ_parts h (pos 1) in
    let p4 = +ℤ_parts (scale hour h) (pos hour) in eq_of_parts _ _ (omega arith)

above_floor :
    (n f u : ℤ)
    → f ≤ℤ n
    → n <ℤ f +ℤ pos hour
    → (f ==ℤ n) ≡ false
    → u ≡ f +ℤ pos hour
    → (n ≤ℤ u) × (u <ℤ n +ℤ pos hour)
above_floor n f u lo hi other e =
    let p1 = +ℤ_parts f (pos hour) in
    let p2 = +ℤ_parts n (pos hour) in
    let p3 = ap pos_part e in
    let p4 = ap neg_part e in let p5 = differ n f other in (omega arith, omega arith)

in_reach : (lowest t u : ℤ) → lowest +ℤ pos hour ≤ℤ t → t <ℤ u +ℤ pos hour → lowest ≤ℤ u
in_reach lowest t u low hi =
    let p = +ℤ_parts lowest (pos hour) in let q = +ℤ_parts u (pos hour) in omega arith

below_hour : (t : ℤ) → t ≤ℤ t +ℤ pos hour
below_hour t = let p = +ℤ_parts t (pos hour) in omega arith

both_later : (s t : ℤ) → s ≤ℤ t → s +ℤ pos hour ≤ℤ t +ℤ pos hour
both_later s t h = let p = +ℤ_parts s (pos hour) in let q = +ℤ_parts t (pos hour) in omega arith

pub le_trans : (a b x : ℤ) → a ≤ℤ b → b ≤ℤ x → a ≤ℤ x
le_trans a b x h k = omega arith

module _ ⦃c : Chrono⦄ where
  -- A whole hour since the epoch.
  pub record IsWholeHour (t : c.DateTime) : Type 0 where
    pub hours : ℤ
    pub on_grid : c.nanos t ≡ scale hour hours

  -- The last whole hour that is not after `t`.
  pub record IsFloor (t u : c.DateTime) : Type 0 where
    pub whole : IsWholeHour u
    pub not_after : c.nanos u ≤ℤ c.nanos t
    pub within : c.nanos t <ℤ c.nanos u +ℤ pos hour

  pub floor_hour-IsFloor : (t u : c.DateTime) → floor_hour t ≡ ok u → IsFloor t u
  unfolding floor_hour
  floor_hour-IsFloor t u h =
      elim (Option-cases
        (c.from_timestamp (c.timestamp t -ℤ pos (rem_euclid (c.timestamp t) 3600)))) [
          | inl bad ↦ ground arith
          | inr (v, good) ↦
              let e = c.from_timestamp-nanos _ v good in
              let (lo, hi) = c.timestamp_floor t in
              let e' = floor_arith (c.timestamp t) (c.nanos t) (c.nanos v) e lo hi in
              let same : v ≡ u = ground arith in
              subst (IsFloor t) same (record {
                whole = record { hours = hours_of (c.timestamp t); on_grid = e'.0 };
                not_after = e'.1;
                within = e'.2;
              })
        ]

  -- The first whole hour that is not before `n`.
  pub record IsCeil (n : ℤ) (u : c.DateTime) : Type 0 where
    pub whole : IsWholeHour u
    pub not_before : n ≤ℤ c.nanos u
    pub first : (v : c.DateTime) → IsWholeHour v → n ≤ℤ c.nanos v → c.nanos u ≤ℤ c.nanos v

  near-IsCeil :
      (n : ℤ) (u : c.DateTime)
      → IsWholeHour u
      → n ≤ℤ c.nanos u
      → c.nanos u <ℤ n +ℤ pos hour
      → IsCeil n u
  near-IsCeil n u w lo hi = record {
    whole = w;
    not_before = lo;
    first = λ v wv wanted.
        grid_least w.hours wv.hours n (c.nanos u) (c.nanos v) w.on_grid wv.on_grid hi wanted;
  }

  same-IsCeil : (n : ℤ) (u : c.DateTime) → IsWholeHour u → c.nanos u ≡ n → IsCeil n u
  same-IsCeil n u w e =
      let p1 = +ℤ_parts n (pos hour) in
      let p2 = ap pos_part e in
      let p3 = ap neg_part e in near-IsCeil n u w (omega arith) (omega arith)

  pub ceil_hour-IsCeil : (t u : c.DateTime) → ceil_hour t ≡ ok u → IsCeil (c.nanos t) u
  unfolding ceil_hour
  ceil_hour-IsCeil t u h = elim (Result-cases (floor_hour t)) [
    | inl (e, bad) ↦ ground arith
    | inr (f, good) ↦
        let fl = floor_hour-IsFloor t f good in
        elim (Bool-cases (c.nanos f ==ℤ c.nanos t)) [
          | inl same ↦
              let e : f ≡ u = ground arith in
              subst (IsCeil (c.nanos t)) e
                (same-IsCeil (c.nanos t) f fl.whole ((==ℤ_iff (c.nanos f) (c.nanos t)).0 same))
          | inr other ↦ elim (Option-cases (c.add_secs f 3600)) [
            | inl bad ↦ ground arith
            | inr (v, sum) ↦
                let e : v ≡ u = ground arith in
                let n = c.add_secs-nanos f 3600 v sum in
                let (lo, hi) =
                  above_floor (c.nanos t) (c.nanos f) (c.nanos v) fl.not_after fl.within other n in
                subst (IsCeil (c.nanos t)) e (
                  near-IsCeil (c.nanos t) v
                    (record {
                      hours = fl.whole.hours +ℤ pos 1;
                      on_grid =
                          n
                          ∙ ap (λ x. x +ℤ pos hour) fl.whole.on_grid
                          ∙ next_on_grid fl.whole.hours;
                    })
                    lo hi)
          ]
        ]
  ]

  pub floor_hour_total :
      (t : c.DateTime)
      → c.earliest +ℤ pos hour ≤ℤ c.nanos t
      → c.nanos t ≤ℤ c.latest
      → (u : c.DateTime) × (floor_hour t ≡ ok u)
  unfolding floor_hour
  floor_hour_total t low high =
      let w = c.timestamp t -ℤ pos (rem_euclid (c.timestamp t) 3600) in
      let (lo, hi) = c.timestamp_floor t in
      let e = floor_arith (c.timestamp t) (c.nanos t) (scale 1000000000 w) refl lo hi in
      let p = +ℤ_parts c.earliest (pos hour) in
      let q = +ℤ_parts (scale 1000000000 w) (pos hour) in
      let above : c.earliest ≤ℤ scale 1000000000 w =
        in_reach c.earliest (c.nanos t) (scale 1000000000 w) low e.2 in
      let below : scale 1000000000 w ≤ℤ c.latest =
        le_trans (scale 1000000000 w) (c.nanos t) c.latest e.1 high in
      let (u, h) = c.from_timestamp_total w above below in (u, rw h refl)

  pub ceil_hour_total :
      (t : c.DateTime)
      → c.earliest +ℤ pos hour ≤ℤ c.nanos t
      → c.nanos t +ℤ pos hour ≤ℤ c.latest
      → (u : c.DateTime) × (ceil_hour t ≡ ok u)
  unfolding ceil_hour
  ceil_hour_total t low high =
      let (f, good) =
        floor_hour_total t low
          (le_trans (c.nanos t) (c.nanos t +ℤ pos hour) c.latest (below_hour (c.nanos t)) high) in
      let fl = floor_hour-IsFloor t f good in
      let (v, sum) = c.add_secs_total f 3600 (
        le_trans (c.nanos f +ℤ pos hour) (c.nanos t +ℤ pos hour) c.latest
          (both_later (c.nanos f) (c.nanos t) fl.not_after) high) in
      elim (Bool-cases (c.nanos f ==ℤ c.nanos t)) [
        | inl same ↦ (f, rw (good, same) refl)
        | inr other ↦ (v, rw (good, other, sum) refl)
      ]
