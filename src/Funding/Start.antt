-- ===== src/Funding/Start.antt =====
-- Where the next request for settlements starts, and when it may be made.
use lighter_timescaledb_inge.Base.{
  Option, ℕ, ◌≡◌, ◌↔◌, ap, subst, ◌∙◌, sym, true, Bool, none, some, ok, arith, Option-cases,
  Result-cases, inl, inr,
}
use lighter_timescaledb_inge.Base.Int.{
  ℤ, pos, pos_part, neg_part, scale, ◌+ℤ◌, ◌≤ℤ◌, ◌<ℤ◌, scale_parts, +ℤ_parts, leb_ℤ,
}
use lighter_timescaledb_inge.External.{Chrono}
use lighter_timescaledb_inge.Funding.{floor_hour, ceil_hour, next_request_start, hour_closed}
use lighter_timescaledb_inge.Funding.Grid.{
  le_trans, ceil_hour_total, hour, IsWholeHour, IsCeil, floor_hour-IsFloor, ceil_hour-IsCeil,
}

abbrev second : ℕ
second = 1000000000

-- A whole hour after a whole second is not within the next second.
after_second : (s j t v : ℤ) → t ≡ scale second s → v ≡ scale hour j → t <ℤ v → t +ℤ pos second ≤ℤ v
after_second s j t v et ev later =
    let p1 = scale_parts second s in
    let p2 = scale_parts hour j in
    let p3 = +ℤ_parts t (pos second) in
    let p4 = ap pos_part et in
    let p5 = ap neg_part et in let p6 = ap pos_part ev in let p7 = ap neg_part ev in omega arith

before_second : (t v : ℤ) → t +ℤ pos second ≤ℤ v → t <ℤ v
before_second t v h = let p = +ℤ_parts t (pos second) in omega arith

below_later : (t latest : ℤ) → t +ℤ pos hour ≤ℤ latest → t ≤ℤ latest
below_later t latest h = let p = +ℤ_parts t (pos hour) in omega arith

-- A whole hour that is not after an instant is not after the last whole hour before it.
later_floor :
    (h j s f n : ℤ) → s ≡ scale hour h → f ≡ scale hour j → s ≤ℤ n → n <ℤ f +ℤ pos hour → s ≤ℤ f
later_floor h j s f n es ef before within =
    let p1 = scale_parts hour h in
    let p2 = scale_parts hour j in
    let p3 = +ℤ_parts f (pos hour) in
    let p4 = ap pos_part es in
    let p5 = ap neg_part es in let p6 = ap pos_part ef in let p7 = ap neg_part ef in omega arith

module _ ⦃c : Chrono⦄ where
  -- Without a stored settlement, a request starts at the first whole hour that is not before the
  -- configured instant.
  pub next_request_start-IsCeil :
      (backfill_start u : c.DateTime)
      → next_request_start none backfill_start ≡ ok u
      → IsCeil (c.nanos backfill_start) u
  unfolding next_request_start
  next_request_start-IsCeil backfill u h = ceil_hour-IsCeil backfill u h

  pub next_request_start-later :
      (time backfill_start u : c.DateTime)
      → next_request_start (some time) backfill_start ≡ ok u
      → c.nanos time <ℤ c.nanos u
  unfolding next_request_start
  next_request_start-later t backfill u h = elim (Option-cases (c.add_secs t 1)) [
    | inl bad ↦ absurd (cc)
    | inr (w, sum) ↦
        let e : ceil_hour w ≡ ok u = ground arith in
        let k = subst (λ x. IsCeil x u) (c.add_secs-nanos t 1 w sum) (ceil_hour-IsCeil w u e) in
        before_second (c.nanos t) (c.nanos u) k.not_before
  ]

  -- Behind a stored settlement at a whole second, a request starts at the first whole hour after
  -- it, whatever the configured instant is.
  pub next_request_start-resumes :
      (time backfill_start u : c.DateTime) (secs : ℤ)
      → c.nanos time ≡ scale 1000000000 secs
      → next_request_start (some time) backfill_start ≡ ok u
      → IsWholeHour u
        × (c.nanos time <ℤ c.nanos u)
        × ((v : c.DateTime) → IsWholeHour v → c.nanos time <ℤ c.nanos v → c.nanos u ≤ℤ c.nanos v)
  unfolding next_request_start
  next_request_start-resumes t backfill u secs whole h = elim (Option-cases (c.add_secs t 1)) [
    | inl bad ↦ absurd (cc)
    | inr (w, sum) ↦
        let n = c.add_secs-nanos t 1 w sum in
        let e : ceil_hour w ≡ ok u = ground arith in
        let k = subst (λ x. IsCeil x u) n (ceil_hour-IsCeil w u e) in
        (
          k.whole,
          before_second (c.nanos t) (c.nanos u) k.not_before,
          λ v wv later.
              k.first v wv
                (after_second secs wv.hours (c.nanos t) (c.nanos v) whole wv.on_grid later),
        )
  ]

  -- The instant from which on the next settlement is wanted.
  abbrev pub wanted : Option c.DateTime → c.DateTime → ℤ
  wanted none backfill_start = c.nanos backfill_start
  wanted (some time) backfill_start = c.nanos time +ℤ pos 1000000000

  -- The start of the next request is found, without a panic, if the instant from which on the next
  -- settlement is wanted is at least an hour away from the first and the last instant there is.
  pub next_request_start_total :
      (newest_stored : Option c.DateTime) (backfill_start : c.DateTime)
      → c.earliest +ℤ pos hour ≤ℤ wanted newest_stored backfill_start
      → wanted newest_stored backfill_start +ℤ pos hour ≤ℤ c.latest
      → (u : c.DateTime) × (next_request_start newest_stored backfill_start ≡ ok u)
  unfolding next_request_start
  next_request_start_total none backfill low high = ceil_hour_total backfill low high
  next_request_start_total (some t) backfill low high =
      let (w, sum) = c.add_secs_total t 1 (below_later (wanted (some t) backfill) c.latest high) in
      let e = c.add_secs-nanos t 1 w sum in
      let (u, h) =
        ceil_hour_total w (subst (λ x. c.earliest +ℤ pos hour ≤ℤ x) (sym e) low)
          (subst (λ x. x +ℤ pos hour ≤ℤ c.latest) (sym e) high) in
      (u, rw sum h)

  leb_ℤ_iff : (a b : ℤ) → (leb_ℤ a b ≡ true) ↔ (a ≤ℤ b)
  leb_ℤ_iff a b = ground arith

  -- If the clock is in range, a request that starts on the grid is made exactly if its start is not in the future.
  pub hour_closed_iff :
      (start now : c.DateTime) (closed : Bool)
      → IsWholeHour start
      → hour_closed start now ≡ ok closed
      → (closed ≡ true) ↔ (c.nanos start ≤ℤ c.nanos now)
  unfolding hour_closed
  hour_closed_iff start now closed whole h = elim (Result-cases (floor_hour now)) [
    | inl (e, bad) ↦ absurd (cc)
    | inr (f, good) ↦
        let fl = floor_hour-IsFloor now f good in
        let e : leb_ℤ (c.nanos start) (c.nanos f) ≡ closed = ground arith in
        let l = leb_ℤ_iff (c.nanos start) (c.nanos f) in
        (
          λ closes.
              le_trans (c.nanos start) (c.nanos f) (c.nanos now) (l.0 (e ∙ closes)) fl.not_after,
          λ before.
              sym e
              ∙ l.1 (
                  later_floor whole.hours fl.whole.hours (c.nanos start) (c.nanos f) (c.nanos now)
                    whole.on_grid fl.whole.on_grid before fl.within),
        )
  ]
