-- ===== src/Funding/Poll/Times.antt =====
-- Rows of one symbol in order of time, and how a page and the rows behind it join.
use lighter_timescaledb_inge.Base.{◌≡◌, refl, sym, subst, some, List, [], ◌∷◌, ◌++◌, All, arith}
use lighter_timescaledb_inge.Base.Int.{ℤ, pos, ◌+ℤ◌, +ℤ_parts, ◌≤ℤ◌, ◌<ℤ◌}
use lighter_timescaledb_inge.External.{Decimals, Chrono}
use lighter_timescaledb_inge.Models.{FundingRateRow}
use lighter_timescaledb_inge.Funding.{SettledFunding}
use lighter_timescaledb_inge.Funding.Page.{IsInWindow, IsIncreasing, IsIncreasingFrom}
use lighter_timescaledb_inge.Funding.Poll.{last_time, funding_rows}

pub next_after : (t : ℤ) → t <ℤ t +ℤ pos 1
next_after t = let p = +ℤ_parts t (pos 1) in omega arith

pub one_later : (t u : ℤ) → t <ℤ u → t +ℤ pos 1 ≤ℤ u
one_later t u h = let p = +ℤ_parts t (pos 1) in omega arith

module _ ⦃d : Decimals⦄ ⦃c : Chrono⦄ where
  -- Rows of one symbol whose times increase strictly from `previous` on.
  abbrev pub IsAfter : ℤ → ℤ → List FundingRateRow → Type 0
  IsAfter symbol previous [] = Unit
  IsAfter symbol previous (row ∷ rows) =
      (row.symbol ≡ symbol)
      × (previous <ℤ c.nanos row.time)
      × IsAfter symbol (c.nanos row.time) rows

  -- The same, where the first time may be `start`.
  abbrev pub IsFrom : ℤ → ℤ → List FundingRateRow → Type 0
  IsFrom symbol start [] = Unit
  IsFrom symbol start (row ∷ rows) =
      (row.symbol ≡ symbol) × (start ≤ℤ c.nanos row.time) × IsAfter symbol (c.nanos row.time) rows

  pub IsFrom-IsAfter :
      (symbol previous start : ℤ) (rows : List FundingRateRow)
      → previous <ℤ start
      → IsFrom symbol start rows
      → IsAfter symbol previous rows
  IsFrom-IsAfter symbol previous start [] h a = tt
  IsFrom-IsAfter symbol previous start (row ∷ rows) h (e, lo, a) = (e, omega arith, a)

  pub IsFrom-earlier :
      (symbol start later : ℤ) (rows : List FundingRateRow)
      → start ≤ℤ later
      → IsFrom symbol later rows
      → IsFrom symbol start rows
  IsFrom-earlier symbol start later [] h a = tt
  IsFrom-earlier symbol start later (row ∷ rows) h (e, lo, a) = (e, omega arith, a)

  -- A page and then rows that start behind its last time.
  page-IsAfter :
      (symbol : ℤ) (row : SettledFunding) (rows : List SettledFunding) (last : c.DateTime)
      (next : ℤ) (more : List FundingRateRow)
      → IsIncreasingFrom row.time rows
      → last_time (row ∷ rows) ≡ some last
      → c.nanos last <ℤ next
      → IsFrom symbol next more
      → IsAfter symbol (c.nanos row.time) (funding_rows symbol rows ++ more)
  unfolding last_time funding_rows
  page-IsAfter symbol row [] last next more inc e h a =
      let same : row.time ≡ last = ground arith in
      IsFrom-IsAfter symbol (c.nanos row.time) next more
        (subst (λ t. c.nanos t <ℤ next) (sym same) h) a
  page-IsAfter symbol row (r ∷ rows) last next more inc e h a =
      (refl, inc.0, page-IsAfter symbol r rows last next more inc.1 e h a)

  pub page-IsFrom :
      (symbol : ℤ) (start now : c.DateTime) (rows : List SettledFunding) (last : c.DateTime)
      (next : ℤ) (more : List FundingRateRow)
      → All (IsInWindow start now) rows
      → IsIncreasing rows
      → last_time rows ≡ some last
      → c.nanos last <ℤ next
      → IsFrom symbol next more
      → IsFrom symbol (c.nanos start) (funding_rows symbol rows ++ more)
  unfolding last_time funding_rows
  page-IsFrom symbol start now [] last next more w inc e h a = absurd (cc)
  page-IsFrom symbol start now (row ∷ rows) last next more w inc e h a =
      (refl, w.0.0, page-IsAfter symbol row rows last next more inc e h a)
