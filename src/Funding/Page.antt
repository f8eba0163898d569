-- ===== src/Funding/Page.antt =====
-- What a page of settlements that passes the checks holds.
use lighter_timescaledb_inge.Base.{
  ◌≡◌, refl, ◌↔◌, false, Option, none, some, List, [], ◌∷◌, All, Text, ok, arith, Bool-cases,
  Result-cases, Option-cases, inl, inr, is_empty, text_eq, text_eq_iff,
}
use lighter_timescaledb_inge.Base.Int.{pos, ◌≤ℤ◌, ◌<ℤ◌, ◌==ℤ◌, ==ℤ_iff}
use lighter_timescaledb_inge.Wire.{Funding, FundingsResponse}
use lighter_timescaledb_inge.External.{Decimals, Chrono, Serde}
use lighter_timescaledb_inge.Funding.{
  SettledFunding, validate_rows, validate_page, settled, settle_all, parse_fundings_response,
  funding_resolution,
}

module _ ⦃d : Decimals⦄ ⦃c : Chrono⦄ where
  -- The row is not before `start` and not after `now`.
  abbrev pub IsInWindow : c.DateTime → c.DateTime → SettledFunding → Type 0
  IsInWindow start now row = (c.nanos start ≤ℤ c.nanos row.time) × (c.nanos row.time ≤ℤ c.nanos now)

  -- The times increase strictly from the row before on.
  abbrev pub IsIncreasingFrom : c.DateTime → List SettledFunding → Type 0
  IsIncreasingFrom previous [] = Unit
  IsIncreasingFrom previous (row ∷ rows) =
      (c.nanos previous <ℤ c.nanos row.time) × IsIncreasingFrom row.time rows

  abbrev pub IsIncreasing : List SettledFunding → Type 0
  IsIncreasing [] = Unit
  IsIncreasing (row ∷ rows) = IsIncreasingFrom row.time rows

  abbrev IsIncreasingAfter : Option c.DateTime → List SettledFunding → Type 0
  IsIncreasingAfter none rows = IsIncreasing rows
  IsIncreasingAfter (some previous) rows = IsIncreasingFrom previous rows

  validate_rows-ok_iff :
      (start now : c.DateTime) (previous : Option c.DateTime) (rows : List SettledFunding)
      → (validate_rows start now previous rows ≡ ok tt)
        ↔ (All (IsInWindow start now) rows × IsIncreasingAfter previous rows)
  unfolding validate_rows
  validate_rows-ok_iff start now none [] = (λ h. (tt, tt), λ h. refl)
  validate_rows-ok_iff start now (some p) [] = (λ h. (tt, tt), λ h. refl)
  validate_rows-ok_iff start now none (row ∷ rows) =
      let ih = validate_rows-ok_iff start now (some row.time) rows in ground arith
  validate_rows-ok_iff start now (some p) (row ∷ rows) =
      let ih = validate_rows-ok_iff start now (some row.time) rows in ground arith

  -- A page is accepted exactly if no row is before the requested start or after the current time and
  -- the times increase strictly.
  pub validate_page-ok_iff :
      (start now : c.DateTime) (rows : List SettledFunding)
      → (validate_page start now rows ≡ ok tt)
        ↔ (All (IsInWindow start now) rows × IsIncreasing rows)
  unfolding validate_page
  validate_page-ok_iff start now rows = validate_rows-ok_iff start now none rows

  -- A time in range, a rate that is a decimal, and a direction.
  abbrev pub IsSettlement : Funding → Type 0
  IsSettlement funding =
      ((t : c.DateTime) × (c.from_timestamp funding.timestamp ≡ some t))
      × ((r : d.Decimal) × (d.from_str funding.rate ≡ some r))
      × (is_empty funding.direction ≡ false)

  settled-ok_iff :
      (funding : Funding)
      → ((row : SettledFunding) × (settled funding ≡ ok row)) ↔ IsSettlement funding
  unfolding settled
  settled-ok_iff funding = elim (Option-cases (c.from_timestamp funding.timestamp)) [
    | inl bad ↦ ground arith
    | inr (t, et) ↦ elim (Option-cases (d.from_str funding.rate)) [
      | inl bad ↦ ground arith
      | inr (r, er) ↦ elim (Bool-cases (is_empty funding.direction)) [
        | inl e ↦ ground arith
        | inr e ↦ (
          λ h. ((t, et), (r, er), e),
          λ h. (record { time = t; rate = r; direction = funding.direction }, rw (et, er, e)),
        )
      ]
    ]
  ]

  settle_all-ok_iff :
      (fundings : List Funding)
      → ((rows : List SettledFunding) × (settle_all fundings ≡ ok rows)) ↔ All IsSettlement fundings
  unfolding settle_all
  settle_all-ok_iff [] = (λ h. tt, λ h. ([], refl))
  settle_all-ok_iff (funding ∷ fundings) = elim (Result-cases (settled funding)) [
    | inl (e, bad) ↦ (
      λ (rows, h). absurd (cc),
      λ a. let (row, h) = (settled-ok_iff funding).1 a.0 in absurd (cc),
    )
    | inr (row, good) ↦ elim (Result-cases (settle_all fundings)) [
      | inl (e, bad) ↦ (
        λ (rows, h). absurd (cc),
        λ a. let (rows, h) = (settle_all-ok_iff fundings).1 a.1 in absurd (cc),
      )
      | inr (rows, fine) ↦ (
        λ h. ((settled-ok_iff funding).0 (row, good), (settle_all-ok_iff fundings).0 (rows, fine)),
        λ a. (row ∷ rows, rw (good, fine)),
      )
    ]
  ]

module _ ⦃d : Decimals⦄ ⦃c : Chrono⦄ ⦃s : Serde⦄ where
  -- A body that is a response gives settlements exactly if its code is 200, its resolution is the
  -- hour, and each of its rows has a time in range, a decimal rate and a direction.
  pub parse_fundings_response-ok_iff :
      (body : Text) (resp : FundingsResponse)
      → s.to_fundings body ≡ some resp
      → ((rows : List SettledFunding) × (parse_fundings_response body ≡ ok rows)) ↔ (
          (resp.code ≡ pos 200)
          × (resp.resolution ≡ funding_resolution)
          × All IsSettlement resp.fundings)
  unfolding parse_fundings_response
  parse_fundings_response-ok_iff body resp parsed =
      let code = ==ℤ_iff resp.code (pos 200) in
      let resolution = text_eq_iff resp.resolution funding_resolution in
      let rows = settle_all-ok_iff resp.fundings in
      elim (Bool-cases (resp.code ==ℤ pos 200)) [
        | inr bad ↦ (λ (l, h). absurd (ground arith), λ a. absurd (ground arith))
        | inl good ↦ elim (Bool-cases (text_eq resp.resolution funding_resolution)) [
          | inr bad ↦ (λ (l, h). absurd (ground arith), λ a. absurd (ground arith))
          | inl same ↦
              rw (parsed, good, same)
                (λ h. (code.0 good, resolution.0 same, rows.0 h), λ a. rows.1 a.2)
        ]
      ]
