-- ===== src/Funding.antt =====
-- src/funding.rs: the hourly grid of settlements, the checks of a page, and the poll of one market.
-- A panic (`expect`, or an instant out of range) is an error.
pub mod Grid
pub mod Start
pub mod Page
pub mod Poll
pub mod Poller
mod Examples
use lighter_timescaledb_inge.Base.{
  ℕ, ◌-◌, ◌*◌, ◌%◌, Bool, true, false, not, Option, none, some, List, [], ◌∷◌, Text, codes, text_eq,
  is_empty, Result, ok, err, bad_body, bad_code, bad_resolution, bad_timestamp, bad_rate,
  empty_direction, panicked, before_start, not_increasing, after_now, and_then, ok_or,
  if◌then◌else◌,
}
use lighter_timescaledb_inge.Base.Int.{ℤ, pos, negsuc, ◌-ℤ◌, ◌==ℤ◌}
use lighter_timescaledb_inge.Wire.{Funding, FundingsResponse}
use lighter_timescaledb_inge.External.{Decimals, Chrono, Serde, earlier, not_later}

abbrev pub funding_resolution : Text
funding_resolution = codes "1h"

-- `i64::rem_euclid`
unfoldable pub rem_euclid : ℤ → ℕ → ℕ
rem_euclid (pos n) k = n % k
rem_euclid (negsuc n) k = k - 1 - n % k

module _ ⦃c : Chrono⦄ where
  unfoldable pub floor_hour : c.DateTime → Result c.DateTime
  unfolding rem_euclid
  floor_hour time =
      let secs = c.timestamp time in
      ok_or (c.from_timestamp (secs -ℤ pos (rem_euclid secs 3600))) panicked

  unfoldable pub ceil_hour : c.DateTime → Result c.DateTime
  unfolding floor_hour
  ceil_hour time = and_then (floor_hour time) λ floor.
      if c.nanos floor ==ℤ c.nanos time then ok floor else ok_or (c.add_secs floor 3600) panicked

  unfoldable pub next_request_start : Option c.DateTime → c.DateTime → Result c.DateTime
  unfolding ceil_hour
  next_request_start (some time) backfill_start =
      and_then (ok_or (c.add_secs time 1) panicked) ceil_hour
  next_request_start none backfill_start = ceil_hour backfill_start

  unfoldable pub hour_closed : c.DateTime → c.DateTime → Result Bool
  unfolding floor_hour
  hour_closed start now = and_then (floor_hour now) λ floor. ok (not_later start floor)

module _ ⦃d : Decimals⦄ ⦃c : Chrono⦄ where
  pub record SettledFunding : Type 0 where
    pub time : c.DateTime
    pub rate : d.Decimal
    pub direction : Text

  unfoldable pub settled : Funding → Result SettledFunding
  settled funding = and_then (ok_or (c.from_timestamp funding.timestamp) bad_timestamp) λ time.
      and_then (ok_or (d.from_str funding.rate) bad_rate) λ rate.
        if is_empty funding.direction
        then err empty_direction
        else ok (record { time = time; rate = rate; direction = funding.direction })

  unfoldable pub settle_all : List Funding → Result (List SettledFunding)
  unfolding settled
  settle_all [] = ok []
  settle_all (funding ∷ fundings) =
      and_then (settled funding) λ row. and_then (settle_all fundings) λ rows. ok (row ∷ rows)

  -- `previous.filter(|previous| row.time <= *previous)` is empty.
  abbrev pub follows : Option c.DateTime → c.DateTime → Bool
  follows none time = true
  follows (some previous) time = not (not_later time previous)

  -- The loop of `validate_page`, from the time of the row before.
  unfoldable pub validate_rows :
      c.DateTime → c.DateTime → Option c.DateTime → List SettledFunding → Result (Unit {0})
  validate_rows start now previous [] = ok tt
  validate_rows start now previous (row ∷ rows) =
      let rest = validate_rows start now (some row.time) rows in
      if earlier row.time start
      then err before_start
      else if follows previous row.time
      then (if earlier now row.time then err after_now else rest)
      else err not_increasing

  unfoldable pub validate_page : c.DateTime → c.DateTime → List SettledFunding → Result (Unit {0})
  unfolding validate_rows
  validate_page start now rows = validate_rows start now none rows

module _ ⦃d : Decimals⦄ ⦃c : Chrono⦄ ⦃s : Serde⦄ where
  unfoldable pub parse_fundings_response : Text → Result (List SettledFunding)
  unfolding settle_all
  parse_fundings_response body = and_then (ok_or (s.to_fundings body) bad_body) λ resp.
      if not (resp.code ==ℤ pos 200)
      then err bad_code
      else if not (text_eq resp.resolution funding_resolution)
      then err bad_resolution
      else settle_all resp.fundings
