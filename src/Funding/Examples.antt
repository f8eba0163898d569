-- ===== src/Funding/Examples.antt =====
-- The theorems of the funding poller at concrete instants and pages.
use lighter_timescaledb_inge.Base.{
  arith, ◌≡◌, ◌↔◌, refl, true, false, none, some, List, [], ◌∷◌, ◌++◌, All, codes, ok, err,
  not_increasing,
}
use lighter_timescaledb_inge.Base.Int.{
  ℤ, ◌==ℤ◌, ==ℤ_iff, leb_ℤ, pos, negsuc, scale, ◌+ℤ◌, ◌-ℤ◌, ◌≤ℤ◌, ◌<ℤ◌,
}
use lighter_timescaledb_inge.Wire.Channel.{parse_digits}
use lighter_timescaledb_inge.Instances.{whole_decimals, year_chrono, sample_serde, sample_response}
use lighter_timescaledb_inge.Funding.{
  SettledFunding, rem_euclid, floor_hour, ceil_hour, next_request_start, hour_closed, validate_rows,
  validate_page, settled, settle_all, parse_fundings_response, funding_resolution,
}
use lighter_timescaledb_inge.Funding.Grid.{hour, IsWholeHour, IsCeil}
use lighter_timescaledb_inge.Funding.Start.{
  next_request_start_total, next_request_start-IsCeil, next_request_start-resumes, hour_closed_iff,
}
use lighter_timescaledb_inge.Funding.Page.{
  IsInWindow, IsIncreasing, IsSettlement, validate_page-ok_iff, parse_fundings_response-ok_iff,
}
use lighter_timescaledb_inge.Base.{
  Option, Bool, ℕ, length, ◌≢◌, All-imp, subst, ap, sym, if◌then◌else◌,
}
use lighter_timescaledb_inge.Table.{insert_new, conflicts}
use lighter_timescaledb_inge.Models.{FundingRateRow}
use lighter_timescaledb_inge.Funding.Poll.{
  PerpMarket, FundingTable, IsNewest, same_funding, Round, last_time, funding_row, funding_rows,
  Poller, newest_funding_time, insert_funding_rates, fetch_page, store_page, poll_hour, poll_rounds,
  poll_market,
}
use lighter_timescaledb_inge.Funding.Poll.Stored.{Adds}
use lighter_timescaledb_inge.Funding.Poll.Ordered.{IsOrdered, run_funding_poller-IsOrdered}
use lighter_timescaledb_inge.Funding.Poller.{
  poll_all, poll_forever, run_funding_poller, run_funding_poller-Adds,
}
use lighter_timescaledb_inge.Funding.Poll.Fresh.{IsNew, poll_market-IsNew}

-- Two hours and a second, and three hours, in nanoseconds.
abbrev past_two : ℤ
past_two = pos 7201000000000

abbrev three : ℤ
three = pos 10800000000000

from_past_two : next_request_start none past_two ≡ ok three
unfolding next_request_start ceil_hour floor_hour rem_euclid ◌-ℤ◌ ◌+ℤ◌ scale
from_past_two = refl

-- Before the epoch the last whole hour is one further back.
below_epoch : floor_hour (negsuc 0) ≡ ok (negsuc 3599999999999)
unfolding floor_hour rem_euclid ◌-ℤ◌ scale
below_epoch = refl

next_request_start-IsCeil_example : IsCeil past_two three
next_request_start-IsCeil_example = next_request_start-IsCeil past_two three from_past_two

after_two : next_request_start (some (pos 7200000000000)) (pos 0) ≡ ok three
unfolding next_request_start ceil_hour floor_hour rem_euclid ◌-ℤ◌ ◌+ℤ◌ scale
after_two = refl

two_whole : pos 7200000000000 ≡ scale 1000000000 (pos 7200)
unfolding scale
two_whole = refl

next_request_start-resumes_example :
    IsWholeHour three
    × (pos 7200000000000 <ℤ three)
    × ((v : ℤ) → IsWholeHour v → pos 7200000000000 <ℤ v → three ≤ℤ v)
next_request_start-resumes_example =
    next_request_start-resumes (pos 7200000000000) (pos 0) three (pos 7200) two_whole after_two

open_at_two : hour_closed three past_two ≡ ok false
unfolding hour_closed floor_hour rem_euclid ◌-ℤ◌ scale
open_at_two = refl

three_whole : IsWholeHour three
three_whole = (next_request_start-IsCeil past_two three from_past_two).whole

hour_closed_iff_example : (false ≡ true) ↔ (three ≤ℤ past_two)
hour_closed_iff_example = hour_closed_iff three past_two false three_whole open_at_two

abbrev settlement : ℤ → SettledFunding
settlement time = record { time = time; rate = 12; direction = codes "long" }

abbrev page : List SettledFunding
page = settlement (pos 3600000000000) ∷ settlement (pos 7200000000000) ∷ []

validate_page-ok_iff_example :
    (validate_page (pos 3600000000000) past_two page ≡ ok tt)
    ↔ (All (IsInWindow (pos 3600000000000) past_two) page × IsIncreasing page)
validate_page-ok_iff_example = validate_page-ok_iff (pos 3600000000000) past_two page

parsed : parse_fundings_response (codes "f") ≡ ok page
unfolding parse_fundings_response settle_all settled parse_digits scale
parsed = refl

twice : validate_page (pos 0) three (page ++ page) ≡ err not_increasing
unfolding validate_page validate_rows
twice = refl

parse_fundings_response-ok_iff_example :
    ((rows : List SettledFunding) × (parse_fundings_response (codes "f") ≡ ok rows)) ↔ (
      (sample_response.code ≡ pos 200)
      × (sample_response.resolution ≡ funding_resolution)
      × All IsSettlement sample_response.fundings)
parse_fundings_response-ok_iff_example =
    parse_fundings_response-ok_iff (codes "f") sample_response refl

-- The latest of two times.
abbrev later_of : Option ℤ → ℤ → ℤ
later_of none t = t
later_of (some u) t = if leb_ℤ t u then u else t

abbrev newest_of : ℤ → List FundingRateRow → Option ℤ
newest_of symbol [] = none
newest_of symbol (row ∷ rows) =
    let newest = newest_of symbol rows in
    if row.symbol ==ℤ symbol then some (later_of newest row.time) else newest

IsNewest-step :
    (symbol : ℤ) (row : FundingRateRow) (rows : List FundingRateRow) (b : Bool) (o : Option ℤ)
    → (row.symbol ==ℤ symbol) ≡ b
    → IsNewest symbol o rows
    → IsNewest symbol (if b then some (later_of o row.time) else o) (row ∷ rows)
IsNewest-step symbol row rows true none e all = (
  λ _. omega arith,
  All-imp {Q = λ (r : FundingRateRow). r.symbol ≡ symbol → r.time ≤ℤ row.time}
      (λ r other same. absurd (other same)) rows all,
)
IsNewest-step symbol row rows true (some u) e all = by_test (leb_ℤ row.time u) refl
  where
    by_test :
        (b : Bool)
        → leb_ℤ row.time u ≡ b
        → IsNewest symbol (some (if b then u else row.time)) (row ∷ rows)
    by_test true le = (λ _. ground (arith, le), all)
    by_test false gt = (
      λ _. omega arith,
      All-imp {Q = λ (r : FundingRateRow). r.symbol ≡ symbol → r.time ≤ℤ row.time}
          (λ r old same. let before = old same in ground (arith, before, gt)) rows all,
    )
IsNewest-step symbol row rows false none e all =
    (λ same. ground (arith, same, e, ==ℤ_iff row.symbol symbol), all)
IsNewest-step symbol row rows false (some u) e all =
    (λ same. absurd (ground (arith, same, e, ==ℤ_iff row.symbol symbol)), all)

newest_of-IsNewest :
    (symbol : ℤ) (rows : List FundingRateRow) → IsNewest symbol (newest_of symbol rows) rows
newest_of-IsNewest symbol [] = tt
newest_of-IsNewest symbol (row ∷ rows) =
    IsNewest-step symbol row rows (row.symbol ==ℤ symbol) (newest_of symbol rows) refl
      (newest_of-IsNewest symbol rows)

abbrev Execution : Type 0
Execution = Option ℕ × List FundingRateRow

some_none : (n : ℕ) (db db' : List FundingRateRow) → ◌≢◌ {A = Execution} (some n, db) (none, db')
some_none n db db' h = absurd (cc)

-- Every statement succeeds.
instance abbrev memory : FundingTable
memory = record {
  Db = List FundingRateRow;
  rows = λ db. db;
  max_time = λ symbol db. some (newest_of symbol db);
  execute = λ new db. (some (length new), insert_new same_funding db new);
  max_time-IsNewest = λ symbol db newest h.
      subst (λ o. IsNewest symbol o db)
        (ap (λ (o : Option (Option ℤ)). elim o [ none ↦ none | some n ↦ n ]) h)
        (newest_of-IsNewest symbol db);
  inserted = λ new db db' n h. sym (ap (λ (x : Execution). x.1) h);
  failed = λ new db db' h. absurd (some_none (length new) (insert_new same_funding db new) db' h);
}

abbrev market : PerpMarket
market = record { symbol_id = pos 3; name = codes "A"; lighter_market_id = pos 7 }

abbrev poller : Poller
poller = record { db = []; given = [] }

-- One pass half past two.
abbrev round : Round
round = record { closed_at = past_two; reply = some (codes "f"); checked_at = past_two }

abbrev stored_row : ℤ → FundingRateRow
stored_row time = record { time = time; symbol = pos 3; rate = 12; direction = codes "long" }

polled :
    (poll_market market (pos 1) (round ∷ []) poller).1.given
    ≡ stored_row (pos 3600000000000) ∷ stored_row (pos 7200000000000) ∷ []
unfolding poll_market newest_funding_time poll_rounds poll_hour store_page insert_funding_rates
    fetch_page last_time funding_row funding_rows next_request_start ceil_hour floor_hour rem_euclid
    hour_closed validate_page validate_rows parse_fundings_response settle_all settled parse_digits
    ◌-ℤ◌ ◌+ℤ◌ scale
polled = refl

poll_market-IsNew_example :
    (rows : List FundingRateRow) × ((poll_market market (pos 1) (round ∷ []) poller).1.given
      ≡ [] ++ rows)
    × IsNew (pos 3) none (pos 1) rows
poll_market-IsNew_example = poll_market-IsNew market (pos 1) (round ∷ []) poller none refl

-- The second pass polls the same hours again.
abbrev passes : List (PerpMarket → List Round)
passes = (λ market. round ∷ []) ∷ (λ market. round ∷ []) ∷ []

-- It gives the table nothing, as no hour is closed that is not stored.
ran : run_funding_poller (market ∷ []) (pos 1) passes poller ≡ (
  ok tt,
  record {
    db = stored_row (pos 3600000000000) ∷ stored_row (pos 7200000000000) ∷ [];
    given = stored_row (pos 3600000000000) ∷ stored_row (pos 7200000000000) ∷ [];
  },
)
unfolding run_funding_poller poll_forever poll_all poll_market newest_funding_time poll_rounds
    poll_hour store_page insert_funding_rates fetch_page last_time funding_row funding_rows
    next_request_start ceil_hour floor_hour rem_euclid hour_closed validate_page validate_rows
    parse_fundings_response settle_all settled parse_digits insert_new conflicts same_funding ◌-ℤ◌
    ◌+ℤ◌ scale
ran = refl

run_funding_poller-Adds_example :
    Adds poller
      (run_funding_poller (market ∷ []) (pos 1) passes poller).0
      (run_funding_poller (market ∷ []) (pos 1) passes poller).1
run_funding_poller-Adds_example = run_funding_poller-Adds (market ∷ []) (pos 1) passes poller

away_from_first : year_chrono.earliest +ℤ pos hour ≤ℤ past_two
unfolding ◌+ℤ◌
away_from_first = omega arith

away_from_last : past_two +ℤ pos hour ≤ℤ year_chrono.latest
unfolding ◌+ℤ◌
away_from_last = omega arith

next_request_start_total_example : (u : ℤ) × (next_request_start none past_two ≡ ok u)
next_request_start_total_example =
    next_request_start_total none past_two away_from_first away_from_last

run_funding_poller-IsOrdered_example :
    IsOrdered (run_funding_poller (market ∷ []) (pos 1) passes poller).1.db
run_funding_poller-IsOrdered_example =
    run_funding_poller-IsOrdered (market ∷ []) (pos 1) passes poller tt
