-- ===== src/Funding/Poll.antt =====
-- src/funding.rs: the poll of one market. A round is what one pass of its loop meets: the clock at
-- its two readings, and the body of the reply, if the request succeeds.
pub mod Times
pub mod Fresh
pub mod Takes
pub mod Stored
pub mod Ordered
use lighter_timescaledb_inge.Base.{
  ℕ, ◌≡◌, ◌≢◌, ◌&&◌, All, Bool, true, false, Option, none, some, List, [], ◌∷◌, ◌++◌, Text, map,
  ltb, length, Result, ok, err, request_failed, database_failed, and_then, ok_or, Action, ◌>>=◌,
  ◌>>◌, pure, lift, if◌then◌else◌,
}
use lighter_timescaledb_inge.Base.Int.{ℤ, ◌==ℤ◌, ◌≤ℤ◌}
use lighter_timescaledb_inge.Table.{insert_new}
use lighter_timescaledb_inge.External.{Decimals, Chrono, Serde}
use lighter_timescaledb_inge.Models.{FundingRateRow}
use lighter_timescaledb_inge.Funding.{
  SettledFunding, next_request_start, hour_closed, validate_page, parse_fundings_response,
}

pub record PerpMarket : Type 0 where
  pub symbol_id : ℤ
  pub name : Text
  pub lighter_market_id : ℤ

abbrev pub max_fundings_per_call : ℕ
max_fundings_per_call = 750

module _ ⦃d : Decimals⦄ ⦃c : Chrono⦄ where
  -- The primary key of the table `funding_rates`.
  unfoldable pub same_funding : FundingRateRow → FundingRateRow → Bool
  same_funding a b = a.symbol ==ℤ b.symbol && c.nanos a.time ==ℤ c.nanos b.time

  -- The newest time of a symbol among some rows.
  abbrev pub IsNewest : ℤ → Option c.DateTime → List FundingRateRow → Type 0
  IsNewest symbol none rows = All (λ (row : FundingRateRow). row.symbol ≢ symbol) rows
  IsNewest symbol (some newest) rows =
      All (λ (row : FundingRateRow). row.symbol ≡ symbol → c.nanos row.time ≤ℤ c.nanos newest) rows

  -- The table `funding_rates`, through a pooled connection. `none` is a failure.
  pub record FundingTable : Type 1 where
    pub Db : Type 0
    pub rows : Db → List FundingRateRow
    -- `select max(time)` of one symbol
    pub max_time : ℤ → Db → Option (Option c.DateTime)
    -- The insert that skips the rows whose symbol and time are there.
    pub execute : List FundingRateRow → Db → Option ℕ × Db
    pub max_time-IsNewest :
        (symbol : ℤ) (db : Db) (newest : Option c.DateTime)
        → max_time symbol db ≡ some newest
        → IsNewest symbol newest (rows db)
    pub inserted :
        (new : List FundingRateRow) (db db' : Db) (n : ℕ)
        → execute new db ≡ (some n, db')
        → rows db' ≡ insert_new same_funding (rows db) new
    pub failed :
        (new : List FundingRateRow) (db db' : Db)
        → execute new db ≡ (none, db')
        → rows db' ≡ rows db

  pub record Round : Type 0 where
    pub closed_at : c.DateTime
    pub reply : Option Text
    pub checked_at : c.DateTime

  unfoldable pub last_time : List SettledFunding → Option c.DateTime
  last_time [] = none
  last_time (row ∷ []) = some row.time
  last_time (row ∷ next ∷ rows) = last_time (next ∷ rows)

  unfoldable pub funding_row : ℤ → SettledFunding → FundingRateRow
  funding_row symbol_id row = record {
    time = row.time;
    symbol = symbol_id;
    rate = row.rate;
    direction = row.direction;
  }

  unfoldable pub funding_rows : ℤ → List SettledFunding → List FundingRateRow
  unfolding funding_row
  funding_rows symbol_id [] = []
  funding_rows symbol_id (row ∷ rows) = funding_row symbol_id row ∷ funding_rows symbol_id rows

module _ ⦃d : Decimals⦄ ⦃c : Chrono⦄ ⦃s : Serde⦄ ⦃f : FundingTable⦄ where
  -- The table, and the rows that this poll has given to it.
  pub record Poller : Type 0 where
    pub db : f.Db
    pub given : List FundingRateRow

  unfoldable pub newest_funding_time : ℤ → Action Poller (Option c.DateTime)
  newest_funding_time symbol_id poller =
      (ok_or (f.max_time symbol_id poller.db) database_failed, poller)

  unfoldable pub insert_funding_rates : List FundingRateRow → Action Poller ℕ
  insert_funding_rates rows poller =
      let (inserted, db) = f.execute rows poller.db in
      (ok_or inserted database_failed, record { db = db; given = poller.given ++ rows })

  unfoldable pub fetch_page : Option Text → Result (List SettledFunding)
  fetch_page reply = and_then (ok_or reply request_failed) parse_fundings_response

  -- The rest of a pass behind the checks of the page; `next` is the next pass.
  unfoldable pub store_page :
      PerpMarket
      → List SettledFunding
      → (c.DateTime → Action Poller (Unit {0}))
      → Option c.DateTime
      → Action Poller (Unit {0})
  store_page market rows next none = pure tt
  store_page market rows next (some last) = do
    inserted ← insert_funding_rates (funding_rows market.symbol_id rows)
    if ltb (length rows) max_fundings_per_call then pure tt else next last

  -- The rest of a pass behind the test of the hour.
  unfoldable pub poll_hour :
      PerpMarket
      → c.DateTime
      → Round
      → (c.DateTime → Action Poller (Unit {0}))
      → Bool
      → Action Poller (Unit {0})
  unfolding store_page last_time
  poll_hour market start round next false = pure tt
  poll_hour market start round next true = do
    rows ← lift (fetch_page round.reply)
    lift (validate_page start round.checked_at rows)
    store_page market rows next (last_time rows)

  -- The loop of `poll_market`, for as many passes as there are rounds.
  unfoldable pub poll_rounds :
      PerpMarket → c.DateTime → List Round → c.DateTime → Action Poller (Unit {0})
  unfolding poll_hour
  poll_rounds market backfill_start [] start = pure tt
  poll_rounds market backfill_start (round ∷ rounds) start = do
    closed ← lift (hour_closed start round.closed_at)
    poll_hour market start round
        (λ last.
          lift (next_request_start (some last) backfill_start)
          >>= poll_rounds market backfill_start rounds)
        closed

  unfoldable pub poll_market : PerpMarket → c.DateTime → List Round → Action Poller (Unit {0})
  unfolding poll_rounds
  poll_market market backfill_start rounds = do
    newest ← newest_funding_time market.symbol_id
    start ← lift (next_request_start newest backfill_start)
    poll_rounds market backfill_start rounds start
