-- ===== src/Funding/Poll/Fresh.antt =====
-- The rows that one poll gives to the table: in order of time, each time once, and none that an
-- earlier poll has stored.
use lighter_timescaledb_inge.Base.{
  ◌≡◌, refl, sym, ap, subst, ◌∙◌, true, false, Bool, Option, none, some, List, [], ◌∷◌, ◌++◌,
  append_assoc, append-nil, Result, ok, err, ltb, length, ok_or, lift, ◌>>=◌, ◌>>◌, pure,
  database_failed, ℕ, if◌then◌else◌,
}
use lighter_timescaledb_inge.Base.Int.{ℤ, pos, ◌+ℤ◌, ◌≤ℤ◌, ◌<ℤ◌}
use lighter_timescaledb_inge.External.{Decimals, Chrono, Serde}
use lighter_timescaledb_inge.Models.{FundingRateRow}
use lighter_timescaledb_inge.Funding.{
  SettledFunding, next_request_start, hour_closed, validate_page,
}
use lighter_timescaledb_inge.Funding.Start.{next_request_start-later, next_request_start-IsCeil}
use lighter_timescaledb_inge.Funding.Page.{validate_page-ok_iff}
use lighter_timescaledb_inge.Funding.Poll.{
  PerpMarket, FundingTable, Round, last_time, funding_rows, Poller, newest_funding_time,
  insert_funding_rates, fetch_page, store_page, poll_hour, poll_rounds, poll_market,
  max_fundings_per_call,
}
use lighter_timescaledb_inge.Funding.Poll.Times.{
  next_after, one_later, IsAfter, IsFrom, IsFrom-IsAfter, IsFrom-earlier, page-IsFrom,
}

module _ ⦃d : Decimals⦄ ⦃c : Chrono⦄ ⦃s : Serde⦄ ⦃f : FundingTable⦄ where
  -- What a run gives to the table behind what was given: rows from `start` on.
  pub record Gives (symbol start : ℤ) (before after : List FundingRateRow) : Type 0 where
    pub rows : List FundingRateRow
    pub appended : after ≡ before ++ rows
    pub from : IsFrom symbol start rows

  nothing-Gives :
      (symbol start : ℤ) (before : List FundingRateRow) → Gives symbol start before before
  nothing-Gives symbol start before = record {
    rows = [];
    appended = sym (append-nil before);
    from = tt;
  }

  -- An insert of `page`, and then more unless the page is short.
  insert-Gives :
      (symbol start n : ℤ) (page : List FundingRateRow) (short : Bool)
      (next : Poller → Result (Unit {0}) × Poller) (poller : Poller) (r : Option ℕ × f.Db)
      → ((more : List FundingRateRow) → IsFrom symbol n more → IsFrom symbol start (page ++ more))
      → ((middle : Poller) → Gives symbol n middle.given (next middle).1.given)
      → Gives symbol start poller.given
          (((λ (p : Poller).
                (ok_or r.0 database_failed, record { db = r.1; given = p.given ++ page }))
              >>= λ _. if short then pure tt else next)
            poller).1.given
  insert-Gives symbol start n page short next poller (none, db) from more = record {
    rows = page ++ [];
    appended = ap (λ l. poller.given ++ l) (sym (append-nil page));
    from = from [] tt;
  }
  insert-Gives symbol start n page true next poller (some k, db) from more = record {
    rows = page ++ [];
    appended = ap (λ l. poller.given ++ l) (sym (append-nil page));
    from = from [] tt;
  }
  insert-Gives symbol start n page false next poller (some k, db) from more =
      let g = more (record { db = db; given = poller.given ++ page }) in
      record {
        rows = page ++ g.rows;
        appended = g.appended ∙ append_assoc poller.given page g.rows;
        from = from g.rows g.from;
      }

  -- A page is given to the table, and then what starts behind it.
  store_page-Gives :
      (market : PerpMarket) (start now : c.DateTime) (rows : List SettledFunding)
      (next : c.DateTime → Poller → Result (Unit {0}) × Poller) (behind : c.DateTime → ℤ)
      (last : Option c.DateTime) (poller : Poller)
      → validate_page start now rows ≡ ok tt
      → last_time rows ≡ last
      → ((t : c.DateTime) → c.nanos t <ℤ behind t)
      → ((t : c.DateTime) (middle : Poller)
          → Gives market.symbol_id (behind t) middle.given (next t middle).1.given)
      → Gives market.symbol_id
          (c.nanos start)
          poller.given
          (store_page market rows next last poller).1.given
  unfolding store_page insert_funding_rates
  store_page-Gives market start now rows next behind none poller valid e later more =
      nothing-Gives market.symbol_id (c.nanos start) poller.given
  store_page-Gives market start now rows next behind (some t) poller valid e later more =
      let (w, inc) = (validate_page-ok_iff start now rows).0 valid in
      insert-Gives market.symbol_id (c.nanos start) (behind t) (funding_rows market.symbol_id rows)
        (ltb (length rows) max_fundings_per_call) (next t) poller
        (f.execute (funding_rows market.symbol_id rows) poller.db)
        (λ l from.
          page-IsFrom market.symbol_id start now rows t (behind t) l w inc e (later t) from)
        (more t)

  -- A fallible computation, and then more.
  lift-Gives {ℓ} :
      {X : Type ℓ} (symbol start : ℤ) (r : Result X) (k : X → Poller → Result (Unit {0}) × Poller)
      (poller : Poller)
      → ((x : X) → r ≡ ok x → Gives symbol start poller.given (k x poller).1.given)
      → Gives symbol start poller.given ((lift r >>= k) poller).1.given
  lift-Gives symbol start (ok x) k poller h = h x refl
  lift-Gives symbol start (err e) k poller h = nothing-Gives symbol start poller.given

  -- Rows that start later.
  earlier-Gives :
      (symbol start later : ℤ) (before after : List FundingRateRow)
      → start ≤ℤ later
      → Gives symbol later before after
      → Gives symbol start before after
  earlier-Gives symbol start later before after h g = record {
    rows = g.rows;
    appended = g.appended;
    from = IsFrom-earlier symbol start later g.rows h g.from;
  }

  poll_hour-Gives :
      (market : PerpMarket) (start : c.DateTime) (round : Round)
      (next : c.DateTime → Poller → Result (Unit {0}) × Poller) (closed : Bool) (poller : Poller)
      → ((t : c.DateTime) (middle : Poller)
          → Gives market.symbol_id (c.nanos t +ℤ pos 1) middle.given (next t middle).1.given)
      → Gives market.symbol_id
          (c.nanos start)
          poller.given
          (poll_hour market start round next closed poller).1.given
  unfolding poll_hour
  poll_hour-Gives market start round next false poller more =
      nothing-Gives market.symbol_id (c.nanos start) poller.given
  poll_hour-Gives market start round next true poller more =
      lift-Gives market.symbol_id (c.nanos start) (fetch_page round.reply)
        (λ rows.
          lift (validate_page start round.checked_at rows)
          >> store_page market rows next (last_time rows))
        poller
        λ rows fetched.
          lift-Gives market.symbol_id (c.nanos start) (validate_page start round.checked_at rows)
            (λ _. store_page market rows next (last_time rows)) poller
            λ _ valid.
              store_page-Gives market start round.checked_at rows next (λ t. c.nanos t +ℤ pos 1)
                (last_time rows) poller valid refl (λ t. next_after (c.nanos t)) more

  poll_rounds-Gives :
      (market : PerpMarket) (backfill_start : c.DateTime) (rounds : List Round) (start : c.DateTime)
      (poller : Poller)
      → Gives market.symbol_id
          (c.nanos start)
          poller.given
          (poll_rounds market backfill_start rounds start poller).1.given
  unfolding poll_rounds
  poll_rounds-Gives market backfill [] start poller =
      nothing-Gives market.symbol_id (c.nanos start) poller.given
  poll_rounds-Gives market backfill (round ∷ rounds) start poller =
      let next : c.DateTime → Poller → Result (Unit {0}) × Poller = λ last.
        lift (next_request_start (some last) backfill) >>= poll_rounds market backfill rounds in
      lift-Gives market.symbol_id (c.nanos start) (hour_closed start round.closed_at)
        (poll_hour market start round next) poller
        λ closed _. poll_hour-Gives market start round next closed poller λ t middle.
          lift-Gives market.symbol_id (c.nanos t +ℤ pos 1) (next_request_start (some t) backfill)
            (poll_rounds market backfill rounds) middle
            λ start' e.
              earlier-Gives market.symbol_id (c.nanos t +ℤ pos 1) (c.nanos start') middle.given _
                (one_later (c.nanos t) (c.nanos start')
                  (next_request_start-later t backfill start' e))
                (poll_rounds-Gives market backfill rounds start' middle)

  -- Where a poll may start, behind the newest settlement that is stored.
  abbrev pub IsNew : ℤ → Option c.DateTime → c.DateTime → List FundingRateRow → Type 0
  IsNew symbol none backfill_start rows = IsFrom symbol (c.nanos backfill_start) rows
  IsNew symbol (some newest) backfill_start rows = IsAfter symbol (c.nanos newest) rows

  started :
      (market : PerpMarket) (newest : Option c.DateTime) (backfill_start start : c.DateTime)
      (before after : List FundingRateRow)
      → next_request_start newest backfill_start ≡ ok start
      → Gives market.symbol_id (c.nanos start) before after
      → (rows : List FundingRateRow) × (after ≡ before ++ rows)
        × IsNew market.symbol_id newest backfill_start rows
  started market none backfill start before after e g = (
    g.rows,
    g.appended,
    IsFrom-earlier market.symbol_id (c.nanos backfill) (c.nanos start) g.rows
        (next_request_start-IsCeil backfill start e).not_before g.from,
  )
  started market (some newest) backfill start before after e g = (
    g.rows,
    g.appended,
    IsFrom-IsAfter market.symbol_id (c.nanos newest) (c.nanos start) g.rows
        (next_request_start-later newest backfill start e) g.from,
  )

  nil-IsNew : (symbol : ℤ) (newest : Option c.DateTime) (b : c.DateTime) → IsNew symbol newest b []
  nil-IsNew symbol none b = tt
  nil-IsNew symbol (some t) b = tt

  run-IsNew :
      (market : PerpMarket) (backfill_start : c.DateTime) (rounds : List Round) (poller : Poller)
      (newest : Option c.DateTime) (r : Result c.DateTime)
      → next_request_start newest backfill_start ≡ r
      → (rows : List FundingRateRow) × (((lift r >>= poll_rounds market backfill_start rounds)
            poller).1.given
          ≡ poller.given ++ rows)
        × IsNew market.symbol_id newest backfill_start rows
  run-IsNew market backfill rounds poller newest (err x) e =
      ([], sym (append-nil poller.given), nil-IsNew market.symbol_id newest backfill)
  run-IsNew market backfill rounds poller newest (ok start) e =
      started market newest backfill start poller.given _ e
        (poll_rounds-Gives market backfill rounds start poller)

  -- Whatever the rounds of a poll meet, and wherever it fails, the rows that it gives to the table
  -- over all its pages are rows of the market's symbol whose times increase strictly, all after the
  -- newest stored settlement of the symbol, or, where none is stored, from the configured instant on.
  pub poll_market-IsNew :
      (market : PerpMarket) (backfill_start : c.DateTime) (rounds : List Round) (poller : Poller)
      (newest : Option c.DateTime)
      → f.max_time market.symbol_id poller.db ≡ some newest
      → (rows : List FundingRateRow) × ((poll_market market backfill_start rounds poller).1.given
          ≡ poller.given ++ rows)
        × IsNew market.symbol_id newest backfill_start rows
  unfolding poll_market newest_funding_time
  poll_market-IsNew market backfill rounds poller newest e =
      subst
        (λ (r : Option (Option c.DateTime)).
          (rows : List FundingRateRow) × ((((λ (p : Poller). (ok_or r database_failed, p))
                >>= λ stored.
                    lift (next_request_start stored backfill)
                    >>= poll_rounds market backfill rounds)
              poller).1.given
            ≡ poller.given ++ rows)
          × IsNew market.symbol_id newest backfill rows)
        (sym e)
        (run-IsNew market backfill rounds poller newest (next_request_start newest backfill) refl)
