-- ===== src/Funding/Poll/Takes.antt =====
-- How much of what a poll gives to the table is taken: all of it, or an insert failed and ended it.
use lighter_timescaledb_inge.Base.{
  ◌≡◌, refl, sym, ap, ◌∙◌, true, false, Bool, Option, none, some, List, [], ◌∷◌, ◌++◌, append_assoc,
  append-nil, Result, ok, err, ltb, length, ok_or, lift, ◌>>=◌, ◌>>◌, pure, database_failed, ℕ,
  if◌then◌else◌,
}
use lighter_timescaledb_inge.External.{Decimals, Chrono, Serde}
use lighter_timescaledb_inge.Models.{FundingRateRow}
use lighter_timescaledb_inge.Table.{insert_new, insert_new-append}
use lighter_timescaledb_inge.Funding.{
  SettledFunding, next_request_start, hour_closed, validate_page,
}
use lighter_timescaledb_inge.Funding.Poll.{
  PerpMarket, FundingTable, same_funding, Round, last_time, funding_rows, Poller,
  newest_funding_time, insert_funding_rates, fetch_page, store_page, poll_hour, poll_rounds,
  poll_market, max_fundings_per_call,
}

module _ ⦃d : Decimals⦄ ⦃c : Chrono⦄ ⦃s : Serde⦄ ⦃f : FundingTable⦄ where
  -- Of the rows that were given, the table has taken `done`. An error may leave more.
  pub record Takes (before : Poller) (r : Result (Unit {0})) (after : Poller) : Type 0 where
    pub done : List FundingRateRow
    pub left : List FundingRateRow
    pub given : after.given ≡ before.given ++ (done ++ left)
    pub taken : f.rows after.db ≡ insert_new same_funding (f.rows before.db) done
    pub none_left : r ≡ ok tt → left ≡ []

  pub Takes-nothing : (poller : Poller) (r : Result (Unit {0})) → Takes poller r poller
  unfolding insert_new
  Takes-nothing poller r = record {
    done = [];
    left = [];
    given = sym (append-nil poller.given);
    taken = refl;
    none_left = λ _. refl;
  }

  pub Takes-then :
      (before middle after : Poller) (r : Result (Unit {0}))
      → Takes before (ok tt) middle
      → Takes middle r after
      → Takes before r after
  Takes-then before middle after r x y =
      let middle_given : middle.given ≡ before.given ++ x.done =
        x.given
        ∙ ap (λ l. before.given ++ (x.done ++ l)) (x.none_left refl)
        ∙ ap (λ l. before.given ++ l) (append-nil x.done) in
      record {
        done = x.done ++ y.done;
        left = y.left;
        given =
            y.given
            ∙ ap (λ l. l ++ (y.done ++ y.left)) middle_given
            ∙ append_assoc before.given x.done (y.done ++ y.left)
            ∙ ap (λ l. before.given ++ l) (sym (append_assoc x.done y.done y.left));
        taken =
            y.taken
            ∙ ap (λ l. insert_new same_funding l y.done) x.taken
            ∙ sym (insert_new-append same_funding (f.rows before.db) x.done y.done);
        none_left = y.none_left;
      }

  pub Takes-lift {ℓ} :
      {X : Type ℓ} (r : Result X) (k : X → Poller → Result (Unit {0}) × Poller) (poller : Poller)
      → ((x : X) → Takes poller (k x poller).0 (k x poller).1)
      → Takes poller ((lift r >>= k) poller).0 ((lift r >>= k) poller).1
  Takes-lift (ok x) k poller h = h x
  Takes-lift (err e) k poller h = Takes-nothing poller (err e)

  inserted-Takes :
      (page : List FundingRateRow) (poller : Poller) (n : ℕ) (db : f.Db)
      → f.execute page poller.db ≡ (some n, db)
      → Takes poller (ok tt) (record { db = db; given = poller.given ++ page })
  inserted-Takes page poller n db e = record {
    done = page;
    left = [];
    given = ap (λ l. poller.given ++ l) (sym (append-nil page));
    taken = f.inserted page poller.db db n e;
    none_left = λ _. refl;
  }

  -- An insert of `page`, and then more unless the page is short.
  insert-Takes :
      (page : List FundingRateRow) (short : Bool) (next : Poller → Result (Unit {0}) × Poller)
      (poller : Poller) (r : Option ℕ × f.Db)
      → f.execute page poller.db ≡ r
      → ((middle : Poller) → Takes middle (next middle).0 (next middle).1)
      → let end =
          ((λ (p : Poller).
                (ok_or r.0 database_failed, record { db = r.1; given = p.given ++ page }))
              >>= λ _. if short then pure tt else next)
            poller in
        Takes poller end.0 end.1
  unfolding insert_new
  insert-Takes page short next poller (none, db) e more = record {
    done = [];
    left = page;
    given = refl;
    taken = f.failed page poller.db db e;
    none_left = λ h. absurd (cc);
  }
  insert-Takes page true next poller (some n, db) e more = inserted-Takes page poller n db e
  insert-Takes page false next poller (some n, db) e more =
      let middle : Poller = record { db = db; given = poller.given ++ page } in
      Takes-then poller middle (next middle).1 (next middle).0 (inserted-Takes page poller n db e)
        (more middle)

  store_page-Takes :
      (market : PerpMarket) (rows : List SettledFunding)
      (next : c.DateTime → Poller → Result (Unit {0}) × Poller) (last : Option c.DateTime)
      (poller : Poller)
      → ((t : c.DateTime) (middle : Poller) → Takes middle (next t middle).0 (next t middle).1)
      → Takes poller
          (store_page market rows next last poller).0
          (store_page market rows next last poller).1
  unfolding store_page insert_funding_rates
  store_page-Takes market rows next none poller more = Takes-nothing poller (ok tt)
  store_page-Takes market rows next (some t) poller more =
      insert-Takes (funding_rows market.symbol_id rows) (ltb (length rows) max_fundings_per_call)
        (next t) poller (f.execute (funding_rows market.symbol_id rows) poller.db) refl (more t)

  poll_hour-Takes :
      (market : PerpMarket) (start : c.DateTime) (round : Round)
      (next : c.DateTime → Poller → Result (Unit {0}) × Poller) (closed : Bool) (poller : Poller)
      → ((t : c.DateTime) (middle : Poller) → Takes middle (next t middle).0 (next t middle).1)
      → Takes poller
          (poll_hour market start round next closed poller).0
          (poll_hour market start round next closed poller).1
  unfolding poll_hour
  poll_hour-Takes market start round next false poller more = Takes-nothing poller (ok tt)
  poll_hour-Takes market start round next true poller more =
      Takes-lift (fetch_page round.reply)
        (λ rows.
          lift (validate_page start round.checked_at rows)
          >> store_page market rows next (last_time rows))
        poller
        λ rows.
          Takes-lift (validate_page start round.checked_at rows)
            (λ _. store_page market rows next (last_time rows)) poller
            λ _. store_page-Takes market rows next (last_time rows) poller more

  poll_rounds-Takes :
      (market : PerpMarket) (backfill_start : c.DateTime) (rounds : List Round) (start : c.DateTime)
      (poller : Poller)
      → Takes poller
          (poll_rounds market backfill_start rounds start poller).0
          (poll_rounds market backfill_start rounds start poller).1
  unfolding poll_rounds
  poll_rounds-Takes market backfill [] start poller = Takes-nothing poller (ok tt)
  poll_rounds-Takes market backfill (round ∷ rounds) start poller =
      let next : c.DateTime → Poller → Result (Unit {0}) × Poller = λ last.
        lift (next_request_start (some last) backfill) >>= poll_rounds market backfill rounds in
      Takes-lift (hour_closed start round.closed_at) (poll_hour market start round next) poller
        λ closed. poll_hour-Takes market start round next closed poller λ t middle.
          Takes-lift (next_request_start (some t) backfill) (poll_rounds market backfill rounds)
            middle λ start'. poll_rounds-Takes market backfill rounds start' middle

  pub poll_market-Takes :
      (market : PerpMarket) (backfill_start : c.DateTime) (rounds : List Round) (poller : Poller)
      → Takes poller
          (poll_market market backfill_start rounds poller).0
          (poll_market market backfill_start rounds poller).1
  unfolding poll_market newest_funding_time
  poll_market-Takes market backfill rounds poller =
      Takes-lift (ok_or (f.max_time market.symbol_id poller.db) database_failed)
        (λ newest. lift (next_request_start newest backfill) >>= poll_rounds market backfill rounds)
        poller
        λ newest.
          Takes-lift (next_request_start newest backfill) (poll_rounds market backfill rounds)
            poller λ start. poll_rounds-Takes market backfill rounds start poller
