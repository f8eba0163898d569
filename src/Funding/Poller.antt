-- ===== src/Funding/Poller.antt =====
-- src/funding.rs: the poller, which polls one market after the other, again and again.
use lighter_timescaledb_inge.Base.{
  ◌≡◌, refl, sym, ap, ◌∙◌, List, [], ◌∷◌, ◌++◌, append_assoc, append-nil, Result, ok, err, Action,
  ◌>>◌, pure, bail_if, is_empty, no_markets,
}
use lighter_timescaledb_inge.External.{Decimals, Chrono, Serde}
use lighter_timescaledb_inge.Funding.Poll.{PerpMarket, FundingTable, Round, Poller, poll_market}
use lighter_timescaledb_inge.Funding.Poll.Stored.{Adds, poll_market-Adds}

module _ ⦃d : Decimals⦄ ⦃c : Chrono⦄ ⦃s : Serde⦄ ⦃f : FundingTable⦄ where
  -- `for market in &markets`; `rounds` is what the poll of a market meets.
  unfoldable pub poll_all :
      List PerpMarket → c.DateTime → (PerpMarket → List Round) → Action Poller (Unit {0})
  poll_all [] backfill_start rounds = pure tt
  poll_all (market ∷ markets) backfill_start rounds = do
    poll_market market backfill_start (rounds market)
    poll_all markets backfill_start rounds

  -- The loop, for as many passes as there are entries: `ok` means that it is still running.
  unfoldable pub poll_forever :
      List PerpMarket → c.DateTime → List (PerpMarket → List Round) → Action Poller (Unit {0})
  unfolding poll_all
  poll_forever markets backfill_start [] = pure tt
  poll_forever markets backfill_start (rounds ∷ passes) = do
    poll_all markets backfill_start rounds
    poll_forever markets backfill_start passes

  unfoldable pub run_funding_poller :
      List PerpMarket → c.DateTime → List (PerpMarket → List Round) → Action Poller (Unit {0})
  unfolding poll_forever
  run_funding_poller markets backfill_start passes = do
    bail_if (is_empty markets) no_markets
    poll_forever markets backfill_start passes

  Adds-nothing : (poller : Poller) (r : Result (Unit {0})) → Adds poller r poller
  Adds-nothing poller r = record {
    done = [];
    left = [];
    given = sym (append-nil poller.given);
    added = sym (append-nil (f.rows poller.db));
    none_left = λ _. refl;
  }

  Adds-then :
      (before : Poller) (m k : Action Poller (Unit {0}))
      → Adds before (m before).0 (m before).1
      → ((middle : Poller) → Adds middle (k middle).0 (k middle).1)
      → Adds before ((m >> k) before).0 ((m >> k) before).1
  Adds-then before m k x y = by_result (m before) x
    where
      by_result :
          (r : Result (Unit {0}) × Poller)
          → Adds before r.0 r.1
          → Adds before (((λ _. r) >> k) before).0 (((λ _. r) >> k) before).1
      by_result (err e, middle) x = x
      by_result (ok tt, middle) x =
          let z = y middle in
          let middle_given : middle.given ≡ before.given ++ x.done =
            x.given
            ∙ ap (λ l. before.given ++ (x.done ++ l)) (x.none_left refl)
            ∙ ap (λ l. before.given ++ l) (append-nil x.done) in
          record {
            done = x.done ++ z.done;
            left = z.left;
            given =
                z.given
                ∙ ap (λ l. l ++ (z.done ++ z.left)) middle_given
                ∙ append_assoc before.given x.done (z.done ++ z.left)
                ∙ ap (λ l. before.given ++ l) (sym (append_assoc x.done z.done z.left));
            added =
                z.added
                ∙ ap (λ l. l ++ z.done) x.added
                ∙ append_assoc (f.rows before.db) x.done z.done;
            none_left = z.none_left;
          }

  poll_all-Adds :
      (markets : List PerpMarket) (backfill_start : c.DateTime) (rounds : PerpMarket → List Round)
      (poller : Poller)
      → Adds poller
          (poll_all markets backfill_start rounds poller).0
          (poll_all markets backfill_start rounds poller).1
  unfolding poll_all
  poll_all-Adds [] backfill rounds poller = Adds-nothing poller (ok tt)
  poll_all-Adds (market ∷ markets) backfill rounds poller =
      Adds-then poller (poll_market market backfill (rounds market))
        (poll_all markets backfill rounds) (poll_market-Adds market backfill (rounds market) poller)
        (poll_all-Adds markets backfill rounds)

  poll_forever-Adds :
      (markets : List PerpMarket) (backfill_start : c.DateTime)
      (passes : List (PerpMarket → List Round)) (poller : Poller)
      → Adds poller
          (poll_forever markets backfill_start passes poller).0
          (poll_forever markets backfill_start passes poller).1
  unfolding poll_forever
  poll_forever-Adds markets backfill [] poller = Adds-nothing poller (ok tt)
  poll_forever-Adds markets backfill (rounds ∷ passes) poller =
      Adds-then poller (poll_all markets backfill rounds) (poll_forever markets backfill passes)
        (poll_all-Adds markets backfill rounds poller) (poll_forever-Adds markets backfill passes)

  -- Over any number of passes of the poller, whatever they meet and wherever it stops, the table of
  -- funding rates has got, in order and behind what it held, the rows that the poller gave to it, all of
  -- them if it is still running: none is skipped as a duplicate, and only an insert that fails loses some.
  pub run_funding_poller-Adds :
      (markets : List PerpMarket) (backfill_start : c.DateTime)
      (passes : List (PerpMarket → List Round)) (poller : Poller)
      → Adds poller
          (run_funding_poller markets backfill_start passes poller).0
          (run_funding_poller markets backfill_start passes poller).1
  unfolding run_funding_poller
  run_funding_poller-Adds [] backfill passes poller = Adds-nothing poller (err no_markets)
  run_funding_poller-Adds (market ∷ markets) backfill passes poller =
      poll_forever-Adds (market ∷ markets) backfill passes poller
