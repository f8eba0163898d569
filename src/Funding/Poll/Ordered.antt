-- ===== src/Funding/Poll/Ordered.antt =====
-- The order of the stored settlements: of each symbol, the times increase strictly.
use lighter_timescaledb_inge.Base.{
  ◌≡◌, sym, ◌∙◌, subst, Option, none, some, List, [], ◌∷◌, ◌++◌, append_assoc, append-nil, All,
  All-append, All-imp, Pairwise, Pairwise-append, Preserves, Preserves-bind, arith, inl, inr,
  bail_if, is_empty, no_markets, Bool, true, false, ◌⊎◌,
}
use lighter_timescaledb_inge.Base.Int.{ℤ, ◌<ℤ◌, ◌+ℤ◌, negsuc}
use lighter_timescaledb_inge.External.{Decimals, Chrono, Serde}
use lighter_timescaledb_inge.Models.{FundingRateRow}
use lighter_timescaledb_inge.Funding.Poll.{
  PerpMarket, FundingTable, IsNewest, Round, Poller, poll_market,
}
use lighter_timescaledb_inge.Funding.Poll.Times.{IsAfter}
use lighter_timescaledb_inge.Funding.Poll.Fresh.{IsNew}
use lighter_timescaledb_inge.Funding.Poll.Stored.{before, IsBefore, poll_market-AddsNew}
use lighter_timescaledb_inge.Funding.Poller.{poll_all, poll_forever, run_funding_poller}

module _ ⦃d : Decimals⦄ ⦃c : Chrono⦄ where
  abbrev pub Precedes : FundingRateRow → FundingRateRow → Type 0
  Precedes a b = a.symbol ≡ b.symbol → c.nanos a.time <ℤ c.nanos b.time

  -- A row is earlier than every row of its symbol behind it.
  abbrev pub IsOrdered : List FundingRateRow → Type 0
  IsOrdered = Pairwise Precedes

  after-IsOrdered :
      (symbol newest : ℤ) (table new : List FundingRateRow)
      → IsOrdered table
      → All (IsBefore symbol newest) table
      → IsAfter symbol newest new
      → IsOrdered (table ++ new)
  after-IsOrdered symbol newest table [] ordered all after = rw (append-nil table) ordered
  after-IsOrdered symbol newest table (row ∷ new) ordered all (is_symbol, later, after) =
      subst IsOrdered (append_assoc table (row ∷ []) new) (
        after-IsOrdered symbol (c.nanos row.time) (table ++ row ∷ []) new
          (Pairwise-append Precedes table row ordered (
            All-imp {Q = λ x. Precedes x row}
              (λ r is_before same. let earlier = is_before (same ∙ is_symbol) in omega arith) table
              all))
          (All-append (IsBefore symbol (c.nanos row.time)) table (row ∷ [])
            (All-imp (λ r is_before same. let earlier = is_before same in omega arith) table all)
            (λ _. omega arith, tt))
          after)

module _ ⦃d : Decimals⦄ ⦃c : Chrono⦄ ⦃s : Serde⦄ ⦃f : FundingTable⦄ where
  new-IsOrdered :
      (symbol : ℤ) (newest : Option c.DateTime) (backfill_start : c.DateTime)
      (table new : List FundingRateRow)
      → IsOrdered table
      → IsNewest symbol newest table
      → IsNew symbol newest backfill_start new
      → IsOrdered (table ++ new)
  new-IsOrdered symbol none backfill table [] ordered all is_new = rw (append-nil table) ordered
  new-IsOrdered symbol none backfill table (row ∷ new) ordered all (is_symbol, from, after) =
      after-IsOrdered symbol (c.nanos row.time +ℤ negsuc 0) table (row ∷ new) ordered
        (All-imp {Q = IsBefore symbol (c.nanos row.time +ℤ negsuc 0)}
          (λ r other same. absurd (other same)) table all)
        (is_symbol, before (c.nanos row.time), after)
  new-IsOrdered symbol (some newest) backfill table new ordered all is_new =
      after-IsOrdered symbol (c.nanos newest) table new ordered all is_new

  abbrev pub KeepsOrder : Poller → Type 0
  KeepsOrder poller = IsOrdered (f.rows poller.db)

  poll_market-KeepsOrder :
      (market : PerpMarket) (backfill_start : c.DateTime) (rounds : List Round)
      → Preserves KeepsOrder (poll_market market backfill_start rounds)
  poll_market-KeepsOrder market backfill rounds poller ordered =
      let x = poll_market-AddsNew market backfill rounds poller in
      subst IsOrdered (sym x.adds.added) (by_behind x.adds.done x.behind)
    where
      by_behind :
          (done : List FundingRateRow)
          → (done ≡ [])
            ⊎ ((newest : Option c.DateTime) × IsNewest market.symbol_id newest (f.rows poller.db)
                × IsNew market.symbol_id newest backfill done)
          → IsOrdered (f.rows poller.db ++ done)
      by_behind done (inl nothing) = rw (nothing, append-nil (f.rows poller.db)) ordered
      by_behind done (inr (newest, is_newest, is_new)) =
          new-IsOrdered market.symbol_id newest backfill (f.rows poller.db) done ordered is_newest
            is_new

  poll_all-KeepsOrder :
      (markets : List PerpMarket) (backfill_start : c.DateTime) (rounds : PerpMarket → List Round)
      → Preserves KeepsOrder (poll_all markets backfill_start rounds)
  unfolding poll_all
  poll_all-KeepsOrder [] backfill rounds = λ poller ordered. ordered
  poll_all-KeepsOrder (market ∷ markets) backfill rounds =
      Preserves-bind KeepsOrder (poll_market market backfill (rounds market))
        (λ _. poll_all markets backfill rounds)
        (poll_market-KeepsOrder market backfill (rounds market))
        (λ _. poll_all-KeepsOrder markets backfill rounds)

  poll_forever-KeepsOrder :
      (markets : List PerpMarket) (backfill_start : c.DateTime)
      (passes : List (PerpMarket → List Round))
      → Preserves KeepsOrder (poll_forever markets backfill_start passes)
  unfolding poll_forever
  poll_forever-KeepsOrder markets backfill [] = λ poller ordered. ordered
  poll_forever-KeepsOrder markets backfill (rounds ∷ passes) =
      Preserves-bind KeepsOrder (poll_all markets backfill rounds)
        (λ _. poll_forever markets backfill passes) (poll_all-KeepsOrder markets backfill rounds)
        (λ _. poll_forever-KeepsOrder markets backfill passes)

  -- If the stored settlements of each symbol increase strictly in time, in the order of insertion, then
  -- they do so after any number of passes of the poller, whatever these meet and wherever it stops.
  pub run_funding_poller-IsOrdered :
      (markets : List PerpMarket) (backfill_start : c.DateTime)
      (passes : List (PerpMarket → List Round)) (poller : Poller)
      → IsOrdered (f.rows poller.db)
      → IsOrdered (f.rows (run_funding_poller markets backfill_start passes poller).1.db)
  unfolding run_funding_poller
  run_funding_poller-IsOrdered markets backfill passes =
      Preserves-bind KeepsOrder (bail_if (is_empty markets) no_markets)
        (λ _. poll_forever markets backfill passes)
        (λ poller ordered. bailed (is_empty markets) poller ordered)
        (λ _. poll_forever-KeepsOrder markets backfill passes)
    where
      bailed :
          (b : Bool) (poller : Poller)
          → IsOrdered (f.rows poller.db)
          → IsOrdered (f.rows (bail_if b no_markets poller).1.db)
      bailed true poller ordered = ordered
      bailed false poller ordered = ordered
