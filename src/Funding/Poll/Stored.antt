-- ===== src/Funding/Poll/Stored.antt =====
-- No row of a poll is skipped by the insert: its key is not in the table.
use lighter_timescaledb_inge.Base.{
  ◌≡◌, refl, sym, ◌∙◌, subst, false, Option, none, some, List, [], ◌∷◌, ◌++◌, append_assoc,
  append-nil, append-cancel, Result, ok, All, All-append, All-imp, arith, Bool-cases, ◌⊎◌, inl, inr,
  ◌>>=◌, lift, ok_or, database_failed,
}
use lighter_timescaledb_inge.Base.Int.{ℤ, ◌==ℤ◌, ==ℤ_iff, ◌≤ℤ◌, ◌<ℤ◌, ◌+ℤ◌, +ℤ_parts, negsuc}
use lighter_timescaledb_inge.External.{Decimals, Chrono, Serde}
use lighter_timescaledb_inge.Models.{FundingRateRow}
use lighter_timescaledb_inge.Table.{conflicts, insert_new}
use lighter_timescaledb_inge.Funding.Poll.{
  PerpMarket, FundingTable, same_funding, IsNewest, Round, Poller, poll_rounds, poll_market,
  newest_funding_time,
}
use lighter_timescaledb_inge.Funding.{next_request_start}
use lighter_timescaledb_inge.Funding.Poll.Times.{IsAfter}
use lighter_timescaledb_inge.Funding.Poll.Fresh.{IsNew, poll_market-IsNew}
use lighter_timescaledb_inge.Funding.Poll.Takes.{Takes, poll_market-Takes}

pub before : (t : ℤ) → t +ℤ negsuc 0 <ℤ t
before t = let p = +ℤ_parts t (negsuc 0) in omega arith

module _ ⦃d : Decimals⦄ ⦃c : Chrono⦄ where
  -- The rows of the symbol are not later than `newest`.
  abbrev pub IsBefore : ℤ → ℤ → FundingRateRow → Type 0
  IsBefore symbol newest row = row.symbol ≡ symbol → c.nanos row.time ≤ℤ newest

  no_conflict :
      (symbol newest : ℤ) (row : FundingRateRow) (table : List FundingRateRow)
      → row.symbol ≡ symbol
      → newest <ℤ c.nanos row.time
      → All (IsBefore symbol newest) table
      → conflicts same_funding row table ≡ false
  unfolding conflicts same_funding
  no_conflict symbol newest row [] is_symbol later all = refl
  no_conflict symbol newest row (r ∷ table) is_symbol later all =
      let rest = no_conflict symbol newest row table is_symbol later all.1 in
      elim (Bool-cases (row.symbol ==ℤ r.symbol)) [
        | inl same ↦
            let before : c.nanos r.time ≤ℤ newest =
              all.0 (sym ((==ℤ_iff row.symbol r.symbol).0 same) ∙ is_symbol) in
            let differ : (c.nanos row.time ==ℤ c.nanos r.time) ≡ false =
              ground (arith, before, later, ==ℤ_iff (c.nanos row.time) (c.nanos r.time)) in
            rw (same, differ) rest
        | inr other ↦ rw other rest
      ]

  -- Rows in order of time behind all of the table.
  insert_new-after :
      (symbol newest : ℤ) (table new : List FundingRateRow)
      → All (IsBefore symbol newest) table
      → IsAfter symbol newest new
      → insert_new same_funding table new ≡ table ++ new
  unfolding insert_new
  insert_new-after symbol newest table [] all after = sym (append-nil table)
  insert_new-after symbol newest table (row ∷ new) all (is_symbol, later, after) =
      rw (no_conflict symbol newest row table is_symbol later all) (
        insert_new-after symbol (c.nanos row.time) (table ++ row ∷ []) new
          (All-append (IsBefore symbol (c.nanos row.time)) table (row ∷ [])
            (All-imp (λ r before same. let earlier = before same in omega arith) table all)
            (λ _. omega arith, tt))
          after
        ∙ append_assoc table (row ∷ []) new)

  IsAfter-prefix :
      (symbol previous : ℤ) (xs ys : List FundingRateRow)
      → IsAfter symbol previous (xs ++ ys)
      → IsAfter symbol previous xs
  IsAfter-prefix symbol previous [] ys h = tt
  IsAfter-prefix symbol previous (x ∷ xs) ys h =
      (h.0, h.1, IsAfter-prefix symbol (c.nanos x.time) xs ys h.2)

module _ ⦃d : Decimals⦄ ⦃c : Chrono⦄ ⦃s : Serde⦄ ⦃f : FundingTable⦄ where
  -- Rows of a poll are behind what the table holds of their symbol.
  insert_new-IsNew :
      (symbol : ℤ) (newest : Option c.DateTime) (backfill_start : c.DateTime)
      (table new : List FundingRateRow)
      → IsNewest symbol newest table
      → IsNew symbol newest backfill_start new
      → insert_new same_funding table new ≡ table ++ new
  unfolding insert_new
  insert_new-IsNew symbol none backfill table [] all is_new = sym (append-nil table)
  insert_new-IsNew symbol none backfill table (row ∷ new) all (is_symbol, from, after) =
      insert_new-after symbol (c.nanos row.time +ℤ negsuc 0) table (row ∷ new)
        (All-imp {Q = IsBefore symbol (c.nanos row.time +ℤ negsuc 0)}
          (λ r other same. absurd (other same)) table all)
        (is_symbol, before (c.nanos row.time), after)
  insert_new-IsNew symbol (some newest) backfill table new all is_new =
      insert_new-after symbol (c.nanos newest) table new all is_new

  IsNew-prefix :
      (symbol : ℤ) (newest : Option c.DateTime) (backfill_start : c.DateTime)
      (xs ys : List FundingRateRow)
      → IsNew symbol newest backfill_start (xs ++ ys)
      → IsNew symbol newest backfill_start xs
  IsNew-prefix symbol none backfill [] ys h = tt
  IsNew-prefix symbol none backfill (x ∷ xs) ys h =
      (h.0, h.1, IsAfter-prefix symbol (c.nanos x.time) xs ys h.2)
  IsNew-prefix symbol (some newest) backfill xs ys h =
      IsAfter-prefix symbol (c.nanos newest) xs ys h

  -- What a run has added to the table, of the rows that it gave to it. An error may leave more.
  pub record Adds (before : Poller) (r : Result (Unit {0})) (after : Poller) : Type 0 where
    pub done : List FundingRateRow
    pub left : List FundingRateRow
    pub given : after.given ≡ before.given ++ (done ++ left)
    pub added : f.rows after.db ≡ f.rows before.db ++ done
    pub none_left : r ≡ ok tt → left ≡ []

  -- What a poll has added is behind what the table held of the symbol, or nothing.
  pub record AddsNew (symbol : ℤ) (backfill_start : c.DateTime) (before : Poller)
      (r : Result (Unit {0})) (after : Poller) : Type 0 where
    pub adds : Adds before r after
    pub behind :
        (adds.done ≡ [])
        ⊎ ((newest : Option c.DateTime) × IsNewest symbol newest (f.rows before.db)
            × IsNew symbol newest backfill_start adds.done)

  pub poll_market-AddsNew :
      (market : PerpMarket) (backfill_start : c.DateTime) (rounds : List Round) (poller : Poller)
      → AddsNew market.symbol_id backfill_start poller
          (poll_market market backfill_start rounds poller).0
          (poll_market market backfill_start rounds poller).1
  unfolding poll_market newest_funding_time
  poll_market-AddsNew market backfill rounds poller =
      by_newest (f.max_time market.symbol_id poller.db) refl
    where
      takes :
          Takes poller
            (poll_market market backfill rounds poller).0
            (poll_market market backfill rounds poller).1
      takes = poll_market-Takes market backfill rounds poller

      by_newest :
          (o : Option (Option c.DateTime))
          → f.max_time market.symbol_id poller.db ≡ o
          → AddsNew market.symbol_id backfill poller
              (poll_market market backfill rounds poller).0
              (poll_market market backfill rounds poller).1
      by_newest none e =
          subst
            (λ (o : Option (Option c.DateTime)).
              let end =
                ((λ (p : Poller). (ok_or o database_failed, p)) >>= λ newest.
                lift (next_request_start newest backfill) >>= poll_rounds market backfill rounds)
                  poller in
              AddsNew market.symbol_id backfill poller end.0 end.1)
            (sym e)
            (record {
              adds = record {
                done = [];
                left = [];
                given = sym (append-nil poller.given);
                added = sym (append-nil (f.rows poller.db));
                none_left = λ h. absurd (cc);
              };
              behind = inl refl;
            })
      by_newest (some newest) e =
          let (rows, given, is_new) = poll_market-IsNew market backfill rounds poller newest e in
          let rows_eq : rows ≡ takes.done ++ takes.left =
            append-cancel poller.given (sym given ∙ takes.given) in
          let done_new =
            IsNew-prefix market.symbol_id newest backfill takes.done takes.left
              (subst (IsNew market.symbol_id newest backfill) rows_eq is_new) in
          let is_newest = f.max_time-IsNewest market.symbol_id poller.db newest e in
          record {
            adds = record {
              done = takes.done;
              left = takes.left;
              given = takes.given;
              added =
                  takes.taken
                  ∙ insert_new-IsNew market.symbol_id newest backfill (f.rows poller.db) takes.done
                      is_newest done_new;
              none_left = takes.none_left;
            };
            behind = inr (newest, is_newest, done_new);
          }

  -- Whatever the rounds of a poll meet, no row that it gives to the table is skipped.
  pub poll_market-Adds :
      (market : PerpMarket) (backfill_start : c.DateTime) (rounds : List Round) (poller : Poller)
      → Adds poller
          (poll_market market backfill_start rounds poller).0
          (poll_market market backfill_start rounds poller).1
  poll_market-Adds market backfill rounds poller =
      (poll_market-AddsNew market backfill rounds poller).adds
