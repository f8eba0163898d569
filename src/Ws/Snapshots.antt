-- ===== src/Ws/Snapshots.antt =====
-- src/ws.rs: the snapshots that the timer sends to the writer.
use lighter_timescaledb_inge.Base.{
  ◌≡◌, refl, sym, ap, ◌∙◌, subst, none, some, List, [], ◌∷◌, ◌++◌, map, append-nil, append_assoc,
  All, Pairwise, Result, ok, err, arith, Option-cases, Result-cases, inl, inr, channel_closed,
  unknown_market,
}
use lighter_timescaledb_inge.Base.Int.{ℤ}
use lighter_timescaledb_inge.Base.IntMap.{IntMap, lookup}
use lighter_timescaledb_inge.External.{Decimals, Chrono, Serde, Floats}
use lighter_timescaledb_inge.Wire.{PriceLevel}
use lighter_timescaledb_inge.Models.{OrderbookMessageRow}
use lighter_timescaledb_inge.Book.{Book, from_snapshot, bids, asks}
use lighter_timescaledb_inge.Book.Valid.{IsValid}
use lighter_timescaledb_inge.Book.Order.{Below, listing_ordered}
use lighter_timescaledb_inge.Book.Rebuild.{SameLevels, from_snapshot-listing}
use lighter_timescaledb_inge.Ws.{MarketBook, Markets, snapshot_type, book_snapshot_row}
use lighter_timescaledb_inge.Ws.Reader.{Says, book_snapshot_row-Says}
use lighter_timescaledb_inge.Ws.Session.{
  orderbook, Session, write_snapshots, write_periodic_snapshots,
}
use lighter_timescaledb_inge.Ws.Stream.{send_row-cases}

module _ ⦃d : Decimals⦄ ⦃c : Chrono⦄ ⦃s : Serde⦄ (cache : IntMap ℤ) where
  -- The row is a snapshot of the market, for its symbol, at its nonce and time. The sides that read back
  -- from its JSON are in the order of the prices, and a book that is built from them has the same level
  -- at every price.
  pub record IsSnapshotOf (market_id : ℤ) (market : MarketBook) (row : OrderbookMessageRow)
      : Type 0 where
    pub symbol : ℤ
    pub known : lookup market_id cache ≡ some symbol
    pub bids_read : List PriceLevel
    pub asks_read : List PriceLevel
    pub says :
        Says row symbol snapshot_type none market.source_time market.nonce bids_read asks_read
    pub falling : Pairwise (λ a b. Below b a) bids_read
    pub rising : Pairwise Below asks_read
    pub book : Book
    pub rebuilt : from_snapshot bids_read asks_read ≡ ok book
    pub same_levels : SameLevels book market.book

  -- One row for each market, in their order.
  abbrev pub AreSnapshotsOf : Markets → List OrderbookMessageRow → Type 0
  AreSnapshotsOf [] [] = Unit
  AreSnapshotsOf [] (row ∷ rows) = ⊥
  AreSnapshotsOf (_ ∷ markets) [] = ⊥
  AreSnapshotsOf ((id, market) ∷ markets) (row ∷ rows) =
      IsSnapshotOf id market row × AreSnapshotsOf markets rows

  -- All books of the list are valid.
  abbrev pub AreValid : Markets → Type 0
  AreValid = All (λ entry. IsValid entry.1.book)

  row-IsSnapshotOf :
      (id symbol : ℤ) (market : MarketBook) (row : OrderbookMessageRow)
      → IsValid market.book
      → lookup id cache ≡ some symbol
      → book_snapshot_row symbol market ≡ ok row
      → IsSnapshotOf id market row
  row-IsSnapshotOf id symbol market row valid known h =
      let (book, rebuilt, _, same_levels) = from_snapshot-listing market.book valid in
      let (falling, rising) = listing_ordered market.book valid in
      record {
        symbol = symbol;
        known = known;
        bids_read = bids market.book;
        asks_read = asks market.book;
        says = book_snapshot_row-Says symbol market row h;
        falling = falling;
        rising = rising;
        book = book;
        rebuilt = rebuilt;
        same_levels = same_levels;
      }

module _ ⦃d : Decimals⦄ ⦃c : Chrono⦄ ⦃s : Serde⦄ ⦃f : Floats⦄ (cache : IntMap ℤ) where
  -- The snapshots of a first part of the markets are sent, of all of them if there is no error, and
  -- nothing else of the session changes.
  pub record Written (markets : Markets) (session : Session) (r : Result (Unit {0}) × Session)
      : Type 0 where
    pub done : Markets
    pub left : Markets
    pub rows : List OrderbookMessageRow
    pub split : done ++ left ≡ markets
    pub are_snapshots : AreSnapshotsOf cache done rows
    pub session_after :
        r.1 ≡ record session { sent = session.sent ++ map (λ row. orderbook row) rows }
    pub none_left : r.0 ≡ ok tt → left ≡ []

  none-Written :
      (markets : Markets) (session : Session) (r : Result (Unit {0}))
      → (r ≡ ok tt → markets ≡ [])
      → Written markets session (r, session)
  none-Written markets session r ends = record {
    done = [];
    left = markets;
    rows = [];
    split = refl;
    are_snapshots = tt;
    session_after = ap (λ l. record session { sent = l }) (sym (append-nil session.sent));
    none_left = ends;
  }

  -- A row more in front.
  one-Written :
      (id : ℤ) (market : MarketBook) (row : OrderbookMessageRow) (markets : Markets)
      (session : Session) (r : Result (Unit {0}) × Session)
      → IsSnapshotOf cache id market row
      → Written markets (record session { sent = session.sent ++ orderbook row ∷ [] }) r
      → Written ((id, market) ∷ markets) session r
  one-Written id market row markets session r is_row x = record {
    done = (id, market) ∷ x.done;
    left = x.left;
    rows = row ∷ x.rows;
    split = ap (λ l. (id, market) ∷ l) x.split;
    are_snapshots = (is_row, x.are_snapshots);
    session_after =
        x.session_after
        ∙ ap (λ l. record session { sent = l })
            (append_assoc session.sent (orderbook row ∷ []) (map (λ row. orderbook row) x.rows));
    none_left = x.none_left;
  }

  write_snapshots-Written :
      (markets : Markets) (session : Session)
      → AreValid cache markets
      → Written markets session (write_snapshots cache markets session)
  unfolding write_snapshots
  write_snapshots-Written [] session valid = none-Written [] session (ok tt) (λ _. refl)
  write_snapshots-Written ((id, market) ∷ markets) session valid =
      let all : Markets = (id, market) ∷ markets in
      let run = write_snapshots cache all session in
      elim (Option-cases (lookup id cache)) [
        | inl missing ↦
            let e : run ≡ (err unknown_market, session) = ground arith in
            subst (Written all session) (sym e)
              (none-Written all session (err unknown_market) (λ h. absurd (cc)))
        | inr (symbol, known) ↦ elim (Result-cases (book_snapshot_row symbol market)) [
          | inl (x, bad) ↦
              let e : run ≡ (err x, session) = ground arith in
              subst (Written all session) (sym e)
                (none-Written all session (err x) (λ h. absurd (cc)))
          | inr (row, good) ↦ elim (send_row-cases (orderbook row) session) [
            | inl shut ↦
                let e : run ≡ (err channel_closed, session) = ground arith in
                subst (Written all session) (sym e)
                  (none-Written all session (err channel_closed) (λ h. absurd (cc)))
            | inr up ↦
                let session' = record session { sent = session.sent ++ orderbook row ∷ [] } in
                let e : run ≡ write_snapshots cache markets session' = ground arith in
                subst (Written all session) (sym e) (
                  one-Written id market row markets session _
                    (row-IsSnapshotOf cache id symbol market row valid.0 known good)
                    (write_snapshots-Written markets
                      (record session { sent = session.sent ++ orderbook row ∷ [] }) valid.1))
          ]
        ]
      ]

  -- If the books of the connection are valid, the timer sends one snapshot for each market that has a
  -- book, for its symbol and at its nonce and time, whose bids read back from the highest price down and
  -- whose asks from the lowest up, and from which the book at every price is built again: for all markets
  -- if there is no error, and else for a first part. Nothing else of the session changes.
  pub write_periodic_snapshots-Written :
      (session : Session)
      → AreValid cache session.markets
      → Written session.markets session (write_periodic_snapshots cache session)
  unfolding write_periodic_snapshots
  write_periodic_snapshots-Written session valid =
      write_snapshots-Written session.markets session valid
