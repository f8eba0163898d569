-- ===== src/Ws/Apply.antt =====
-- `apply_orderbook_message`, branch by branch: what it needs, what it changes, and what it leaves.
use lighter_timescaledb_inge.Base.{
  ◌≡◌, ◌≢◌, false, none, some, Text, ok, arith, Bool-cases, Option-cases, Result-cases, inl, inr,
}
use lighter_timescaledb_inge.Base.Int.{ℤ, ◌==ℤ◌, ==ℤ_iff}
use lighter_timescaledb_inge.Base.IntMap.{
  lookup, insert, lookup-insert, lookup-insert_self, lookup-insert_ne,
}
use lighter_timescaledb_inge.Wire.{OrderBookSideLevels, OrderBookWsMessage}
use lighter_timescaledb_inge.External.{Decimals, Chrono, Serde, earlier}
use lighter_timescaledb_inge.Models.{OrderbookMessageRow}
use lighter_timescaledb_inge.Book.{Book, from_snapshot, apply_delta}
use lighter_timescaledb_inge.Book.Valid.{IsValid, from_snapshot-IsValid, apply_delta-IsValid}
use lighter_timescaledb_inge.Ws.{
  MarketBook, Markets, snapshot_type, delta_type, micros_to_datetime, orderbook_row, update_market,
  update_found, apply_orderbook_message,
}

module _ ⦃d : Decimals⦄ ⦃c : Chrono⦄ ⦃s : Serde⦄ where
  -- What a delta that was applied had to meet, and what it left.
  pub record Updated (symbol market_id last_updated_at : ℤ) (levels : OrderBookSideLevels)
      (market : MarketBook) (markets' : Markets) (row : OrderbookMessageRow) : Type 0 where
    pub time : c.DateTime
    pub is_time : micros_to_datetime last_updated_at ≡ ok time
    pub continues : levels.begin_nonce ≡ market.nonce
    pub not_earlier : earlier time market.source_time ≡ false
    pub applied : (apply_delta levels.bids levels.asks market.book).0 ≡ ok tt
    pub stored :
        lookup market_id markets'
        ≡ some (record {
          nonce = levels.nonce;
          source_time = time;
          book = (apply_delta levels.bids levels.asks market.book).1;
        })
    pub written :
        orderbook_row symbol delta_type (some levels.begin_nonce) last_updated_at levels ≡ ok row

  update_market-Updated :
      (symbol market_id last_updated_at : ℤ) (levels : OrderBookSideLevels) (market : MarketBook)
      (markets markets' : Markets) (row : OrderbookMessageRow)
      → update_market symbol market_id last_updated_at levels market markets ≡ (ok row, markets')
      → Updated symbol market_id last_updated_at levels market markets' row
  unfolding update_market
  update_market-Updated symbol id at levels market markets markets' row h =
      elim (Result-cases (micros_to_datetime at)) [
        | inl (e, bad) ↦ ground arith
        | inr (time, good) ↦
            let book = (apply_delta levels.bids levels.asks market.book).1 in
            let half = insert id (record market { book = book }) markets in
            let whole : MarketBook = record {
              nonce = levels.nonce;
              source_time = time;
              book = book;
            } in
            let left : markets' ≡ insert id whole half = ground arith in
            record {
              time = time;
              is_time = good;
              continues = ground (arith, ==ℤ_iff levels.begin_nonce market.nonce);
              not_earlier = ground arith;
              applied = ground arith;
              stored = rw left (lookup-insert_self id whole half);
              written = ground arith;
            }
      ]

  -- What a snapshot that was applied had to meet, and what it left.
  pub record Subscribed (symbol market_id last_updated_at : ℤ) (levels : OrderBookSideLevels)
      (markets' : Markets) (row : OrderbookMessageRow) : Type 0 where
    pub time : c.DateTime
    pub is_time : micros_to_datetime last_updated_at ≡ ok time
    pub book : Book
    pub built : from_snapshot levels.bids levels.asks ≡ ok book
    pub stored :
        lookup market_id markets'
        ≡ some (record { nonce = levels.nonce; source_time = time; book = book })
    pub written : orderbook_row symbol snapshot_type none last_updated_at levels ≡ ok row

  -- A snapshot is applied only if its time is in range and its levels build a book. It then
  -- replaces whatever the market held, and the row written is the message, marked as a snapshot.
  pub subscribed_lem :
      (symbol market_id last_updated_at : ℤ) (channel : Text) (levels : OrderBookSideLevels)
      (markets markets' : Markets) (row : OrderbookMessageRow)
      → apply_orderbook_message symbol market_id
          (OrderBookWsMessage.subscribed channel last_updated_at levels)
          markets
        ≡ (ok row, markets')
      → Subscribed symbol market_id last_updated_at levels markets' row
  unfolding apply_orderbook_message
  subscribed_lem symbol id at channel levels markets markets' row h =
      elim (Result-cases (micros_to_datetime at)) [
        | inl (e, bad) ↦ ground arith
        | inr (time, good) ↦ elim (Result-cases (from_snapshot levels.bids levels.asks)) [
          | inl (e, bad) ↦ ground arith
          | inr (book, fine) ↦
              let whole : MarketBook = record {
                nonce = levels.nonce;
                source_time = time;
                book = book;
              } in
              let left : markets' ≡ insert id whole markets = ground arith in
              record {
                time = time;
                is_time = good;
                book = book;
                built = fine;
                stored = rw left (lookup-insert_self id whole markets);
                written = ground arith;
              }
        ]
      ]

  -- A delta is applied only to a market that has a book, whose nonce it continues, with a source
  -- time in range and not before the book's, and with levels that all parse. The market then holds
  -- the delta's nonce and time and the book after the delta, and the row written is the message,
  -- marked as a delta, with the nonce that it continues from.
  pub update_lem :
      (symbol market_id last_updated_at : ℤ) (channel : Text) (levels : OrderBookSideLevels)
      (markets markets' : Markets) (row : OrderbookMessageRow)
      → apply_orderbook_message symbol market_id
          (OrderBookWsMessage.update channel last_updated_at levels)
          markets
        ≡ (ok row, markets')
      → (market : MarketBook) × (lookup market_id markets ≡ some market)
        × Updated symbol market_id last_updated_at levels market markets' row
  unfolding apply_orderbook_message
  update_lem symbol id at channel levels markets markets' row h =
      elim (Option-cases (lookup id markets)) [
        | inl missing ↦ ground arith
        | inr (market, found) ↦ (
          market,
          found,
          update_market-Updated symbol id at levels market markets markets' row (ground arith),
        )
      ]

  -- A message leaves the books of all other markets as they were, whether it is applied or fails.
  pub apply_orderbook_message-others :
      (symbol market_id other : ℤ) (message : OrderBookWsMessage) (markets : Markets)
      → other ≢ market_id
      → lookup other (apply_orderbook_message symbol market_id message markets).1
        ≡ lookup other markets
  unfolding apply_orderbook_message
  apply_orderbook_message-others symbol id j (OrderBookWsMessage.subscribed _ at levels) markets h =
      grind (arith, lookup-insert_ne)
  apply_orderbook_message-others symbol id j (OrderBookWsMessage.update _ at levels) markets h =
      elim (Option-cases (lookup id markets)) [
        | inl missing ↦ ground arith
        | inr (market, found) ↦ grind (arith, lookup-insert_ne)
      ]

  -- All books of the connection are valid.
  abbrev pub AllValid : Markets → Type 0
  AllValid markets =
      (id : ℤ) (market : MarketBook) → lookup id markets ≡ some market → IsValid market.book

  insert-AllValid :
      (id : ℤ) (market : MarketBook) (markets : Markets)
      → IsValid market.book
      → AllValid markets
      → AllValid (insert id market markets)
  insert-AllValid id market markets v all j m h = elim (Bool-cases (j ==ℤ id)) [
    | inl same ↦ let e : m ≡ market = ground (arith, lookup-insert j id market markets) in rw e v
    | inr other ↦ all j m (ground (arith, lookup-insert j id market markets))
  ]

  update_market-AllValid :
      (symbol id at : ℤ) (levels : OrderBookSideLevels) (market : MarketBook) (markets : Markets)
      → IsValid market.book
      → AllValid markets
      → AllValid (update_market symbol id at levels market markets).1
  unfolding update_market
  update_market-AllValid symbol id at levels market markets v all =
      let book = (apply_delta levels.bids levels.asks market.book).1 in
      let v' = apply_delta-IsValid levels.bids levels.asks market.book v in
      let half = insert id (record market { book = book }) markets in
      let half_valid = insert-AllValid id (record market { book = book }) markets v' all in
      elim (Bool-cases (levels.begin_nonce ==ℤ market.nonce)) [
        | inr gap ↦ rw gap all
        | inl same ↦ elim (Result-cases (micros_to_datetime at)) [
          | inl (e, bad) ↦ rw (same, bad) all
          | inr (time, good) ↦ elim (Bool-cases (earlier time market.source_time)) [
            | inl back ↦ rw (same, good, back) all
            | inr fine ↦ elim (Result-cases (apply_delta levels.bids levels.asks market.book).0) [
              | inl (e, bad) ↦ rw (same, good, fine, bad) half_valid
              | inr (u, done) ↦
                  rw (same, good, fine, done)
                    (insert-AllValid id
                      (record { nonce = levels.nonce; source_time = time; book = book }) half v'
                      half_valid)
            ]
          ]
        ]
      ]

  pub apply_orderbook_message-AllValid :
      (symbol market_id : ℤ) (message : OrderBookWsMessage) (markets : Markets)
      → AllValid markets
      → AllValid (apply_orderbook_message symbol market_id message markets).1
  unfolding apply_orderbook_message
  apply_orderbook_message-AllValid symbol id (OrderBookWsMessage.subscribed _ at levels) markets
        all =
      elim (Result-cases (micros_to_datetime at)) [
        | inl (e, bad) ↦ rw bad all
        | inr (time, good) ↦ elim (Result-cases (from_snapshot levels.bids levels.asks)) [
          | inl (e, bad) ↦ rw (good, bad) all
          | inr (book, fine) ↦
              rw (good, fine)
                (insert-AllValid id
                  (record { nonce = levels.nonce; source_time = time; book = book }) markets
                  (from_snapshot-IsValid levels.bids levels.asks book fine) all)
        ]
      ]
  apply_orderbook_message-AllValid symbol id (OrderBookWsMessage.update _ at levels) markets all =
      elim (Option-cases (lookup id markets)) [
        | inl missing ↦ rw (missing, update_found) all
        | inr (market, found) ↦
            rw (found, update_found)
              (update_market-AllValid symbol id at levels market markets (all id market found) all)
      ]
