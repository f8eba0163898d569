-- ===== src/Ws/Accept.antt =====
-- src/ws.rs: which messages `apply_orderbook_message` applies, whatever the connection has met.
use lighter_timescaledb_inge.Base.{
  ◌≡◌, ◌↔◌, refl, ap, false, Option, none, some, Text, List, All, Result, ok, arith, Option-cases,
  Result-cases, inl, inr,
}
use lighter_timescaledb_inge.Base.Int.{ℤ, ==ℤ_iff}
use lighter_timescaledb_inge.Base.IntMap.{lookup}
use lighter_timescaledb_inge.Wire.{PriceLevel, OrderBookSideLevels, OrderBookWsMessage}
use lighter_timescaledb_inge.External.{Decimals, Chrono, Serde, earlier}
use lighter_timescaledb_inge.Models.{OrderbookMessageRow}
use lighter_timescaledb_inge.Book.Accept.{
  IsDecimalLevel, IsSnapshotLevel, apply_delta-ok_iff, from_snapshot-ok_iff,
}
use lighter_timescaledb_inge.Ws.{
  MarketBook, Markets, snapshot_type, delta_type, micros_to_datetime, serialize, orderbook_row,
  update_market, update_found, apply_orderbook_message,
}
use lighter_timescaledb_inge.Ws.Apply.{subscribed_lem, update_lem}

module _ ⦃d : Decimals⦄ ⦃c : Chrono⦄ ⦃s : Serde⦄ where
  -- Both sides can be written as JSON.
  pub record IsWritable (levels : OrderBookSideLevels) : Type 0 where
    pub bids_value : s.Json
    pub asks_value : s.Json
    pub bids_written : s.levels_to_value levels.bids ≡ some bids_value
    pub asks_written : s.levels_to_value levels.asks ≡ some asks_value

  -- A snapshot with a time in range, whose levels are decimals with sizes that are not zero.
  pub record FitsSnapshot (at : ℤ) (levels : OrderBookSideLevels) : Type 0 where
    pub time : c.DateTime
    pub in_range : c.from_timestamp_micros at ≡ some time
    pub snapshot_bids : All IsSnapshotLevel levels.bids
    pub snapshot_asks : All IsSnapshotLevel levels.asks
    pub writable : IsWritable levels

  -- A delta that continues the nonce of the book, with a time in range that is not before the book's,
  -- whose levels are decimals.
  pub record FitsDelta (at : ℤ) (levels : OrderBookSideLevels) (market : MarketBook) : Type 0 where
    pub time : c.DateTime
    pub in_range : c.from_timestamp_micros at ≡ some time
    pub continues : levels.begin_nonce ≡ market.nonce
    pub not_earlier : earlier time market.source_time ≡ false
    pub decimal_bids : All IsDecimalLevel levels.bids
    pub decimal_asks : All IsDecimalLevel levels.asks
    pub writable : IsWritable levels

  -- What a message needs from the book of its market, if there is one: a snapshot needs none.
  abbrev pub Fits : Option MarketBook → OrderBookWsMessage → Type 0
  Fits have (OrderBookWsMessage.subscribed _ at levels) = FitsSnapshot at levels
  Fits none (OrderBookWsMessage.update _ at levels) = ⊥
  Fits (some market) (OrderBookWsMessage.update _ at levels) = FitsDelta at levels market

  pub micros-in_range :
      (at : ℤ) (time : c.DateTime)
      → micros_to_datetime at ≡ ok time
      → c.from_timestamp_micros at ≡ some time
  unfolding micros_to_datetime
  micros-in_range at time h = ground arith

  serialize-value :
      (levels : List PriceLevel) (j : s.Json)
      → serialize levels ≡ ok j
      → s.levels_to_value levels ≡ some j
  unfolding serialize
  serialize-value levels j h = ground arith

  orderbook_row-IsWritable :
      (symbol at : ℤ) (ty : Text) (begin_nonce : Option ℤ) (levels : OrderBookSideLevels)
      (row : OrderbookMessageRow) (time : c.DateTime)
      → micros_to_datetime at ≡ ok time
      → orderbook_row symbol ty begin_nonce at levels ≡ ok row
      → IsWritable levels
  unfolding orderbook_row
  orderbook_row-IsWritable symbol at ty begin_nonce levels row time good h =
      elim (Result-cases (serialize levels.bids)) [
        | inl (e, bad) ↦ ground arith
        | inr (b, eb) ↦ elim (Result-cases (serialize levels.asks)) [
          | inl (e, bad) ↦ ground arith
          | inr (a, ea) ↦ record {
            bids_value = b;
            asks_value = a;
            bids_written = serialize-value levels.bids b eb;
            asks_written = serialize-value levels.asks a ea;
          }
        ]
      ]

  -- A row can be made.
  orderbook_row_total :
      (symbol at : ℤ) (ty : Text) (begin_nonce : Option ℤ) (levels : OrderBookSideLevels)
      (time : c.DateTime)
      → c.from_timestamp_micros at ≡ some time
      → IsWritable levels
      → (row : OrderbookMessageRow) × (orderbook_row symbol ty begin_nonce at levels ≡ ok row)
  unfolding orderbook_row micros_to_datetime serialize
  orderbook_row_total symbol at ty begin_nonce levels time good w = (
    record {
      time = time;
      symbol = symbol;
      message_type = ty;
      sequence = some levels.nonce;
      bids = w.bids_value;
      asks = w.asks_value;
      begin_nonce = begin_nonce;
    },
    rw (good, w.bids_written, w.asks_written) refl,
  )

  succeeded :
      (r : Result OrderbookMessageRow × Markets) (row : OrderbookMessageRow)
      → r.0 ≡ ok row
      → (row' : OrderbookMessageRow) × (markets' : Markets) × (r ≡ (ok row', markets'))
  succeeded (result, markets') row h = (row, markets', ap (λ x. (x, markets')) h)

  applied-Fits :
      (symbol id : ℤ) (message : OrderBookWsMessage) (markets markets' : Markets)
      (row : OrderbookMessageRow)
      → apply_orderbook_message symbol id message markets ≡ (ok row, markets')
      → Fits (lookup id markets) message
  applied-Fits symbol id (OrderBookWsMessage.subscribed channel at levels) markets markets' row h =
      let x = subscribed_lem symbol id at channel levels markets markets' row h in
      let (snapshot_bids, snapshot_asks) =
        (from_snapshot-ok_iff levels.bids levels.asks).0 (x.book, x.built) in
      record {
        time = x.time;
        in_range = micros-in_range at x.time x.is_time;
        snapshot_bids = snapshot_bids;
        snapshot_asks = snapshot_asks;
        writable = orderbook_row-IsWritable symbol at _ _ levels row x.time x.is_time x.written;
      }
  applied-Fits symbol id (OrderBookWsMessage.update channel at levels) markets markets' row h =
      let (market, found, x) = update_lem symbol id at channel levels markets markets' row h in
      let (decimal_bids, decimal_asks) =
        (apply_delta-ok_iff levels.bids levels.asks market.book).0 x.applied in
      let fits : FitsDelta at levels market = record {
        time = x.time;
        in_range = micros-in_range at x.time x.is_time;
        continues = x.continues;
        not_earlier = x.not_earlier;
        decimal_bids = decimal_bids;
        decimal_asks = decimal_asks;
        writable = orderbook_row-IsWritable symbol at _ _ levels row x.time x.is_time x.written;
      } in
      rw found fits

  snapshot-applied :
      (symbol id at : ℤ) (channel : Text) (levels : OrderBookSideLevels) (markets : Markets)
      → FitsSnapshot at levels
      → (row : OrderbookMessageRow) × (markets' : Markets) × (apply_orderbook_message symbol id
            (OrderBookWsMessage.subscribed channel at levels)
            markets
          ≡ (ok row, markets'))
  unfolding apply_orderbook_message micros_to_datetime
  snapshot-applied symbol id at channel levels markets x =
      let (book, built) =
        (from_snapshot-ok_iff levels.bids levels.asks).1 (x.snapshot_bids, x.snapshot_asks) in
      let (row, written) =
        orderbook_row_total symbol at snapshot_type none levels x.time x.in_range x.writable in
      succeeded
        (apply_orderbook_message symbol id (OrderBookWsMessage.subscribed channel at levels)
          markets)
        row (rw (x.in_range, built) written)

  delta-applied :
      (symbol id at : ℤ) (levels : OrderBookSideLevels) (market : MarketBook) (markets : Markets)
      → FitsDelta at levels market
      → (row : OrderbookMessageRow) × (markets' : Markets) × (update_market symbol id at levels
            market markets
          ≡ (ok row, markets'))
  unfolding update_market micros_to_datetime
  delta-applied symbol id at levels market markets x =
      let applied =
        (apply_delta-ok_iff levels.bids levels.asks market.book).1
          (x.decimal_bids, x.decimal_asks) in
      let (row, written) =
        orderbook_row_total symbol at delta_type (some levels.begin_nonce) levels x.time x.in_range
          x.writable in
      let same = (==ℤ_iff levels.begin_nonce market.nonce).1 x.continues in
      succeeded (update_market symbol id at levels market markets) row
        (rw (same, x.in_range, x.not_earlier, applied) written)

  Fits-applied :
      (symbol id : ℤ) (message : OrderBookWsMessage) (markets : Markets)
      → Fits (lookup id markets) message
      → (row : OrderbookMessageRow) × (markets' : Markets) × (apply_orderbook_message symbol id
            message markets
          ≡ (ok row, markets'))
  unfolding apply_orderbook_message update_found
  Fits-applied symbol id (OrderBookWsMessage.subscribed channel at levels) markets x =
      snapshot-applied symbol id at channel levels markets x
  Fits-applied symbol id (OrderBookWsMessage.update channel at levels) markets x =
      elim (Option-cases (lookup id markets)) [
        | inl missing ↦ absurd (rw missing at x)
        | inr (market, found) ↦
            rw found (delta-applied symbol id at levels market markets (rw found at x))
      ]

  -- A snapshot is applied exactly if its time is in range, its prices and sizes are decimals and no size
  -- is zero, whatever the market holds. A delta is applied exactly if the market has a book, the delta
  -- continues its nonce, at a time in range that is not before the book's, and its prices and sizes are
  -- decimals. Both need levels that can be written as JSON, which are all that a message holds.
  pub apply_orderbook_message-ok_iff :
      (symbol market_id : ℤ) (message : OrderBookWsMessage) (markets : Markets)
      → ((row : OrderbookMessageRow) × (markets' : Markets) × (apply_orderbook_message symbol
              market_id message markets
            ≡ (ok row, markets')))
        ↔ Fits (lookup market_id markets) message
  apply_orderbook_message-ok_iff symbol id message markets = (
    λ (row, markets', h). applied-Fits symbol id message markets markets' row h,
    Fits-applied symbol id message markets,
  )
