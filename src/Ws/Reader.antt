-- ===== src/Ws/Reader.antt =====
-- A reader of the table `orderbook_messages`: it starts from a snapshot, verifies the nonce chain and the
-- order of the times, and applies the deltas, as README.md describes it under "Order-book rows". It takes
-- the rows in the order of insertion, the order of their ids in migration 7. README.md orders them by time
-- first: `apply_orderbook_message` does not refuse a snapshot whose time is before that of an older row, so
-- the two orders may differ there.
use lighter_timescaledb_inge.Base.{
  ◌≡◌, not, ◌&&◌, Option, none, some, List, Text, Result, ok, err, arith, and_then, ok_or,
  Result-cases, inl, inr, if◌then◌else◌, text_eq, row_gap, row_unreadable,
}
use lighter_timescaledb_inge.Base.Int.{ℤ, ◌==ℤ◌}
use lighter_timescaledb_inge.Wire.{PriceLevel, OrderBookSideLevels}
use lighter_timescaledb_inge.External.{Decimals, Chrono, Serde, earlier}
use lighter_timescaledb_inge.Models.{OrderbookMessageRow}
use lighter_timescaledb_inge.Book.{Book, from_snapshot, apply_delta, bids, asks}
use lighter_timescaledb_inge.Book.Valid.{IsValid}
use lighter_timescaledb_inge.Book.Rebuild.{SameLevels}
use lighter_timescaledb_inge.Ws.{
  MarketBook, snapshot_type, micros_to_datetime, orderbook_row, book_snapshot_row, serialize,
}

module _ ⦃d : Decimals⦄ ⦃c : Chrono⦄ ⦃s : Serde⦄ where
  -- The book that the reader builds from a delta, if the row continues what it has.
  abbrev pub continue_from :
      OrderbookMessageRow → List PriceLevel → List PriceLevel → Option ℤ → MarketBook → Result Book
  continue_from row bids asks none have = err row_gap
  continue_from row bids asks (some begin_nonce) have =
      if begin_nonce ==ℤ have.nonce && not (earlier row.time have.source_time)
      then (let (applied, book) = apply_delta bids asks have.book in and_then applied λ _. ok book)
      else err row_gap

  -- One row, by a reader that has a book or none yet.
  unfoldable pub read_row : Option MarketBook → OrderbookMessageRow → Result MarketBook
  read_row have row = and_then (ok_or (s.levels_from_value row.bids) row_unreadable) λ bids.
      and_then (ok_or (s.levels_from_value row.asks) row_unreadable) λ asks.
        and_then (ok_or row.sequence row_unreadable) λ sequence.
          and_then
            (if text_eq row.message_type snapshot_type then from_snapshot bids asks else elim have [
              | none ↦ err row_gap
              | some market ↦ continue_from row bids asks row.begin_nonce market
            ])
            λ book. ok (record { nonce = sequence; source_time = row.time; book = book })

  -- The market and the reader have the same nonce and time, and the same level at every price.
  pub record Agrees (have market : MarketBook) : Type 0 where
    pub same_nonce : have.nonce ≡ market.nonce
    pub same_time : have.source_time ≡ market.source_time
    pub valid_have : IsValid have.book
    pub valid_market : IsValid market.book
    pub same_levels : SameLevels have.book market.book

  -- What a row of `orderbook_row` says.
  pub record Says (row : OrderbookMessageRow) (symbol : ℤ) (message_type : Text)
      (begin_nonce : Option ℤ) (time : c.DateTime) (nonce : ℤ) (bids asks : List PriceLevel)
      : Type 0 where
    pub says_time : row.time ≡ time
    pub says_symbol : row.symbol ≡ symbol
    pub says_type : row.message_type ≡ message_type
    pub says_sequence : row.sequence ≡ some nonce
    pub says_bids : s.levels_from_value row.bids ≡ some bids
    pub says_asks : s.levels_from_value row.asks ≡ some asks
    pub says_begin : row.begin_nonce ≡ begin_nonce

  serialize-eq :
      (levels : List PriceLevel) (j : s.Json)
      → serialize levels ≡ ok j
      → s.levels_from_value j ≡ some levels
  unfolding serialize
  serialize-eq levels j h = s.levels_roundtrip levels j (ground arith)

  pub orderbook_row-Says :
      (symbol : ℤ) (message_type : Text) (begin_nonce : Option ℤ) (at : ℤ)
      (levels : OrderBookSideLevels) (time : c.DateTime) (row : OrderbookMessageRow)
      → micros_to_datetime at ≡ ok time
      → orderbook_row symbol message_type begin_nonce at levels ≡ ok row
      → Says row symbol message_type begin_nonce time levels.nonce levels.bids levels.asks
  unfolding orderbook_row
  orderbook_row-Says symbol ty begin_nonce at levels time row good h =
      elim (Result-cases (serialize levels.bids)) [
        | inl (e, bad) ↦ ground arith
        | inr (b, eb) ↦ elim (Result-cases (serialize levels.asks)) [
          | inl (e, bad) ↦ ground arith
          | inr (a, ea) ↦
              let hb = serialize-eq levels.bids b eb in
              let ha = serialize-eq levels.asks a ea in ground arith
        ]
      ]

  pub book_snapshot_row-Says :
      (symbol : ℤ) (market : MarketBook) (row : OrderbookMessageRow)
      → book_snapshot_row symbol market ≡ ok row
      → Says row symbol snapshot_type none market.source_time market.nonce
          (bids market.book)
          (asks market.book)
  unfolding book_snapshot_row
  book_snapshot_row-Says symbol market row h = elim (Result-cases (serialize (bids market.book))) [
    | inl (e, bad) ↦ ground arith
    | inr (b, eb) ↦ elim (Result-cases (serialize (asks market.book))) [
      | inl (e, bad) ↦ ground arith
      | inr (a, ea) ↦
          let hb = serialize-eq (bids market.book) b eb in
          let ha = serialize-eq (asks market.book) a ea in ground arith
    ]
  ]
