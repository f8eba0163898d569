-- ===== src/Ws.antt =====
-- src/ws.rs: the books of one connection, and the rows that a message or a timer writes.
pub mod Apply
pub mod Accept
pub mod Says
pub mod Snapshots
pub mod Reader
pub mod ReaderStep
pub mod Session
pub mod Rows
pub mod Stream
pub mod Connections
pub mod Replay
pub mod Shape
pub mod Sends
pub mod Trades
pub mod Chain
pub mod Examples
use lighter_timescaledb_inge.Base.{
  not, Option, none, some, List, [], ◌∷◌, Text, codes, Result, ok, bad_timestamp, unserializable,
  before_snapshot, nonce_gap, time_backwards, and_then, ok_or, Action, ◌>>=◌, ◌>>◌, lift, fail,
  gets, modify, bail_if, if◌then◌else◌,
}
use lighter_timescaledb_inge.Base.Int.{ℤ, ◌==ℤ◌}
use lighter_timescaledb_inge.Base.IntMap.{IntMap, lookup, insert, contains_key}
use lighter_timescaledb_inge.Wire.{PriceLevel, OrderBookSideLevels, OrderBookWsMessage}
use lighter_timescaledb_inge.External.{Decimals, Chrono, Serde, earlier}
use lighter_timescaledb_inge.Models.{OrderbookMessageRow}
use lighter_timescaledb_inge.Book
use lighter_timescaledb_inge.Book.{Book, from_snapshot, apply_delta}

abbrev pub snapshot_type : Text
snapshot_type = codes "snapshot"

abbrev pub delta_type : Text
delta_type = codes "delta"

module _ ⦃c : Chrono⦄ where
  unfoldable pub micros_to_datetime : ℤ → Result c.DateTime
  micros_to_datetime micros = ok_or (c.from_timestamp_micros micros) bad_timestamp

module _ ⦃s : Serde⦄ where
  unfoldable pub serialize : List PriceLevel → Result s.Json
  serialize levels = ok_or (s.levels_to_value levels) unserializable

module _ ⦃d : Decimals⦄ ⦃c : Chrono⦄ where
  pub record MarketBook : Type 0 where
    pub nonce : ℤ
    pub source_time : c.DateTime
    pub book : Book

  abbrev pub Markets : Type 0
  Markets = IntMap MarketBook

  -- Subscribed markets that have no book in this connection yet.
  unfoldable pub missing_books : List ℤ → Markets → List ℤ
  missing_books [] markets = []
  missing_books (id ∷ ids) markets =
      let rest = missing_books ids markets in if contains_key id markets then rest else id ∷ rest

module _ ⦃d : Decimals⦄ ⦃c : Chrono⦄ ⦃s : Serde⦄ where
  unfoldable pub orderbook_row :
      ℤ → Text → Option ℤ → ℤ → OrderBookSideLevels → Result OrderbookMessageRow
  orderbook_row symbol message_type begin_nonce last_updated_at order_book =
      and_then (micros_to_datetime last_updated_at) λ time.
        and_then (serialize order_book.bids) λ bids. and_then (serialize order_book.asks) λ asks.
          ok (record {
            time = time;
            symbol = symbol;
            message_type = message_type;
            sequence = some order_book.nonce;
            bids = bids;
            asks = asks;
            begin_nonce = begin_nonce;
          })

  unfoldable pub book_snapshot_row : ℤ → MarketBook → Result OrderbookMessageRow
  book_snapshot_row symbol market = and_then (serialize (Book.bids market.book)) λ bids.
      and_then (serialize (Book.asks market.book)) λ asks. ok (record {
        time = market.source_time;
        symbol = symbol;
        message_type = snapshot_type;
        sequence = some market.nonce;
        bids = bids;
        asks = asks;
        begin_nonce = none;
      })

  -- The arm `Update` of `apply_orderbook_message`, with the market's book at hand. `apply_delta`
  -- writes through the reference into the map, also where it fails.
  unfoldable pub update_market :
      ℤ → ℤ → ℤ → OrderBookSideLevels → MarketBook → Action Markets OrderbookMessageRow
  update_market symbol market_id last_updated_at order_book market = do
    bail_if (not (order_book.begin_nonce ==ℤ market.nonce)) nonce_gap
    source_time ← lift (micros_to_datetime last_updated_at)
    bail_if (earlier source_time market.source_time) time_backwards
    let (applied, book) = apply_delta order_book.bids order_book.asks market.book
    modify (insert market_id (record market { book = book }))
    lift applied
    modify (
        insert market_id
          (record { nonce = order_book.nonce; source_time = source_time; book = book }))
    lift (orderbook_row symbol delta_type (some order_book.begin_nonce) last_updated_at order_book)

  -- The same, from the lookup of the market.
  unfoldable pub update_found :
      ℤ → ℤ → ℤ → OrderBookSideLevels → Option MarketBook → Action Markets OrderbookMessageRow
  update_found symbol market_id last_updated_at levels none = fail before_snapshot
  update_found symbol market_id last_updated_at levels (some market) =
      update_market symbol market_id last_updated_at levels market

  unfoldable pub apply_orderbook_message :
      ℤ → ℤ → OrderBookWsMessage → Action Markets OrderbookMessageRow
  unfolding update_found update_market
  apply_orderbook_message symbol market_id
        (OrderBookWsMessage.subscribed _ last_updated_at levels) =
      do
        source_time ← lift (micros_to_datetime last_updated_at)
        book ← lift (from_snapshot levels.bids levels.asks)
        modify (
            insert market_id
              (record { nonce = levels.nonce; source_time = source_time; book = book }))
        lift (orderbook_row symbol snapshot_type none last_updated_at levels)
  apply_orderbook_message symbol market_id (OrderBookWsMessage.update _ last_updated_at levels) = do
    found ← gets (lookup market_id)
    update_found symbol market_id last_updated_at levels found
