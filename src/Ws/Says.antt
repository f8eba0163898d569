-- ===== src/Ws/Says.antt =====
-- src/ws.rs: what an applied message leaves, the row for the writer and the book of the market.
use lighter_timescaledb_inge.Base.{◌≡◌, refl, sym, subst, Option, none, some, Text, ok}
use lighter_timescaledb_inge.Base.Int.{ℤ}
use lighter_timescaledb_inge.Base.IntMap.{lookup}
use lighter_timescaledb_inge.OrderedMap.{get}
use lighter_timescaledb_inge.Wire.{PriceLevel, OrderBookSideLevels, OrderBookWsMessage}
use lighter_timescaledb_inge.External.{Decimals, Chrono, Serde}
use lighter_timescaledb_inge.Models.{OrderbookMessageRow}
use lighter_timescaledb_inge.Book.{apply_delta}
use lighter_timescaledb_inge.Book.Levels.{apply_delta-get, from_snapshot-get, decided, last_at}
use lighter_timescaledb_inge.Ws.{
  MarketBook, Markets, snapshot_type, delta_type, apply_orderbook_message,
}
use lighter_timescaledb_inge.Ws.Accept.{micros-in_range}
use lighter_timescaledb_inge.Ws.Apply.{AllValid, subscribed_lem, update_lem}
use lighter_timescaledb_inge.Ws.Reader.{Says, orderbook_row-Says}

module _ ⦃d : Decimals⦄ ⦃c : Chrono⦄ where
  -- What a side holds at a price, of a market that may have no book.
  abbrev pub bid_at : Option MarketBook → d.Decimal → Option PriceLevel
  bid_at none p = none
  bid_at (some market) p = get d.cmp p market.book.bid_side

  abbrev pub ask_at : Option MarketBook → d.Decimal → Option PriceLevel
  ask_at none p = none
  ask_at (some market) p = get d.cmp p market.book.ask_side

module _ ⦃d : Decimals⦄ ⦃c : Chrono⦄ ⦃s : Serde⦄ where
  -- The row says what the message says, with its sides read back from JSON, and the market is at the
  -- nonce and the time of the message and has at each price the last level of the message there, and
  -- where it has none what `before` has.
  pub record Told (symbol at : ℤ) (message_type : Text) (begin_nonce : Option ℤ)
      (levels : OrderBookSideLevels) (before : Option MarketBook) (after : Option MarketBook)
      (row : OrderbookMessageRow) : Type 0 where
    pub time : c.DateTime
    pub in_range : c.from_timestamp_micros at ≡ some time
    pub says : Says row symbol message_type begin_nonce time levels.nonce levels.bids levels.asks
    pub market : MarketBook
    pub found : after ≡ some market
    pub nonce_left : market.nonce ≡ levels.nonce
    pub time_left : market.source_time ≡ time
    pub bids_left :
        (p : d.Decimal)
        → get d.cmp p market.book.bid_side ≡ decided (last_at p levels.bids) (bid_at before p)
    pub asks_left :
        (p : d.Decimal)
        → get d.cmp p market.book.ask_side ≡ decided (last_at p levels.asks) (ask_at before p)

  -- A snapshot forgets what the market held, and its row has no begin_nonce.
  abbrev pub Tells :
      ℤ → OrderBookWsMessage → Option MarketBook → Option MarketBook → OrderbookMessageRow → Type 0
  Tells symbol (OrderBookWsMessage.subscribed _ at levels) before after row =
      Told symbol at snapshot_type none levels none after row
  Tells symbol (OrderBookWsMessage.update _ at levels) before after row =
      Told symbol at delta_type (some levels.begin_nonce) levels before after row

  -- If the books of the connection are valid, an applied message leaves a row that says what the message
  -- says, its symbol, type, time, nonce and, for a delta, begin_nonce, and from whose JSON its bids and
  -- its asks read back, and the market at its nonce and time with the last level of the message at each
  -- price; where a delta has no level, with what was there, and where a snapshot has none, with nothing.
  pub apply_orderbook_message-Tells :
      (symbol market_id : ℤ) (message : OrderBookWsMessage) (markets markets' : Markets)
      (row : OrderbookMessageRow)
      → AllValid markets
      → apply_orderbook_message symbol market_id message markets ≡ (ok row, markets')
      → Tells symbol message (lookup market_id markets) (lookup market_id markets') row
  apply_orderbook_message-Tells symbol id (OrderBookWsMessage.subscribed channel at levels) markets
        markets' row all h =
      let x = subscribed_lem symbol id at channel levels markets markets' row h in
      let levels_at = from_snapshot-get levels.bids levels.asks x.book x.built in
      record {
        time = x.time;
        in_range = micros-in_range at x.time x.is_time;
        says =
            orderbook_row-Says symbol snapshot_type none at levels x.time row x.is_time x.written;
        market = record { nonce = levels.nonce; source_time = x.time; book = x.book };
        found = x.stored;
        nonce_left = refl;
        time_left = refl;
        bids_left = λ p. (levels_at p).0;
        asks_left = λ p. (levels_at p).1;
      }
  apply_orderbook_message-Tells symbol id (OrderBookWsMessage.update channel at levels) markets
        markets' row all h =
      let (market, found, x) = update_lem symbol id at channel levels markets markets' row h in
      let levels_at =
        apply_delta-get levels.bids levels.asks market.book (all id market found) x.applied in
      let left : Told symbol at delta_type (some levels.begin_nonce) levels (some market)
          (lookup id markets') row =
        record {
          time = x.time;
          in_range = micros-in_range at x.time x.is_time;
          says =
              orderbook_row-Says symbol delta_type (some levels.begin_nonce) at levels x.time row
                x.is_time x.written;
          market = record {
            nonce = levels.nonce;
            source_time = x.time;
            book = (apply_delta levels.bids levels.asks market.book).1;
          };
          found = x.stored;
          nonce_left = refl;
          time_left = refl;
          bids_left = λ p. (levels_at p).0;
          asks_left = λ p. (levels_at p).1;
        } in
      subst
        (λ before.
          Told symbol at delta_type (some levels.begin_nonce) levels before (lookup id markets')
            row)
        (sym found) left
