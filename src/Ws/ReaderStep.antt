-- ===== src/Ws/ReaderStep.antt =====
-- One row and the reader: a row that a message or the timer writes is accepted, and brings the
-- reader to the market's book.
use lighter_timescaledb_inge.Base.{
  ◌≡◌, refl, sym, ap, ◌∙◌, false, Option, none, some, List, ok, arith,
}
use lighter_timescaledb_inge.Base.Int.{ℤ, ==ℤ_iff}
use lighter_timescaledb_inge.Base.IntMap.{lookup}
use lighter_timescaledb_inge.Wire.{PriceLevel, OrderBookSideLevels, OrderBookWsMessage}
use lighter_timescaledb_inge.External.{Decimals, Chrono, Serde, earlier}
use lighter_timescaledb_inge.Models.{OrderbookMessageRow}
use lighter_timescaledb_inge.Book.{Book, from_snapshot, apply_delta, bids, asks}
use lighter_timescaledb_inge.Book.Valid.{IsValid, from_snapshot-IsValid, apply_delta-IsValid}
use lighter_timescaledb_inge.Book.Accept.{apply_delta-ok_iff}
use lighter_timescaledb_inge.Book.Levels.{apply_delta-get, decided, last_at}
use lighter_timescaledb_inge.Book.Rebuild.{SameLevels, from_snapshot-listing}
use lighter_timescaledb_inge.Ws.{
  MarketBook, Markets, snapshot_type, delta_type, book_snapshot_row, apply_orderbook_message,
}
use lighter_timescaledb_inge.Ws.Apply.{Subscribed, Updated, subscribed_lem, update_lem}
use lighter_timescaledb_inge.Ws.Reader.{
  read_row, Agrees, Says, orderbook_row-Says, book_snapshot_row-Says,
}

module _ ⦃d : Decimals⦄ ⦃c : Chrono⦄ ⦃s : Serde⦄ where
  read_row-snapshot :
      (have : Option MarketBook) (row : OrderbookMessageRow) (symbol : ℤ) (begin_nonce : Option ℤ)
      (time : c.DateTime) (nonce : ℤ) (bs as' : List PriceLevel) (book : Book)
      → Says row symbol snapshot_type begin_nonce time nonce bs as'
      → from_snapshot bs as' ≡ ok book
      → read_row have row ≡ ok (record { nonce = nonce; source_time = time; book = book })
  unfolding read_row
  read_row-snapshot have row symbol begin_nonce time nonce bs as' book says h =
      rw (says.says_bids, says.says_asks, says.says_sequence, says.says_type, h, says.says_time)

  read_row-delta :
      (have : MarketBook) (row : OrderbookMessageRow) (symbol begin_nonce : ℤ) (time : c.DateTime)
      (nonce : ℤ) (bs as' : List PriceLevel)
      → Says row symbol delta_type (some begin_nonce) time nonce bs as'
      → begin_nonce ≡ have.nonce
      → earlier time have.source_time ≡ false
      → (apply_delta bs as' have.book).0 ≡ ok tt
      → read_row (some have) row
        ≡ ok (record { nonce = nonce; source_time = time; book = (apply_delta bs as' have.book).1 })
  unfolding read_row
  read_row-delta have row symbol begin_nonce time nonce bs as' says same fine done =
      rw
        (
          says.says_bids, says.says_asks, says.says_sequence, says.says_type, says.says_begin,
          says.says_time,
        )
        (ground (arith, ==ℤ_iff begin_nonce have.nonce))

  -- The reader, if the market has a book, is at that book.
  abbrev pub Keeps : Option MarketBook → Option MarketBook → Type 0
  Keeps have none = Unit
  Keeps none (some market) = ⊥
  Keeps (some have) (some market) = Agrees have market

  -- The same delta brings books with the same levels to books with the same levels.
  apply_delta-SameLevels :
      (bs as' : List PriceLevel) (a b : Book)
      → IsValid a
      → IsValid b
      → SameLevels a b
      → (apply_delta bs as' a).0 ≡ ok tt
      → (apply_delta bs as' b).0 ≡ ok tt
      → SameLevels (apply_delta bs as' a).1 (apply_delta bs as' b).1
  apply_delta-SameLevels bs as' a b va vb same oa ob p =
      let ga = apply_delta-get bs as' a va oa p in
      let gb = apply_delta-get bs as' b vb ob p in
      let e = same p in
      (
        ga.0 ∙ (ap (decided (last_at p bs)) e.0 ∙ sym gb.0),
        ga.1 ∙ (ap (decided (last_at p as')) e.1 ∙ sym gb.1),
      )

  read-Updated :
      (symbol id at : ℤ) (levels : OrderBookSideLevels) (have market : MarketBook)
      (markets' : Markets) (row : OrderbookMessageRow)
      → Agrees have market
      → Updated symbol id at levels market markets' row
      → (have' : MarketBook) × (read_row (some have) row ≡ ok have')
        × Keeps (some have') (lookup id markets')
  read-Updated symbol id at levels have market markets' row a u =
      let says =
        orderbook_row-Says symbol delta_type (some levels.begin_nonce) at levels u.time row
          u.is_time u.written in
      let mine = apply_delta-ok_iff levels.bids levels.asks have.book in
      let theirs = apply_delta-ok_iff levels.bids levels.asks market.book in
      let done = mine.1 (theirs.0 u.applied) in
      (
        record {
          nonce = levels.nonce;
          source_time = u.time;
          book = (apply_delta levels.bids levels.asks have.book).1;
        },
        read_row-delta have row symbol levels.begin_nonce u.time levels.nonce levels.bids
            levels.asks says (u.continues ∙ sym a.same_nonce) (rw a.same_time u.not_earlier) done,
        rw u.stored (record {
          same_nonce = refl;
          same_time = refl;
          valid_have = apply_delta-IsValid levels.bids levels.asks have.book a.valid_have;
          valid_market = apply_delta-IsValid levels.bids levels.asks market.book a.valid_market;
          same_levels =
              apply_delta-SameLevels levels.bids levels.asks have.book market.book a.valid_have
                a.valid_market a.same_levels done u.applied;
        }),
      )

  read-Subscribed :
      (symbol id at : ℤ) (levels : OrderBookSideLevels) (have : Option MarketBook)
      (markets' : Markets) (row : OrderbookMessageRow)
      → Subscribed symbol id at levels markets' row
      → (have' : MarketBook) × (read_row have row ≡ ok have')
        × Keeps (some have') (lookup id markets')
  read-Subscribed symbol id at levels have markets' row u =
      let says =
        orderbook_row-Says symbol snapshot_type none at levels u.time row u.is_time u.written in
      let v = from_snapshot-IsValid levels.bids levels.asks u.book u.built in
      let m : MarketBook = record { nonce = levels.nonce; source_time = u.time; book = u.book } in
      (
        m,
        read_row-snapshot have row symbol none u.time levels.nonce levels.bids levels.asks u.book
            says u.built,
        rw u.stored (record {
          same_nonce = refl;
          same_time = refl;
          valid_have = v;
          valid_market = v;
          same_levels = λ p. (refl, refl);
        }),
      )

  -- A reader that has the market's book, if there is one, accepts the row that an applied message
  -- writes, and then has the market's new book.
  pub apply_orderbook_message-read :
      (symbol market_id : ℤ) (message : OrderBookWsMessage) (markets markets' : Markets)
      (row : OrderbookMessageRow) (have : Option MarketBook)
      → apply_orderbook_message symbol market_id message markets ≡ (ok row, markets')
      → Keeps have (lookup market_id markets)
      → (have' : MarketBook) × (read_row have row ≡ ok have')
        × Keeps (some have') (lookup market_id markets')
  apply_orderbook_message-read symbol id (OrderBookWsMessage.subscribed ch at levels) markets
        markets' row have h k =
      read-Subscribed symbol id at levels have markets' row
        (subscribed_lem symbol id at ch levels markets markets' row h)
  apply_orderbook_message-read symbol id (OrderBookWsMessage.update ch at levels) markets markets'
        row none h k =
      let (market, found, u) = update_lem symbol id at ch levels markets markets' row h in
      absurd (rw (found, Keeps) at k)
  apply_orderbook_message-read symbol id (OrderBookWsMessage.update ch at levels) markets markets'
        row (some have) h k =
      let (market, found, u) = update_lem symbol id at ch levels markets markets' row h in
      read-Updated symbol id at levels have market markets' row (rw (found, Keeps) at k) u

  -- The row of an applied message carries the symbol that it was applied for.
  pub apply_orderbook_message-symbol :
      (symbol market_id : ℤ) (message : OrderBookWsMessage) (markets markets' : Markets)
      (row : OrderbookMessageRow)
      → apply_orderbook_message symbol market_id message markets ≡ (ok row, markets')
      → row.symbol ≡ symbol
  apply_orderbook_message-symbol symbol id (OrderBookWsMessage.subscribed ch at levels) markets
        markets' row h =
      let u = subscribed_lem symbol id at ch levels markets markets' row h in
      (orderbook_row-Says symbol snapshot_type none at levels u.time row u.is_time
        u.written).says_symbol
  apply_orderbook_message-symbol symbol id (OrderBookWsMessage.update ch at levels) markets markets'
        row h =
      let (market, found, u) = update_lem symbol id at ch levels markets markets' row h in
      (orderbook_row-Says symbol delta_type (some levels.begin_nonce) at levels u.time row u.is_time
        u.written).says_symbol

  -- Any reader accepts the row of the timer for a valid book, and then has that book.
  pub book_snapshot_row-read :
      (symbol : ℤ) (market : MarketBook) (row : OrderbookMessageRow) (have : Option MarketBook)
      → book_snapshot_row symbol market ≡ ok row
      → IsValid market.book
      → (have' : MarketBook) × (read_row have row ≡ ok have') × Agrees have' market
  book_snapshot_row-read symbol market row have h v =
      let says = book_snapshot_row-Says symbol market row h in
      let (book, built, valid, same) = from_snapshot-listing market.book v in
      (
        record { nonce = market.nonce; source_time = market.source_time; book = book },
        read_row-snapshot have row symbol none market.source_time market.nonce (bids market.book)
            (asks market.book) book says built,
        record {
          same_nonce = refl;
          same_time = refl;
          valid_have = valid;
          valid_market = v;
          same_levels = same;
        },
      )
