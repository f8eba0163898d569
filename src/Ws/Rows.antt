-- ===== src/Ws/Rows.antt =====
-- The rows that were handed to the writer, market by market, and a reader of all of them.
use lighter_timescaledb_inge.Base.{
  ◌≡◌, ◌≢◌, refl, Option, some, List, [], ◌∷◌, ◌++◌, Result, ok, and_then, arith, Result-cases, inl,
  inr, if◌then◌else◌,
}
use lighter_timescaledb_inge.Base.Int.{ℤ, ◌==ℤ◌, ==ℤ_iff}
use lighter_timescaledb_inge.External.{Decimals, Chrono, Serde, Floats}
use lighter_timescaledb_inge.Models.{TradeRow, OrderbookMessageRow}
use lighter_timescaledb_inge.Ws.{MarketBook}
use lighter_timescaledb_inge.Ws.Reader.{read_row}
use lighter_timescaledb_inge.Ws.ReaderStep.{Keeps}
use lighter_timescaledb_inge.Ws.Session.{WriteMsg, trade, orderbook}

module _ ⦃c : Chrono⦄ ⦃s : Serde⦄ ⦃f : Floats⦄ where
  -- The order-book rows of one symbol, in the order in which they were sent.
  unfoldable pub rows_of : ℤ → List WriteMsg → List OrderbookMessageRow
  rows_of symbol [] = []
  rows_of symbol (trade row ∷ msgs) = rows_of symbol msgs
  rows_of symbol (orderbook row ∷ msgs) =
      let rest = rows_of symbol msgs in if row.symbol ==ℤ symbol then row ∷ rest else rest

  pub rows_of-trade :
      (symbol : ℤ) (msgs : List WriteMsg) (row : TradeRow)
      → rows_of symbol (msgs ++ trade row ∷ []) ≡ rows_of symbol msgs
  unfolding rows_of
  rows_of-trade symbol [] row = refl
  rows_of-trade symbol (trade r ∷ msgs) row = rows_of-trade symbol msgs row
  rows_of-trade symbol (orderbook r ∷ msgs) row = ground (arith, rows_of-trade symbol msgs row)

  pub rows_of-other :
      (symbol : ℤ) (msgs : List WriteMsg) (row : OrderbookMessageRow)
      → row.symbol ≢ symbol
      → rows_of symbol (msgs ++ orderbook row ∷ []) ≡ rows_of symbol msgs
  unfolding rows_of
  rows_of-other symbol [] row h = ground (arith, ==ℤ_iff row.symbol symbol)
  rows_of-other symbol (trade r ∷ msgs) row h = rows_of-other symbol msgs row h
  rows_of-other symbol (orderbook r ∷ msgs) row h = ground (arith, rows_of-other symbol msgs row h)

  pub rows_of-same :
      (symbol : ℤ) (msgs : List WriteMsg) (row : OrderbookMessageRow)
      → row.symbol ≡ symbol
      → rows_of symbol (msgs ++ orderbook row ∷ []) ≡ rows_of symbol msgs ++ row ∷ []
  unfolding rows_of
  rows_of-same symbol [] row h = ground (arith, ==ℤ_iff row.symbol symbol)
  rows_of-same symbol (trade r ∷ msgs) row h = rows_of-same symbol msgs row h
  rows_of-same symbol (orderbook r ∷ msgs) row h = ground (arith, rows_of-same symbol msgs row h)

module _ ⦃d : Decimals⦄ ⦃c : Chrono⦄ ⦃s : Serde⦄ where
  -- A reader over all the rows of a symbol. It fails at the first row that it cannot accept.
  unfoldable pub read_rows :
      Option MarketBook → List OrderbookMessageRow → Result (Option MarketBook)
  read_rows have [] = ok have
  read_rows have (row ∷ rows) = and_then (read_row have row) λ have'. read_rows (some have') rows

  read_rows-append :
      (have have' : Option MarketBook) (have'' : MarketBook) (rows : List OrderbookMessageRow)
      (row : OrderbookMessageRow)
      → read_rows have rows ≡ ok have'
      → read_row have' row ≡ ok have''
      → read_rows have (rows ++ row ∷ []) ≡ ok (some have'')
  unfolding read_rows
  read_rows-append have have' have'' [] row h e = ground arith
  read_rows-append have have' have'' (r ∷ rows) row h e = elim (Result-cases (read_row have r)) [
    | inl (x, bad) ↦ ground arith
    | inr (m, good) ↦
        rw (good, read_rows) (read_rows-append (some m) have' have'' rows row (ground arith) e)
  ]

-- `initial` is what the reader has before the process starts.
module _ ⦃d : Decimals⦄ ⦃c : Chrono⦄ ⦃s : Serde⦄ ⦃f : Floats⦄ (initial : Option MarketBook) where
  -- A reader of the rows of the symbol, from the first one of the process, has accepted them all.
  abbrev pub Readable : List WriteMsg → ℤ → Type 0
  Readable sent symbol =
      (have : Option MarketBook) × (read_rows initial (rows_of symbol sent) ≡ ok have)

  -- It has, and if the market has a book then the reader has that book.
  abbrev pub Tracks : List WriteMsg → ℤ → Option MarketBook → Type 0
  Tracks sent symbol market =
      (have : Option MarketBook) × (read_rows initial (rows_of symbol sent) ≡ ok have)
      × Keeps have market

  pub Tracks-push :
      (sent : List WriteMsg) (symbol : ℤ) (old new : Option MarketBook) (row : OrderbookMessageRow)
      → row.symbol ≡ symbol
      → ((have : Option MarketBook)
          → Keeps have old
          → (have' : MarketBook) × (read_row have row ≡ ok have') × Keeps (some have') new)
      → Tracks sent symbol old
      → Tracks (sent ++ orderbook row ∷ []) symbol new
  Tracks-push sent symbol old new row same step (have, read, keeps) =
      let (have', e, keeps') = step have keeps in
      (
        some have',
        rw (rows_of-same symbol sent row same)
            (read_rows-append initial have have' (rows_of symbol sent) row read e),
        keeps',
      )
