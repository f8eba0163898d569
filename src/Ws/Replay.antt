-- ===== src/Ws/Replay.antt =====
-- What a reader of the stored rows may rely on, over a connection and over all of them.
use lighter_timescaledb_inge.Base.{
  ◌≡◌, refl, Bool, true, Option, none, some, List, [], ok, ap, subst,
}
use lighter_timescaledb_inge.Base.Int.{ℤ}
use lighter_timescaledb_inge.Base.IntMap.{IntMap, lookup}
use lighter_timescaledb_inge.External.{Decimals, Chrono, Serde, Floats}
use lighter_timescaledb_inge.Ws.{MarketBook}
use lighter_timescaledb_inge.Ws.Reader.{Agrees}
use lighter_timescaledb_inge.Ws.ReaderStep.{Keeps}
use lighter_timescaledb_inge.Ws.Session.{Session, Event, run_ws_ingestion, reconnect_loop}
use lighter_timescaledb_inge.Ws.Rows.{rows_of, read_rows}
use lighter_timescaledb_inge.Ws.Stream.{nothing_sent, IsInjective, IsSound, Leaves}
use lighter_timescaledb_inge.Ws.Connections.{run_ws_ingestion-Leaves, reconnect_loop-readable}

module _ ⦃d : Decimals⦄ ⦃c : Chrono⦄ ⦃s : Serde⦄ ⦃f : Floats⦄ (cache : IntMap ℤ)
    (initial : Option MarketBook) (injective : IsInjective cache) where
  -- If no two markets have one symbol, then over any number of connections from the start of the
  -- process, whatever each of them meets and wherever it fails, a reader of the order-book rows that
  -- were sent for a symbol, in the order of sending, accepts every one of them, whatever the reader had
  -- before: the first is a snapshot, and each delta continues the nonce of the row before it at no
  -- earlier time.
  pub rows_readable :
      (market_ids : List ℤ) (connections : List (Bool × List Event)) (session : Session)
      (symbol : ℤ)
      → session.sent ≡ []
      → (have : Option MarketBook) × (read_rows initial
            (rows_of symbol (reconnect_loop market_ids cache connections session).sent)
          ≡ ok have)
  rows_readable ids connections session symbol fresh =
      reconnect_loop-readable cache initial injective ids connections session
        (nothing_sent initial session fresh) symbol

  kept :
      (have : Option MarketBook) (market : MarketBook)
      → Keeps have (some market)
      → (m : MarketBook) × (have ≡ some m) × Agrees m market
  kept none market k = absurd k
  kept (some m) market k = (m, refl, k)

  -- A reader of all rows of a market that has a book has that book.
  pub IsSound-book :
      (session : Session) (market_id symbol : ℤ) (market : MarketBook)
      → IsSound cache initial session
      → lookup market_id cache ≡ some symbol
      → lookup market_id session.markets ≡ some market
      → (have : MarketBook) × (read_rows initial (rows_of symbol session.sent) ≡ ok (some have))
        × Agrees have market
  IsSound-book session id symbol market sound here found =
      let (have, read, keeps) = sound.tracked id symbol here in
      let (m, e, agrees) = kept have market (subst (Keeps have) found keeps) in
      (m, rw read (ap ok e), agrees)

  -- If no two markets have one symbol, then while a connection runs, whatever it has met so far and
  -- whatever the connections of the process before it met, a reader of all order-book rows that the
  -- process sent for a market that has a book has the nonce and the time of that book and the same
  -- level at every price, and both books are valid, whatever the reader had before. So the rows rebuild
  -- the book.
  pub rows_rebuild_book :
      (market_ids : List ℤ) (connections : List (Bool × List Event)) (events : List Event)
      (session session' : Session) (market_id symbol : ℤ) (market : MarketBook)
      → session.sent ≡ []
      → run_ws_ingestion market_ids cache true events
          (reconnect_loop market_ids cache connections session)
        ≡ (ok tt, session')
      → lookup market_id cache ≡ some symbol
      → lookup market_id session'.markets ≡ some market
      → (have : MarketBook) × (read_rows initial (rows_of symbol session'.sent) ≡ ok (some have))
        × Agrees have market
  rows_rebuild_book ids connections events session session' id symbol market fresh up here found =
      let before = reconnect_loop ids cache connections session in
      let readable =
        reconnect_loop-readable cache initial injective ids connections session
          (nothing_sent initial session fresh) in
      let left = run_ws_ingestion-Leaves cache initial injective ids true events before readable in
      IsSound-book session' id symbol market (subst (Leaves cache initial) up left) here found
