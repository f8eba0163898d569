-- ===== src/Process/Safety.antt =====
-- src/main.rs and src/ws.rs: at any moment of a process, a reader accepts all rows that were sent, and so
-- all that are stored.
use lighter_timescaledb_inge.Base.{
  ◌≡◌, refl, sym, subst, true, Option, some, List, [], Result, ok, err,
}
use lighter_timescaledb_inge.Base.Int.{ℤ}
use lighter_timescaledb_inge.Base.IntMap.{IntMap}
use lighter_timescaledb_inge.External.{Decimals, Chrono, Serde, Floats}
use lighter_timescaledb_inge.Ws.{MarketBook}
use lighter_timescaledb_inge.Ws.Session.{Session, handle_event, run_ws_ingestion}
use lighter_timescaledb_inge.Ws.Stream.{nothing_sent, IsInjective, AllReadable, IsSound, Leaves}
use lighter_timescaledb_inge.Ws.Connections.{handle_event-Leaves, run_ws_ingestion-Leaves}
use lighter_timescaledb_inge.Database.{Database}
use lighter_timescaledb_inge.Process.{
  Process, booted, served, Step, connection, event, receive, tick, Reach, boot, later,
}
use lighter_timescaledb_inge.Base.IntMap.{lookup}
use lighter_timescaledb_inge.Ws.Rows.{Readable, rows_of, read_rows}
use lighter_timescaledb_inge.Ws.Reader.{Agrees}
use lighter_timescaledb_inge.Ws.Replay.{IsSound-book}
use lighter_timescaledb_inge.Writer.Replay.{IsReadable, Part-IsReadable}
use lighter_timescaledb_inge.Process.Delivery.{Reach-Delivers}

module _ ⦃d : Decimals⦄ ⦃c : Chrono⦄ ⦃s : Serde⦄ ⦃f : Floats⦄ ⦃b : Database⦄ (cache : IntMap ℤ)
    (initial : Option MarketBook) where
  -- The readers follow what was sent; while a connection runs, up to its books.
  pub record Reads (p : Process) : Type 0 where
    pub sound : p.up ≡ true → IsSound cache initial p.session
    pub readable : AllReadable initial p.session.sent

  served-Reads :
      (p : Process) (r : Result (Unit {0}) × Session) → Leaves cache initial r → Reads (served p r)
  served-Reads p (ok _, session) sound = record { sound = λ _. sound; readable = sound.readable }
  served-Reads p (err e, session) readable = record {
    sound = λ down. absurd (cc);
    readable = readable;
  }

module _ ⦃d : Decimals⦄ ⦃c : Chrono⦄ ⦃s : Serde⦄ ⦃f : Floats⦄ ⦃b : Database⦄ (cache : IntMap ℤ)
    (initial : Option MarketBook) (injective : IsInjective cache) (market_ids : List ℤ)
    (start : b.Db) where
  Step-Reads :
      (p q : Process) → Step market_ids cache p q → Reads cache initial p → Reads cache initial q
  Step-Reads p q (connection connected live down) h =
      served-Reads cache initial p (run_ws_ingestion market_ids cache connected [] p.session) (
        run_ws_ingestion-Leaves cache initial injective market_ids connected [] p.session
          h.readable)
  Step-Reads p q (event e live up) h =
      served-Reads cache initial p (handle_event market_ids cache e p.session)
        (handle_event-Leaves cache initial injective market_ids e p.session (h.sound up))
  Step-Reads p q (receive msg rest live queued) h = record {
    sound = h.sound;
    readable = h.readable;
  }
  Step-Reads p q (tick live) h = record { sound = h.sound; readable = h.readable }

  Reach-Reads : (p : Process) → Reach market_ids cache start p → Reads cache initial p
  Reach-Reads p boot = record {
    sound = λ down. absurd (cc);
    readable = nothing_sent initial (booted start).session refl;
  }
  Reach-Reads p (later {p = p'} reach step) = Step-Reads p' p step (Reach-Reads p' reach)

  -- If no two markets have one symbol, then at any moment of a process at which a connection runs, a
  -- reader of all order-book rows that the process has sent for a market that has a book has the nonce
  -- and the time of that book and the same level at every price, and both books are valid, whatever the
  -- reader had before.
  pub Reach-book :
      (p : Process) (market_id symbol : ℤ) (market : MarketBook)
      → Reach market_ids cache start p
      → p.up ≡ true
      → lookup market_id cache ≡ some symbol
      → lookup market_id p.session.markets ≡ some market
      → (have : MarketBook) × (read_rows initial (rows_of symbol p.session.sent) ≡ ok (some have))
        × Agrees have market
  Reach-book p id symbol market reach up here found =
      IsSound-book cache initial injective p.session id symbol market
        ((Reach-Reads p reach).sound up) here found

module _ ⦃d : Decimals⦄ ⦃c : Chrono⦄ ⦃s : Serde⦄ ⦃f : Floats⦄ ⦃b : Database⦄ (cache : IntMap ℤ)
    (injective : IsInjective cache) (market_ids : List ℤ) (start : b.Db) where
  -- If no two markets have one symbol and a reader accepts every row of a symbol that the table of
  -- order-book messages holds when the process starts, then at any moment of the process, whatever its
  -- connections and its flushes meet and in whatever order, a reader of the stored rows of the symbol
  -- accepts every one of them. So it does after a crash.
  pub Reach-IsReadable :
      (p : Process) (symbol : ℤ)
      → Reach market_ids cache start p
      → IsReadable (b.orderbook_messages start) symbol
      → IsReadable (b.orderbook_messages p.writer.db) symbol
  Reach-IsReadable p symbol reach (initial, before) =
      let h = Reach-Delivers cache market_ids start p reach in
      let readable =
        (Reach-Reads cache initial injective market_ids start p reach).readable symbol in
      Part-IsReadable symbol p.taken h.queue (b.orderbook_messages start)
        (b.orderbook_messages p.writer.db) h.stored.messages_left initial before
        (subst (λ sent. Readable initial sent symbol) (sym h.queued) readable) h.stored.messages
