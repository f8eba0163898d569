-- ===== src/Process.antt =====
-- src/main.rs and src/ws.rs: the process behind its start. Two tasks run side by side: the loop that
-- reconnects, and the writer, which receives what the first one sends through a channel, in order. A
-- step is one round of either task; a task that waits makes none. What is in the channel is what has
-- been sent behind `taken`. A handler is one step also where it waits for room in the channel: what
-- the writer receives meanwhile it may as well receive afterwards. `main` keeps a sender, so the channel
-- does not close.
pub mod Safety
pub mod Delivery
pub mod Restart
pub mod Loop
pub mod Refines
pub mod Drain
mod Examples
use lighter_timescaledb_inge.Base.{
  ◌≡◌, Bool, true, false, not, List, [], ◌∷◌, ◌++◌, Result, ok, err,
}
use lighter_timescaledb_inge.Base.Int.{ℤ}
use lighter_timescaledb_inge.Base.IntMap.{IntMap}
use lighter_timescaledb_inge.External.{Decimals, Chrono, Serde, Floats}
use lighter_timescaledb_inge.Ws.Session.{WriteMsg, Session, Event, handle_event, run_ws_ingestion}
use lighter_timescaledb_inge.Database.{Database}
use lighter_timescaledb_inge.Writer.{Writer, push, flush}

abbrev pub is_ok : Result (Unit {0}) → Bool
is_ok (ok _) = true
is_ok (err _) = false

module _ ⦃d : Decimals⦄ ⦃c : Chrono⦄ ⦃s : Serde⦄ ⦃f : Floats⦄ ⦃b : Database⦄ where
  -- `up` is whether the loop of a connection runs, `taken` what the writer has received, and `exited`
  -- whether the writer has ended the process.
  pub record Process : Type 0 where
    pub session : Session
    pub up : Bool
    pub taken : List WriteMsg
    pub writer : Writer
    pub exited : Bool

  -- Before the first connection, on a new channel.
  abbrev pub booted : b.Db → Process
  booted db = record {
    session = record {
      markets = [];
      sent = [];
      receiver_open = true;
      outbox = [];
      socket_open = true;
    };
    up = false;
    taken = [];
    writer = record { batch = []; db = db };
    exited = false;
  }

  -- After a round of the connection: an error takes it down.
  abbrev pub served : Process → Result (Unit {0}) × Session → Process
  served p (result, session) = record p { session = session; up = is_ok result }

  -- After a round of the writer: an error ends the process.
  abbrev pub wrote : Process → Result (Unit {0}) × Writer → Process
  wrote p (result, writer) = record p { writer = writer; exited = not (is_ok result) }

  pub data Step (market_ids : List ℤ) (cache : IntMap ℤ) (p : Process) : Process → Type 0 where
    -- The loop of `main` comes round; `connected` is whether `connect_async` succeeds.
    connection :
        (connected : Bool)
        → p.exited ≡ false
        → p.up ≡ false
        → Step market_ids cache p
            (served p (run_ws_ingestion market_ids cache connected [] p.session))
    -- A round of the `select!` of the connection.
    event :
        (e : Event)
        → p.exited ≡ false
        → p.up ≡ true
        → Step market_ids cache p (served p (handle_event market_ids cache e p.session))
    -- `rx.recv()` gives the first message that the writer has not received.
    receive :
        (msg : WriteMsg) (rest : List WriteMsg)
        → p.exited ≡ false
        → p.taken ++ msg ∷ rest ≡ p.session.sent
        → Step market_ids cache p
            (wrote (record p { taken = p.taken ++ msg ∷ [] }) (push msg p.writer))
    -- The timer of the writer.
    tick : p.exited ≡ false → Step market_ids cache p (wrote p (flush p.writer))

  -- What a process may have come to, from the database that it found.
  pub data Reach (market_ids : List ℤ) (cache : IntMap ℤ) (db : b.Db) : Process → Type 0 where
    boot : Reach market_ids cache db (booted db)
    later :
        {p q : Process}
        → Reach market_ids cache db p
        → Step market_ids cache p q
        → Reach market_ids cache db q
