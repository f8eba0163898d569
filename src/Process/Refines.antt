-- ===== src/Process/Refines.antt =====
-- src/main.rs and src/ws.rs: the steps of a process, in whatever order, come to what the two loops come
-- to, each run by itself.
use lighter_timescaledb_inge.Base.{
  >>-ok, >>-pure, ◌≡◌, refl, sym, ap, ◌∙◌, subst, Bool, false, not, List, [], ◌∷◌, ◌++◌,
  append_assoc, append-nil, Result, ok, err, Action, ◌>>◌,
}
use lighter_timescaledb_inge.Base.Int.{ℤ}
use lighter_timescaledb_inge.Base.IntMap.{IntMap}
use lighter_timescaledb_inge.External.{Decimals, Chrono, Serde, Floats}
use lighter_timescaledb_inge.Ws.Session.{WriteMsg, Event, reconnect_loop}
use lighter_timescaledb_inge.Database.{Database}
use lighter_timescaledb_inge.Writer.{
  WriterEvent, received, flush_tick, Writer, push, flush, writer_task,
}
use lighter_timescaledb_inge.Writer.Inserts.{messages_of}
use lighter_timescaledb_inge.Process.{
  Process, is_ok, booted, Step, connection, event, receive, tick, Reach, boot, later,
}
use lighter_timescaledb_inge.Process.Delivery.{Reach-Delivers}
use lighter_timescaledb_inge.Process.Loop.{
  booted-ByLoop, ByLoop, ByLoop-loop, connection-ByLoop, event-ByLoop,
}

module _ ⦃c : Chrono⦄ ⦃s : Serde⦄ ⦃f : Floats⦄ ⦃b : Database⦄ (start : Writer) where
  -- The loop of the writer comes to this state over `events`, which have the messages `taken`.
  record ByTask (writer : Writer) (taken : List WriteMsg) (exited : Bool) : Type 0 where
    events : List WriterEvent
    messages : (more : List WriterEvent) → messages_of (events ++ more) ≡ taken ++ messages_of more
    running :
        exited ≡ false
        → (more : List WriterEvent) → writer_task (events ++ more) start ≡ writer_task more writer
    ended : (writer_task events start).1 ≡ writer

  start-ByTask : ByTask start [] false
  unfolding writer_task
  start-ByTask = record {
    events = [];
    messages = λ more. refl;
    running = λ _ more. refl;
    ended = refl;
  }

  -- One more event, which is handled by `round` and has the messages `msgs`.
  round-ByTask :
      (writer : Writer) (taken msgs : List WriteMsg) (ev : WriterEvent)
      (round : Action Writer (Unit {0})) (r : Result (Unit {0}) × Writer)
      → ((more : List WriterEvent)
          → writer_task (ev ∷ more) writer ≡ (round >> writer_task more) writer)
      → ((more : List WriterEvent) → messages_of (ev ∷ more) ≡ msgs ++ messages_of more)
      → round writer ≡ r
      → ByTask writer taken false
      → ByTask r.1 (taken ++ msgs) (not (is_ok r.0))
  unfolding writer_task
  round-ByTask writer taken msgs ev round r steps has h by = record {
    events = by.events ++ ev ∷ [];
    messages = λ more.
        ap messages_of (append_assoc by.events (ev ∷ []) more)
        ∙ by.messages (ev ∷ more)
        ∙ ap (λ l. taken ++ l) (has more)
        ∙ sym (append_assoc taken msgs (messages_of more));
    running = goes_on r h;
    ended =
        ap (λ (x : Result (Unit {0}) × Writer). x.1) (by.running refl (ev ∷ []) ∙ steps [])
        ∙ ap (λ (x : Result (Unit {0}) × Writer). x.1) (>>-pure round writer ∙ h);
  }
    where
      goes_on :
          (r : Result (Unit {0}) × Writer)
          → round writer ≡ r
          → not (is_ok r.0) ≡ false
          → (more : List WriterEvent)
          → writer_task ((by.events ++ ev ∷ []) ++ more) start ≡ writer_task more r.1
      goes_on (ok _, writer') h live more =
          ap (λ l. writer_task l start) (append_assoc by.events (ev ∷ []) more)
          ∙ by.running refl (ev ∷ more)
          ∙ steps more
          ∙ >>-ok round (writer_task more) writer writer' h
      goes_on (err x, writer') h live more = absurd (cc)

module _ ⦃d : Decimals⦄ ⦃c : Chrono⦄ ⦃s : Serde⦄ ⦃f : Floats⦄ ⦃b : Database⦄ (cache : IntMap ℤ)
    (market_ids : List ℤ) (start : b.Db) where
  -- Both halves of a process.
  record Refines (p : Process) : Type 0 where
    loop : ByLoop market_ids cache (booted start).session p.session p.up
    task : ByTask (booted start).writer p.writer p.taken p.exited

  Step-Refines : (p q : Process) → Step market_ids cache p q → Refines p → Refines q
  unfolding writer_task
  Step-Refines p q (connection connected live down) h = record {
    loop =
        connection-ByLoop market_ids cache (booted start).session p.session connected
          (subst (ByLoop market_ids cache (booted start).session p.session) down h.loop);
    task = h.task;
  }
  Step-Refines p q (event e live up) h = record {
    loop =
        event-ByLoop market_ids cache (booted start).session p.session e
          (subst (ByLoop market_ids cache (booted start).session p.session) up h.loop);
    task = h.task;
  }
  Step-Refines p q (receive msg rest live queued) h = record {
    loop = h.loop;
    task =
        round-ByTask (booted start).writer p.writer p.taken (msg ∷ []) (received msg) (push msg)
          (push msg p.writer) (λ more. refl) (λ more. refl) refl
          (subst (ByTask (booted start).writer p.writer p.taken) live h.task);
  }
  Step-Refines p q (tick live) h = record {
    loop = h.loop;
    task =
        subst
          (λ l. ByTask (booted start).writer (flush p.writer).1 l (not (is_ok (flush p.writer).0)))
          (append-nil p.taken)
          (round-ByTask (booted start).writer p.writer p.taken [] flush_tick flush (flush p.writer)
            (λ more. refl) (λ more. refl) refl
            (subst (ByTask (booted start).writer p.writer p.taken) live h.task));
  }

  Reach-Refines : (p : Process) → Reach market_ids cache start p → Refines p
  Reach-Refines p boot = record {
    loop = booted-ByLoop market_ids cache (booted start).session;
    task = start-ByTask (booted start).writer;
  }
  Reach-Refines p (later {p = p'} reach step) = Step-Refines p' p step (Reach-Refines p' reach)

  -- Whatever a process comes to, in whatever order its tasks make their steps, its session is what the
  -- loop of `main` makes of some connections, its writer what the loop of the writer makes of some events,
  -- and the messages of these events, in order, are the first part of what the session has sent.
  pub Reach-loops :
      (p : Process)
      → Reach market_ids cache start p
      → (connections : List (Bool × List Event)) × (events : List WriterEvent) × (queue : List
          WriteMsg)
        × (reconnect_loop market_ids cache connections (booted start).session ≡ p.session)
        × ((writer_task events (booted start).writer).1 ≡ p.writer)
        × (messages_of events ++ queue ≡ p.session.sent)
  Reach-loops p reach =
      let h = Reach-Refines p reach in
      let (connections, loop_eq) =
        ByLoop-loop market_ids cache (booted start).session p.session p.up h.loop in
      let delivers = Reach-Delivers cache market_ids start p reach in
      let all : messages_of h.task.events ≡ p.taken =
        ap messages_of (sym (append-nil h.task.events)) ∙ h.task.messages [] ∙ append-nil p.taken in
      (
        connections,
        h.task.events,
        delivers.queue,
        loop_eq,
        h.task.ended,
        ap (λ l. l ++ delivers.queue) all ∙ delivers.queued,
      )
