-- ===== src/Process/Loop.antt =====
-- src/main.rs and src/ws.rs: the rounds of the connections, one by one, come to what the loop over whole
-- connections comes to.
use lighter_timescaledb_inge.Base.{
  ◌≡◌, refl, ap, ◌∙◌, subst, Bool, true, false, List, [], ◌∷◌, ◌++◌, append_assoc, Result, ok, err,
  Error, ◌>>◌, >>=-assoc, >>-ok, >>-pure, >>-ext,
}
use lighter_timescaledb_inge.Base.Int.{ℤ}
use lighter_timescaledb_inge.Base.IntMap.{IntMap}
use lighter_timescaledb_inge.External.{Decimals, Chrono, Serde, Floats}
use lighter_timescaledb_inge.Ws.Session.{
  Session, Event, subscribe_all, handle_event, run_events, run_ws_ingestion, connect,
  reconnect_loop,
}
use lighter_timescaledb_inge.Process.{is_ok}

module _ ⦃d : Decimals⦄ ⦃c : Chrono⦄ ⦃s : Serde⦄ ⦃f : Floats⦄ (market_ids : List ℤ)
    (cache : IntMap ℤ) where
  -- One more event.
  run_events-snoc :
      (events : List Event) (e : Event) (session : Session)
      → run_events market_ids cache (events ++ e ∷ []) session
        ≡ (run_events market_ids cache events >> handle_event market_ids cache e) session
  unfolding run_events
  run_events-snoc [] e session = >>-pure (handle_event market_ids cache e) session
  run_events-snoc (e' ∷ events) e session =
      let handle = handle_event market_ids cache in
      >>-ext (handle e') (run_events market_ids cache (events ++ e ∷ []))
        (run_events market_ids cache events >> handle e) session (run_events-snoc events e)
      ∙ >>=-assoc (handle e') (run_events market_ids cache events) (handle e) session

  run_ws_ingestion-snoc :
      (events : List Event) (e : Event) (session session' : Session)
      → run_ws_ingestion market_ids cache true events session ≡ (ok tt, session')
      → run_ws_ingestion market_ids cache true (events ++ e ∷ []) session
        ≡ handle_event market_ids cache e session'
  unfolding run_ws_ingestion
  run_ws_ingestion-snoc events e session session' h =
      let run = run_events market_ids cache in
      let handle = handle_event market_ids cache e in
      >>-ext (subscribe_all market_ids) (run (events ++ e ∷ [])) (run events >> handle)
        (connect session) (run_events-snoc events e)
      ∙ >>=-assoc (subscribe_all market_ids) (run events) handle (connect session)
      ∙ >>-ok (subscribe_all market_ids >> run events) handle (connect session) session' h

  -- After these connections the loop goes on from here.
  abbrev Gone : Session → Session → List (Bool × List Event) → Type 0
  Gone start before connections =
      (rest : List (Bool × List Event))
      → reconnect_loop market_ids cache (connections ++ rest) start
        ≡ reconnect_loop market_ids cache rest before

  -- The loop over the connections comes to this state: those in `connections` are gone, and if one is up
  -- then it has met `events`.
  pub record ByLoop (start session : Session) (up : Bool) : Type 0 where
    pub connections : List (Bool × List Event)
    pub events : List Event
    pub before : Session
    pub gone : Gone start before connections
    pub current :
        up ≡ true → run_ws_ingestion market_ids cache true events before ≡ (ok tt, session)
    pub none_up : up ≡ false → before ≡ session

  pub booted-ByLoop : (start : Session) → ByLoop start start false
  booted-ByLoop start = record {
    connections = [];
    events = [];
    before = start;
    gone = λ rest. refl;
    current = λ up. absurd (cc);
    none_up = λ _. refl;
  }

  -- A connection fails.
  fails-ByLoop :
      (start before session : Session) (connections : List (Bool × List Event)) (connected : Bool)
      (events : List Event) (x : Error)
      → Gone start before connections
      → run_ws_ingestion market_ids cache connected events before ≡ (err x, session)
      → ByLoop start session false
  unfolding reconnect_loop
  fails-ByLoop start before session connections connected events x gone h = record {
    connections = connections ++ (connected, events) ∷ [];
    events = [];
    before = session;
    gone = λ rest.
        ap (λ l. reconnect_loop market_ids cache l start)
          (append_assoc connections ((connected, events) ∷ []) rest)
        ∙ gone ((connected, events) ∷ rest)
        ∙ ap
            (λ (r : Result (Unit {0}) × Session). elim r.0 as (λ _. Session) [
              | ok _ ↦ r.1
              | err _ ↦ reconnect_loop market_ids cache rest r.1
            ])
            h;
    current = λ up. absurd (cc);
    none_up = λ _. refl;
  }

  -- A connection that is up after it has met `events`, or has failed.
  round-ByLoop :
      (start before : Session) (connections : List (Bool × List Event)) (events : List Event)
      (r : Result (Unit {0}) × Session)
      → Gone start before connections
      → run_ws_ingestion market_ids cache true events before ≡ r
      → ByLoop start r.1 (is_ok r.0)
  round-ByLoop start before connections events (ok _, session) gone h = record {
    connections = connections;
    events = events;
    before = before;
    gone = gone;
    current = λ _. h;
    none_up = λ down. absurd (cc);
  }
  round-ByLoop start before connections events (err x, session) gone h =
      fails-ByLoop start before session connections true events x gone h

  -- What the loop comes to.
  pub ByLoop-loop :
      (start session : Session) (up : Bool)
      → ByLoop start session up
      → (connections : List (Bool × List Event)) × (reconnect_loop market_ids cache connections
            start
          ≡ session)
  unfolding reconnect_loop
  ByLoop-loop start session true by = (
    by.connections ++ (true, by.events) ∷ [],
    by.gone ((true, by.events) ∷ [])
        ∙ ap
            (λ (r : Result (Unit {0}) × Session). elim r.0 as (λ _. Session) [
              | ok _ ↦ r.1
              | err _ ↦ reconnect_loop market_ids cache [] r.1
            ])
            (by.current refl),
  )
  ByLoop-loop start session false by = (by.connections ++ [], by.gone [] ∙ by.none_up refl)

  pub connection-ByLoop :
      (start session : Session) (connected : Bool)
      → ByLoop start session false
      → (let r = run_ws_ingestion market_ids cache connected [] session in
          ByLoop start r.1 (is_ok r.0))
  unfolding run_ws_ingestion
  connection-ByLoop start session true by =
      round-ByLoop start session by.connections [] _
        (subst (λ now. Gone start now by.connections) (by.none_up refl) by.gone) refl
  connection-ByLoop start session false by =
      fails-ByLoop start session session by.connections false [] _
        (subst (λ now. Gone start now by.connections) (by.none_up refl) by.gone) refl

  pub event-ByLoop :
      (start session : Session) (e : Event)
      → ByLoop start session true
      → (let r = handle_event market_ids cache e session in ByLoop start r.1 (is_ok r.0))
  event-ByLoop start session e by =
      round-ByLoop start by.before by.connections (by.events ++ e ∷ []) _ by.gone
        (run_ws_ingestion-snoc by.events e by.before session (by.current refl))
