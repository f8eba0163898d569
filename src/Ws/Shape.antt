-- ===== src/Ws/Shape.antt =====
-- src/ws.rs: what a connection sends to the writer. It only ever adds rows behind those that were
-- sent, and each of them has the shape that the tables and their readers ask for.
use lighter_timescaledb_inge.Base.{
  ◌≡◌, refl, sym, ap, ◌∙◌, none, some, List, [], ◌∷◌, ◌++◌, append-nil, append_assoc, All,
  All-append, Result, ok, err, Action, ◌>>=◌, lift, Bool-cases, ◌⊎◌, inl, inr,
}
use lighter_timescaledb_inge.Base.Int.{ℤ}
use lighter_timescaledb_inge.Base.IntMap.{IntMap, lookup}
use lighter_timescaledb_inge.External.{Decimals, Chrono, Serde, Floats}
use lighter_timescaledb_inge.Models.{OrderbookMessageRow}
use lighter_timescaledb_inge.Ws.{snapshot_type, delta_type}
use lighter_timescaledb_inge.Ws.Session.{
  WriteMsg, orderbook, Session, SocketMsg, send_row, send_socket,
}

module _ ⦃c : Chrono⦄ ⦃s : Serde⦄ where
  -- `snapshot` without a `begin_nonce`, or `delta` with one.
  abbrev pub IsTyped : OrderbookMessageRow → Type 0
  IsTyped row =
      ((row.message_type ≡ snapshot_type) × (row.begin_nonce ≡ none))
      ⊎ ((row.message_type ≡ delta_type) × ((n : ℤ) × (row.begin_nonce ≡ some n)))

module _ ⦃c : Chrono⦄ ⦃s : Serde⦄ ⦃f : Floats⦄ (cache : IntMap ℤ) where
  -- The symbol of some market.
  abbrev pub IsKnown : ℤ → Type 0
  IsKnown symbol = (market : ℤ) × (lookup market cache ≡ some symbol)

  -- A row is of a known symbol; one of an order book has a sequence, and a `begin_nonce` exactly if it
  -- is a delta.
  abbrev pub IsShaped : WriteMsg → Type 0
  IsShaped (WriteMsg.trade row) = IsKnown row.symbol
  IsShaped (orderbook row) = IsKnown row.symbol × ((n : ℤ) × (row.sequence ≡ some n)) × IsTyped row

module _ ⦃d : Decimals⦄ ⦃c : Chrono⦄ ⦃s : Serde⦄ ⦃f : Floats⦄ (cache : IntMap ℤ) where
  -- From a session with `sent`, an action has added rows of this shape.
  abbrev pub Sends : {A : Type 0} → List WriteMsg → Result A × Session → Type 0
  Sends sent (_, session) =
      (more : List WriteMsg) × (session.sent ≡ sent ++ more) × All (IsShaped cache) more

  pub Sends-none :
      {A : Type 0} (sent : List WriteMsg) (r : Result A × Session) → r.1.sent ≡ sent → Sends sent r
  Sends-none sent r e = ([], e ∙ sym (append-nil sent), tt)

  pub Sends-bind :
      {A B : Type 0} (m : Action Session A) (k : A → Action Session B) (session : Session)
      → Sends session.sent (m session)
      → ((a : A) (session' : Session)
          → m session ≡ (ok a, session')
          → Sends session'.sent (k a session'))
      → Sends session.sent ((m >>= k) session)
  Sends-bind {A} {B} m k session first rest = by_result (m session) refl first
    where
      by_result :
          (r : Result A × Session)
          → m session ≡ r
          → Sends session.sent r
          → Sends session.sent (((λ (x : Session). r) >>= k) session)
      by_result (ok a, middle) e (more, grown, shaped) =
          let (more', grown', shaped') = rest a middle e in
          (
            more ++ more',
            grown' ∙ ap (λ l. l ++ more') grown ∙ append_assoc session.sent more more',
            All-append (IsShaped cache) more more' shaped shaped',
          )
      by_result (err x, middle) e sends = sends

  pub send_row-Sends :
      (msg : WriteMsg) (session : Session)
      → IsShaped cache msg
      → Sends session.sent (send_row msg session)
  unfolding send_row
  send_row-Sends msg session shaped = elim (Bool-cases session.receiver_open) [
    | inl up ↦ rw up (msg ∷ [], refl, (shaped, tt))
    | inr shut ↦ rw shut ([], sym (append-nil session.sent), tt)
  ]

  pub send_socket-Sends :
      (msg : SocketMsg) (session : Session) → Sends session.sent (send_socket msg session)
  unfolding send_socket
  send_socket-Sends msg session = elim (Bool-cases session.socket_open) [
    | inl up ↦ rw up ([], sym (append-nil session.sent), tt)
    | inr down ↦ rw down ([], sym (append-nil session.sent), tt)
  ]

  -- An action that fails without what it needs.
  pub needed_Sends :
      {A B : Type 0} (r : Result A) (k : A → Action Session B) (session : Session)
      → ((a : A) → r ≡ ok a → Sends session.sent (k a session))
      → Sends session.sent ((lift r >>= k) session)
  needed_Sends (ok a) k session h = h a refl
  needed_Sends (err x) k session h = ([], sym (append-nil session.sent), tt)
