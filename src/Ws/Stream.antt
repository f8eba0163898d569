-- ===== src/Ws/Stream.antt =====
-- Over all connections, a reader of a market's rows accepts every row, and within a connection it
-- has the market's book.
use lighter_timescaledb_inge.Base.{
  ◌≡◌, ◌≢◌, refl, sym, ap, ◌∙◌, Option, none, some, List, [], ◌∷◌, ◌++◌, All, Result, ok, err,
  Action, ◌>>◌, arith, channel_closed, unknown_market, subst, Outcome-cases, ◌⊎◌, Bool-cases,
  Option-cases, Result-cases, inl, inr,
}
use lighter_timescaledb_inge.Base.Int.{ℤ, ◌==ℤ◌, ==ℤ_iff}
use lighter_timescaledb_inge.Base.IntMap.{IntMap, lookup, IsDistinct, insert-IsDistinct}
use lighter_timescaledb_inge.Wire.{OrderBookWsMessage, OrderBookSideLevels}
use lighter_timescaledb_inge.External.{Decimals, Chrono, Serde, Floats}
use lighter_timescaledb_inge.Models.{TradeRow, OrderbookMessageRow}
use lighter_timescaledb_inge.Ws.{
  MarketBook, Markets, book_snapshot_row, update_market, update_found, apply_orderbook_message,
}
use lighter_timescaledb_inge.Ws.Apply.{
  AllValid, apply_orderbook_message-AllValid, apply_orderbook_message-others,
}
use lighter_timescaledb_inge.Ws.Reader.{read_row, book_snapshot_row-Says}
use lighter_timescaledb_inge.Ws.ReaderStep.{
  Keeps, apply_orderbook_message-symbol, apply_orderbook_message-read, book_snapshot_row-read,
}
use lighter_timescaledb_inge.Ws.Session.{
  WriteMsg, orderbook, trade, Session, send_row, write_snapshots, handle_order_book,
}
use lighter_timescaledb_inge.Ws.Rows.{
  rows_of, read_rows, rows_of-trade, rows_of-other, Readable, Tracks, Tracks-push,
}

-- No two markets have one symbol: `symbols.id` is the primary key of the table that the cache is
-- loaded from.
abbrev pub IsInjective : IntMap ℤ → Type 0
IsInjective cache =
    (i j symbol : ℤ) → lookup i cache ≡ some symbol → lookup j cache ≡ some symbol → i ≡ j

module _ ⦃d : Decimals⦄ ⦃c : Chrono⦄ ⦃s : Serde⦄ where
  update_found-IsDistinct :
      (symbol id at : ℤ) (levels : OrderBookSideLevels) (found : Option MarketBook)
      (markets : Markets)
      → IsDistinct markets
      → IsDistinct (update_found symbol id at levels found markets).1
  unfolding update_found update_market
  update_found-IsDistinct symbol id at levels none markets h = h
  update_found-IsDistinct symbol id at levels (some market) markets h =
      grind (arith, insert-IsDistinct)

  apply_orderbook_message-IsDistinct :
      (symbol id : ℤ) (message : OrderBookWsMessage) (markets : Markets)
      → IsDistinct markets
      → IsDistinct (apply_orderbook_message symbol id message markets).1
  unfolding apply_orderbook_message
  apply_orderbook_message-IsDistinct symbol id (OrderBookWsMessage.subscribed _ at levels) markets
        h =
      grind (arith, insert-IsDistinct)
  apply_orderbook_message-IsDistinct symbol id (OrderBookWsMessage.update _ at levels) markets h =
      update_found-IsDistinct symbol id at levels (lookup id markets) markets h

module _ ⦃d : Decimals⦄ ⦃c : Chrono⦄ ⦃s : Serde⦄ ⦃f : Floats⦄ where
  pub send_row-cases :
      (msg : WriteMsg) (session : Session)
      → (send_row msg session ≡ (err channel_closed, session))
        ⊎ (send_row msg session ≡ (ok tt, record session { sent = session.sent ++ msg ∷ [] }))
  unfolding send_row
  send_row-cases msg session = elim (Bool-cases session.receiver_open) [
    | inl up ↦ inr (ground arith)
    | inr shut ↦ inl (ground arith)
  ]

module _ ⦃d : Decimals⦄ ⦃c : Chrono⦄ ⦃s : Serde⦄ ⦃f : Floats⦄ (initial : Option MarketBook) where
  abbrev pub AllReadable : List WriteMsg → Type 0
  AllReadable sent = (symbol : ℤ) → Readable initial sent symbol

  -- Messages to the writer that are trades are no rows of any market.
  pub trade_AllReadable :
      (sent : List WriteMsg) (row : TradeRow)
      → AllReadable sent
      → AllReadable (sent ++ trade row ∷ [])
  trade_AllReadable sent row r symbol = rw (rows_of-trade symbol sent row) (r symbol)

  pub nothing_sent : (session : Session) → session.sent ≡ [] → AllReadable session.sent
  unfolding rows_of read_rows
  nothing_sent session e symbol = rw e (initial, refl)

module _ ⦃d : Decimals⦄ ⦃c : Chrono⦄ ⦃s : Serde⦄ ⦃f : Floats⦄ (cache : IntMap ℤ)
    (initial : Option MarketBook) where
  abbrev pub AllTracked : List WriteMsg → Markets → Type 0
  AllTracked sent markets =
      (id symbol : ℤ)
      → lookup id cache ≡ some symbol
      → Tracks initial sent symbol (lookup id markets)

  pub record IsSound (session : Session) : Type 0 where
    pub tracked : AllTracked session.sent session.markets
    pub readable : AllReadable initial session.sent
    pub valid : AllValid session.markets
    pub distinct : IsDistinct session.markets

  -- What an action leaves: while the connection runs the readers have the books, and after an
  -- error they have still accepted every row.
  abbrev pub Leaves : Result (Unit {0}) × Session → Type 0
  Leaves (ok _, session) = IsSound session
  Leaves (err _, session) = AllReadable initial session.sent

  pub then_Leaves :
      (m k : Action Session (Unit {0})) (session : Session)
      → Leaves (m session)
      → ((session' : Session) → IsSound session' → Leaves (k session'))
      → Leaves ((m >> k) session)
  then_Leaves m k session h g = go (m session) h
    where
      go :
          (r : Result (Unit {0}) × Session)
          → Leaves r
          → Leaves (elim r.0 [ ok _ ↦ k r.1 | err e ↦ (err e, r.1) ])
      go (ok _, session') h = g session' h
      go (err e, session') h = h

  pub trade_AllTracked :
      (sent : List WriteMsg) (markets : Markets) (row : TradeRow)
      → AllTracked sent markets
      → AllTracked (sent ++ trade row ∷ []) markets
  trade_AllTracked sent markets row t id symbol e =
      rw (rows_of-trade symbol sent row) (t id symbol e)

module _ ⦃d : Decimals⦄ ⦃c : Chrono⦄ ⦃s : Serde⦄ ⦃f : Floats⦄ (cache : IntMap ℤ)
    (initial : Option MarketBook) (injective : IsInjective cache) where
  AllTracked-push :
      (id symbol : ℤ) (sent : List WriteMsg) (markets markets' : Markets)
      (row : OrderbookMessageRow)
      → lookup id cache ≡ some symbol
      → row.symbol ≡ symbol
      → ((j : ℤ) → j ≢ id → lookup j markets' ≡ lookup j markets)
      → ((have : Option MarketBook)
          → Keeps have (lookup id markets)
          → (have' : MarketBook) × (read_row have row ≡ ok have')
            × Keeps (some have') (lookup id markets'))
      → AllTracked cache initial sent markets
      → AllTracked cache initial (sent ++ orderbook row ∷ []) markets'
  AllTracked-push id symbol sent markets markets' row here same others step t j symbol' e =
      elim (Bool-cases (symbol' ==ℤ symbol)) [
        | inl equal ↦
            let es = (==ℤ_iff symbol' symbol).0 equal in
            let ej = injective j id symbol (rw es at e) here in
            rw (es, ej)
              (Tracks-push initial sent symbol (lookup id markets) (lookup id markets') row same
                step (t id symbol here))
        | inr differs ↦
            let ne : symbol' ≢ symbol = λ p. cc ((==ℤ_iff symbol' symbol).1 p, differs) in
            let je : j ≢ id = λ p. ne (cc (ap (λ (i : ℤ). lookup i cache) p)) in
            rw (rows_of-other symbol' sent row (λ p. ne (sym p ∙ same)), others j je)
              (t j symbol' e)
      ]

  AllReadable-push :
      (id symbol : ℤ) (sent : List WriteMsg) (markets' : Markets) (row : OrderbookMessageRow)
      → lookup id cache ≡ some symbol
      → row.symbol ≡ symbol
      → AllTracked cache initial (sent ++ orderbook row ∷ []) markets'
      → AllReadable initial sent
      → AllReadable initial (sent ++ orderbook row ∷ [])
  AllReadable-push id symbol sent markets' row here same t r symbol' =
      elim (Bool-cases (symbol' ==ℤ symbol)) [
        | inl equal ↦
            let (have, read, keeps) = t id symbol here in
            rw ((==ℤ_iff symbol' symbol).0 equal) (have, read)
        | inr differs ↦
            let ne : symbol' ≢ symbol = λ p. cc ((==ℤ_iff symbol' symbol).1 p, differs) in
            rw (rows_of-other symbol' sent row (λ p. ne (sym p ∙ same))) (r symbol')
      ]

  pushed-IsSound :
      (id symbol : ℤ) (session : Session) (markets' : Markets) (row : OrderbookMessageRow)
      → lookup id cache ≡ some symbol
      → row.symbol ≡ symbol
      → ((j : ℤ) → j ≢ id → lookup j markets' ≡ lookup j session.markets)
      → ((have : Option MarketBook)
          → Keeps have (lookup id session.markets)
          → (have' : MarketBook) × (read_row have row ≡ ok have')
            × Keeps (some have') (lookup id markets'))
      → AllValid markets'
      → IsDistinct markets'
      → IsSound cache initial session
      → IsSound cache initial
          (record session { markets = markets'; sent = session.sent ++ orderbook row ∷ [] })
  pushed-IsSound id symbol session markets' row here same others step valid distinct sound =
      let tracked =
        AllTracked-push id symbol session.sent session.markets markets' row here same others step
          sound.tracked in
      record {
        tracked = tracked;
        readable =
            AllReadable-push id symbol session.sent markets' row here same tracked sound.readable;
        valid = valid;
        distinct = distinct;
      }

  -- The timer's rows, for the markets that are left.
  pub write_snapshots-Leaves :
      (left : Markets) (session : Session)
      → All (λ (e : ℤ × MarketBook). lookup e.0 session.markets ≡ some e.1) left
      → IsSound cache initial session
      → Leaves cache initial (write_snapshots cache left session)
  unfolding write_snapshots
  write_snapshots-Leaves [] session a sound = sound
  write_snapshots-Leaves ((id, market) ∷ left) session a sound =
      let run = write_snapshots cache ((id, market) ∷ left) session in
      elim (Option-cases (lookup id cache)) [
        | inl missing ↦
            let e : run ≡ (err unknown_market, session) = ground arith in
            subst (Leaves cache initial) (sym e) sound.readable
        | inr (symbol, here) ↦ elim (Result-cases (book_snapshot_row symbol market)) [
          | inl (x, bad) ↦
              let e : run ≡ (err x, session) = ground arith in
              subst (Leaves cache initial) (sym e) sound.readable
          | inr (row, good) ↦
              let session' = record session { sent = session.sent ++ orderbook row ∷ [] } in
              elim (send_row-cases (orderbook row) session) [
                | inl shut ↦
                    let e : run ≡ (err channel_closed, session) = ground arith in
                    subst (Leaves cache initial) (sym e) sound.readable
                | inr up ↦
                    let e : run ≡ write_snapshots cache left session' = ground arith in
                    subst (Leaves cache initial) (sym e) (
                      write_snapshots-Leaves left
                        (record session { sent = session.sent ++ orderbook row ∷ [] }) a.1
                        (pushed-IsSound id symbol session session.markets row here
                          (book_snapshot_row-Says symbol market row good).says_symbol (λ j n. refl)
                          (λ have k.
                            let (have', read, agrees) =
                              book_snapshot_row-read symbol market row have good
                                (sound.valid id market a.0) in
                            (have', read, rw a.0 agrees))
                          sound.valid sound.distinct sound))
              ]
        ]
      ]

  -- The row of a message.
  pub apply_and_send :
      (id symbol : ℤ) (message : OrderBookWsMessage) (session : Session)
      → lookup id cache ≡ some symbol
      → IsSound cache initial session
      → Leaves cache initial (handle_order_book id message (some symbol) session)
  unfolding handle_order_book
  apply_and_send id symbol message session here sound =
      let run = handle_order_book id message (some symbol) session in
      elim (Outcome-cases (apply_orderbook_message symbol id message session.markets)) [
        | inl (x, markets', bad) ↦
            let e : run ≡ (err x, record session { markets = markets' }) = ground arith in
            subst (Leaves cache initial) (sym e) sound.readable
        | inr (row, markets', good) ↦
            let half = record session { markets = markets' } in
            elim (send_row-cases (orderbook row) half) [
              | inl shut ↦
                  let e : run ≡ (err channel_closed, half) = ground arith in
                  subst (Leaves cache initial) (sym e) sound.readable
              | inr up ↦
                  let whole = record half { sent = half.sent ++ orderbook row ∷ [] } in
                  let e : run ≡ (ok tt, whole) = ground arith in
                  subst (Leaves cache initial) (sym e) (
                    pushed-IsSound id symbol session markets' row here
                      (apply_orderbook_message-symbol symbol id message session.markets markets' row
                        good)
                      (λ j n.
                        rw good at
                          (apply_orderbook_message-others symbol id j message session.markets n))
                      (λ have k.
                        apply_orderbook_message-read symbol id message session.markets markets' row
                          have good k)
                      (rw good at (
                        apply_orderbook_message-AllValid symbol id message session.markets
                          sound.valid))
                      (rw good at (
                        apply_orderbook_message-IsDistinct symbol id message session.markets
                          sound.distinct))
                      sound)
            ]
      ]
