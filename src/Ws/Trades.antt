-- ===== src/Ws/Trades.antt =====
-- src/ws.rs: what a frame of trades sends to the writer.
use lighter_timescaledb_inge.Base.{
  Text, subst, ◌≡◌, refl, sym, ap, ◌∙◌, some, List, [], ◌∷◌, ◌++◌, map, append-nil, append_assoc,
  Result, ok, err, arith, Option-cases, Result-cases, inl, inr, channel_closed,
}
use lighter_timescaledb_inge.Base.Int.{ℤ}
use lighter_timescaledb_inge.Base.IntMap.{IntMap, lookup}
use lighter_timescaledb_inge.Wire.{Trade, TradeWsMessage}
use lighter_timescaledb_inge.Wire.Channel.{trade_market_id}
use lighter_timescaledb_inge.External.{Decimals, Chrono, Serde, Floats}
use lighter_timescaledb_inge.Models.{TradeRow}
use lighter_timescaledb_inge.Ws.Session.{
  WriteMsg, Session, millis_to_datetime, trade_row, send_trades, all_trades, handle_trades,
  handle_trade_frame,
}
use lighter_timescaledb_inge.Ws.Stream.{send_row-cases}

module _ ⦃c : Chrono⦄ ⦃f : Floats⦄ where
  -- The row says what the trade says, for the symbol.
  pub record IsRowOf (symbol : ℤ) (t : Trade) (row : TradeRow) : Type 0 where
    pub same_symbol : row.symbol ≡ symbol
    pub same_id : row.lighter_trade_id ≡ t.trade_id
    pub same_side : row.is_maker_ask ≡ t.is_maker_ask
    pub same_type : row.trade_type ≡ t.trade_type
    pub price_read : f.parse t.price ≡ some row.price
    pub size_read : f.parse t.size ≡ some row.size
    pub time_read : c.from_timestamp_millis t.timestamp ≡ some row.time

  trade_row-IsRowOf :
      (symbol : ℤ) (t : Trade) (row : TradeRow) → trade_row t symbol ≡ ok row → IsRowOf symbol t row
  unfolding trade_row millis_to_datetime
  trade_row-IsRowOf symbol t row h = elim (Option-cases (c.from_timestamp_millis t.timestamp)) [
    | inl bad ↦ absurd (ground arith)
    | inr (time, good) ↦ elim (Option-cases (f.parse t.price)) [
      | inl bad ↦ absurd (ground arith)
      | inr (price, fine) ↦ elim (Option-cases (f.parse t.size)) [
        | inl bad ↦ absurd (ground arith)
        | inr (size, well) ↦
            let e : row ≡ record {
              time = time;
              symbol = symbol;
              lighter_trade_id = t.trade_id;
              price = price;
              size = size;
              is_maker_ask = t.is_maker_ask;
              trade_type = t.trade_type;
            } =
              ground arith in
            record {
              same_symbol = ap (λ r. r.symbol) e;
              same_id = ap (λ r. r.lighter_trade_id) e;
              same_side = ap (λ r. r.is_maker_ask) e;
              same_type = ap (λ r. r.trade_type) e;
              price_read = fine ∙ ap (λ r. some r.price) (sym e);
              size_read = well ∙ ap (λ r. some r.size) (sym e);
              time_read = good ∙ ap (λ r. some r.time) (sym e);
            }
      ]
    ]
  ]

  -- One row for each trade, in order.
  abbrev pub AreRowsOf : ℤ → List Trade → List TradeRow → Type 0
  AreRowsOf symbol [] [] = Unit
  AreRowsOf symbol [] (row ∷ rows) = ⊥
  AreRowsOf symbol (t ∷ trades) [] = ⊥
  AreRowsOf symbol (t ∷ trades) (row ∷ rows) = IsRowOf symbol t row × AreRowsOf symbol trades rows

module _ ⦃d : Decimals⦄ ⦃c : Chrono⦄ ⦃s : Serde⦄ ⦃f : Floats⦄ where
  -- The rows of a first part of the trades are sent, all of them if there is no error, and nothing else
  -- of the session changes.
  pub record Sent (symbol : ℤ) (trades : List Trade) (session : Session)
      (r : Result (Unit {0}) × Session) : Type 0 where
    pub done : List Trade
    pub left : List Trade
    pub rows : List TradeRow
    pub split : done ++ left ≡ trades
    pub are_rows : AreRowsOf symbol done rows
    pub session_after :
        r.1 ≡ record session { sent = session.sent ++ map (λ row. WriteMsg.trade row) rows }
    pub none_left : r.0 ≡ ok tt → left ≡ []

  none-Sent :
      (symbol : ℤ) (trades : List Trade) (session : Session) (r : Result (Unit {0}))
      → (r ≡ ok tt → trades ≡ [])
      → Sent symbol trades session (r, session)
  none-Sent symbol trades session r ends = record {
    done = [];
    left = trades;
    rows = [];
    split = refl;
    are_rows = tt;
    session_after = ap (λ l. record session { sent = l }) (sym (append-nil session.sent));
    none_left = ends;
  }

  -- A row more in front.
  one-Sent :
      (symbol : ℤ) (t : Trade) (row : TradeRow) (trades : List Trade) (session : Session)
      (r : Result (Unit {0}) × Session)
      → IsRowOf symbol t row
      → Sent symbol trades (record session { sent = session.sent ++ WriteMsg.trade row ∷ [] }) r
      → Sent symbol (t ∷ trades) session r
  one-Sent symbol t row trades session r is_row x = record {
    done = t ∷ x.done;
    left = x.left;
    rows = row ∷ x.rows;
    split = ap (λ l. t ∷ l) x.split;
    are_rows = (is_row, x.are_rows);
    session_after =
        x.session_after
        ∙ ap (λ l. record session { sent = l })
            (append_assoc session.sent (WriteMsg.trade row ∷ [])
              (map (λ row. WriteMsg.trade row) x.rows));
    none_left = x.none_left;
  }

  send_trades-Sent :
      (symbol : ℤ) (trades : List Trade) (session : Session)
      → Sent symbol trades session (send_trades symbol trades session)
  unfolding send_trades
  send_trades-Sent symbol [] session = none-Sent symbol [] session (ok tt) (λ _. refl)
  send_trades-Sent symbol (t ∷ trades) session =
      let run = send_trades symbol (t ∷ trades) session in
      elim (Result-cases (trade_row t symbol)) [
        | inl (x, bad) ↦
            let e : run ≡ (err x, session) = ground arith in
            subst (Sent symbol (t ∷ trades) session) (sym e)
              (none-Sent symbol (t ∷ trades) session (err x) (λ h. absurd (cc)))
        | inr (row, good) ↦ elim (send_row-cases (WriteMsg.trade row) session) [
          | inl shut ↦
              let e : run ≡ (err channel_closed, session) = ground arith in
              subst (Sent symbol (t ∷ trades) session) (sym e)
                (none-Sent symbol (t ∷ trades) session (err channel_closed) (λ h. absurd (cc)))
          | inr up ↦
              let session' = record session { sent = session.sent ++ WriteMsg.trade row ∷ [] } in
              let e : run ≡ send_trades symbol trades session' = ground arith in
              subst (Sent symbol (t ∷ trades) session) (sym e) (
                one-Sent symbol t row trades session _ (trade_row-IsRowOf symbol t row good) (
                  send_trades-Sent symbol trades
                    (record session { sent = session.sent ++ WriteMsg.trade row ∷ [] })))
        ]
      ]

-- The trades and the liquidations that a message carries.
pub data Carries : TradeWsMessage → List Trade → List Trade → Type 0 where
  first_message :
      (channel : Text) (nonce : ℤ) (trades liquidations : List Trade)
      → Carries (TradeWsMessage.subscribed channel nonce trades liquidations) trades liquidations
  later_message :
      (channel : Text) (nonce : ℤ) (trades liquidations : List Trade)
      → Carries (TradeWsMessage.update channel nonce trades liquidations) trades liquidations

module _ ⦃d : Decimals⦄ ⦃c : Chrono⦄ ⦃s : Serde⦄ ⦃f : Floats⦄ where
  Carries-all_trades :
      (message : TradeWsMessage) (trades liquidations : List Trade)
      → Carries message trades liquidations
      → all_trades message ≡ trades ++ liquidations
  Carries-all_trades _ _ _ (first_message channel nonce trades liquidations) = refl
  Carries-all_trades _ _ _ (later_message channel nonce trades liquidations) = refl

  -- A frame that is a message of trades and liquidations for a market that the cache knows sends one row
  -- for each of its trades, and then for each of its liquidations, in order, with what the trade says and
  -- the symbol of the market: all of them if there is no error, and else those of a first part. Nothing
  -- else of the session changes.
  pub handle_trade_frame-Sent :
      (cache : IntMap ℤ) (value : s.Json) (message : TradeWsMessage)
      (trades liquidations : List Trade) (id symbol : ℤ) (session : Session)
      → s.to_trade_message value ≡ some message
      → Carries message trades liquidations
      → trade_market_id message ≡ some id
      → lookup id cache ≡ some symbol
      → Sent symbol (trades ++ liquidations) session (handle_trade_frame value cache session)
  unfolding handle_trade_frame handle_trades
  handle_trade_frame-Sent cache value message trades liquidations id symbol session parsed carries
        market here =
      let sent = send_trades-Sent symbol (all_trades message) session in
      subst (λ all. Sent symbol all session (handle_trade_frame value cache session))
        (Carries-all_trades message trades liquidations carries) (rw (parsed, market, here) sent)
