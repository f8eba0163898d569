-- ===== src/Writer/Splits.antt =====
-- src/ws.rs: the messages of the channel, told apart by what they carry. `flush` sorts a batch so.
use lighter_timescaledb_inge.Base.{◌≡◌, refl, ap, List, [], ◌∷◌}
use lighter_timescaledb_inge.External.{Chrono, Serde, Floats}
use lighter_timescaledb_inge.Models.{TradeRow, OrderbookMessageRow}
use lighter_timescaledb_inge.Ws.Session.{WriteMsg, trade, orderbook}
use lighter_timescaledb_inge.Writer.{trade_rows, orderbook_rows}

module _ ⦃c : Chrono⦄ ⦃s : Serde⦄ ⦃f : Floats⦄ where
  -- The messages carry these trades and these order-book rows, each list in their order.
  pub data Splits : List WriteMsg → List TradeRow → List OrderbookMessageRow → Type 0 where
    nothing : Splits [] [] []
    first_trade :
        (row : TradeRow) {msgs : List WriteMsg} {ts : List TradeRow} {ms : List OrderbookMessageRow}
        → Splits msgs ts ms
        → Splits (trade row ∷ msgs) (row ∷ ts) ms
    first_message :
        (row : OrderbookMessageRow) {msgs : List WriteMsg} {ts : List TradeRow}
        {ms : List OrderbookMessageRow}
        → Splits msgs ts ms
        → Splits (orderbook row ∷ msgs) ts (row ∷ ms)

  pub rows-Splits : (msgs : List WriteMsg) → Splits msgs (trade_rows msgs) (orderbook_rows msgs)
  unfolding trade_rows orderbook_rows
  rows-Splits [] = nothing
  rows-Splits (trade row ∷ msgs) = first_trade row (rows-Splits msgs)
  rows-Splits (orderbook row ∷ msgs) = first_message row (rows-Splits msgs)

  pub Splits-trade_rows :
      (msgs : List WriteMsg) (ts : List TradeRow) (ms : List OrderbookMessageRow)
      → Splits msgs ts ms
      → trade_rows msgs ≡ ts
  unfolding trade_rows
  Splits-trade_rows _ _ _ nothing = refl
  Splits-trade_rows _ _ _ (first_trade row {msgs} {ts} {ms} x) =
      ap (λ l. row ∷ l) (Splits-trade_rows msgs ts ms x)
  Splits-trade_rows _ _ _ (first_message row {msgs} {ts} {ms} x) = Splits-trade_rows msgs ts ms x
