-- ===== src/Wire/Examples.antt =====
-- The names of channels at concrete markets.
use lighter_timescaledb_inge.Base.{◌≡◌, refl, none, some, [], ◌∷◌, ◌++◌, codes, arith}
use lighter_timescaledb_inge.Base.Int.{pos}
use lighter_timescaledb_inge.Wire.{OrderBookSideLevels, OrderBookWsMessage}
use lighter_timescaledb_inge.Wire.Channel.{parse_digits, parse_i32, order_book_market_id, print_i32}
use lighter_timescaledb_inge.Wire.Channel.Render.{order_book_market_id-print}

abbrev no_levels : OrderBookSideLevels
no_levels = record { offset = pos 0; nonce = pos 0; begin_nonce = pos 0; asks = []; bids = [] }

-- The channel of the tests in orderbook.rs.
listed :
    order_book_market_id (OrderBookWsMessage.subscribed (codes "order_book:4095") (pos 0) no_levels)
    ≡ some (pos 4095)
unfolding order_book_market_id parse_digits
listed = refl

-- A slash is no colon, and 2147483648 is no `i32`.
no_colon :
    order_book_market_id (OrderBookWsMessage.update (codes "trade/7") (pos 0) no_levels) ≡ none
unfolding order_book_market_id
no_colon = refl

too_large : parse_i32 (codes "2147483648") ≡ none
unfolding parse_i32
too_large = refl

order_book_market_id-print_example :
    (order_book_market_id (
        OrderBookWsMessage.subscribed
          (codes "order_book" ++ b':' ∷ print_i32 (pos 12))
          (pos 0)
          no_levels)
      ≡ some (pos 12))
    × (order_book_market_id (
          OrderBookWsMessage.update
            (codes "order_book" ++ b':' ∷ print_i32 (pos 12))
            (pos 0)
            no_levels)
        ≡ some (pos 12))
order_book_market_id-print_example =
    order_book_market_id-print (codes "order_book") (pos 12) (pos 0) no_levels (ground arith)
      (omega arith)
