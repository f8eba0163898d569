-- ===== src/Book.antt =====
-- src/book.rs: the order book of one market. A side is the `BTreeMap` from the parsed price to the
-- level as Lighter sent it.
pub mod Valid
pub mod Levels
pub mod Accept
pub mod Rebuild
pub mod Order
mod Examples
use lighter_timescaledb_inge.Base.{
  List, [], ◌∷◌, reverse, Result, ok, err, bad_price, bad_size, zero_size, and_then, ok_or, Action,
  ◌>>=◌, ◌>>◌, pure, lift, modify, if◌then◌else◌,
}
use lighter_timescaledb_inge.OrderedMap.{insert, remove, values}
use lighter_timescaledb_inge.External.{Decimals}
use lighter_timescaledb_inge.Wire.{PriceLevel}

module _ ⦃d : Decimals⦄ where
  abbrev pub Side : Type 0
  Side = List (d.Decimal × PriceLevel)

  pub record Book : Type 0 where
    pub bid_side : Side
    pub ask_side : Side

  -- `Book::default()`
  unfoldable pub empty_book : Book
  empty_book = record { bid_side = []; ask_side = [] }

  unfoldable pub parse : PriceLevel → Result (d.Decimal × d.Decimal)
  parse level =
      and_then (ok_or (d.from_str level.price) bad_price)
        λ price. and_then (ok_or (d.from_str level.size) bad_size) λ size. ok (price, size)

  -- The loop of `side_from_snapshot`, from the side built so far.
  unfoldable pub insert_levels : Side → List PriceLevel → Result Side
  insert_levels side [] = ok side
  insert_levels side (level ∷ levels) = and_then (parse level) λ (price, size).
      if d.is_zero size then err zero_size else insert_levels (insert d.cmp price level side) levels

  unfoldable pub side_from_snapshot : List PriceLevel → Result Side
  unfolding insert_levels
  side_from_snapshot levels = insert_levels [] levels

  -- An error leaves the levels before it applied.
  unfoldable pub apply_side : List PriceLevel → Action Side (Unit {0})
  apply_side [] = pure tt
  apply_side (level ∷ levels) = do
    (price, size) ← lift (parse level)
    modify (if d.is_zero size then remove d.cmp price else insert d.cmp price level)
    apply_side levels

  unfoldable pub from_snapshot : List PriceLevel → List PriceLevel → Result Book
  from_snapshot bids asks = and_then (side_from_snapshot bids) λ bid_side.
      and_then (side_from_snapshot asks)
        λ ask_side. ok (record { bid_side = bid_side; ask_side = ask_side })

  -- An action through `&mut self.bids`, and through `&mut self.asks`.
  abbrev pub on_bids {ℓ} : {A : Type ℓ} → Action Side A → Action Book A
  on_bids act book =
      let (result, side) = act book.bid_side in (result, record book { bid_side = side })

  abbrev pub on_asks {ℓ} : {A : Type ℓ} → Action Side A → Action Book A
  on_asks act book =
      let (result, side) = act book.ask_side in (result, record book { ask_side = side })

  unfoldable pub apply_delta : List PriceLevel → List PriceLevel → Action Book (Unit {0})
  apply_delta bids asks = do on_bids (apply_side bids); on_asks (apply_side asks)

  -- Bids from the highest price down.
  unfoldable pub bids : Book → List PriceLevel
  bids book = reverse (values book.bid_side)

  -- Asks from the lowest price up.
  unfoldable pub asks : Book → List PriceLevel
  asks book = values book.ask_side
