-- ===== src/Book/Examples.antt =====
-- The theorems of the book at concrete messages, and runs of the operations.
use lighter_timescaledb_inge.Base.{
  Pairwise, ◌≡◌, ◌↔◌, refl, none, List, [], ◌∷◌, All, ok, err, zero_size,
}
use lighter_timescaledb_inge.OrderedMap.{get, insert, remove, values}
use lighter_timescaledb_inge.Wire.{PriceLevel}
use lighter_timescaledb_inge.Wire.Channel.{parse_digits}
use lighter_timescaledb_inge.Instances.{whole_decimals, level}
use lighter_timescaledb_inge.Book.{
  Book, parse, insert_levels, side_from_snapshot, from_snapshot, apply_side, apply_delta, bids,
  asks, empty_book,
}
use lighter_timescaledb_inge.Book.Valid.{IsValid, from_snapshot-IsValid}
use lighter_timescaledb_inge.Book.Levels.{last_at, decided, apply_delta-get, from_snapshot-get}
use lighter_timescaledb_inge.Book.Accept.{
  IsDecimalLevel, IsSnapshotLevel, apply_delta-ok_iff, from_snapshot-ok_iff,
}
use lighter_timescaledb_inge.Book.Rebuild.{listing_roundtrip}
use lighter_timescaledb_inge.Book.Order.{Below, listing_ordered}

abbrev some_bids : List PriceLevel
some_bids = level 3 1 ∷ level 5 2 ∷ []

abbrev some_asks : List PriceLevel
some_asks = level 8 4 ∷ []

abbrev book : Book
book = record { bid_side = (3, level 3 1) ∷ (5, level 5 2) ∷ []; ask_side = (8, level 8 4) ∷ [] }

-- The bid 5 goes and the bid 4 comes.
abbrev more_bids : List PriceLevel
more_bids = level 5 0 ∷ level 4 7 ∷ []

built : from_snapshot some_bids some_asks ≡ ok book
unfolding from_snapshot side_from_snapshot insert_levels parse parse_digits insert
built = refl

book-IsValid : IsValid book
book-IsValid = from_snapshot-IsValid some_bids some_asks book built

descending : bids book ≡ level 5 2 ∷ level 3 1 ∷ []
unfolding bids values
descending = refl

after_delta : bids (apply_delta more_bids [] book).1 ≡ level 4 7 ∷ level 3 1 ∷ []
unfolding bids values apply_delta apply_side parse parse_digits insert remove
after_delta = refl

removed_from_empty : apply_delta (level 9 0 ∷ []) [] empty_book ≡ (ok tt, empty_book)
unfolding apply_delta apply_side parse parse_digits remove empty_book
removed_from_empty = refl

zero_in_snapshot : from_snapshot (level 1 0 ∷ []) [] ≡ err zero_size
unfolding from_snapshot side_from_snapshot insert_levels parse parse_digits
zero_in_snapshot = refl

applied : (apply_delta more_bids [] book).0 ≡ ok tt
unfolding apply_delta apply_side parse parse_digits
applied = refl

apply_delta-get_example :
    let book' = (apply_delta more_bids [] book).1 in
    (get whole_decimals.cmp 5 book'.bid_side
      ≡ decided (last_at 5 more_bids) (get whole_decimals.cmp 5 book.bid_side))
    × (get whole_decimals.cmp 5 book'.ask_side
        ≡ decided (last_at 5 []) (get whole_decimals.cmp 5 book.ask_side))
apply_delta-get_example = apply_delta-get more_bids [] book book-IsValid applied 5

from_snapshot-get_example :
    (get whole_decimals.cmp 5 book.bid_side ≡ decided (last_at 5 some_bids) none)
    × (get whole_decimals.cmp 5 book.ask_side ≡ decided (last_at 5 some_asks) none)
from_snapshot-get_example = from_snapshot-get some_bids some_asks book built 5

apply_delta-ok_iff_example :
    ((apply_delta more_bids [] book).0 ≡ ok tt)
    ↔ (All IsDecimalLevel more_bids × All IsDecimalLevel [])
apply_delta-ok_iff_example = apply_delta-ok_iff more_bids [] book

from_snapshot-ok_iff_example :
    ((b : Book) × (from_snapshot some_bids some_asks ≡ ok b))
    ↔ (All IsSnapshotLevel some_bids × All IsSnapshotLevel some_asks)
from_snapshot-ok_iff_example = from_snapshot-ok_iff some_bids some_asks

listing_ordered_example : Pairwise (λ a b. Below b a) (bids book) × Pairwise Below (asks book)
listing_ordered_example = listing_ordered book book-IsValid

listing_roundtrip_example :
    (book' : Book) × (from_snapshot (bids book) (asks book) ≡ ok book')
    × IsValid book'
    × (bids book' ≡ bids book)
    × (asks book' ≡ asks book)
listing_roundtrip_example = listing_roundtrip book book-IsValid
