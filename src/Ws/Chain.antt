-- ===== src/Ws/Chain.antt =====
-- src/ws.rs: what it says of rows, one next to the other, that a reader has accepted them all.
use lighter_timescaledb_inge.Base.{
  ◌≡◌, refl, sym, ap, ◌∙◌, false, not, ◌&&◌, Option, none, some, List, [], ◌∷◌, text_eq,
  text_eq_iff, Result, ok, err, and_then, ok_or, ok_or-some, and_then-eq-ok, ok-injective, row_gap,
  row_unreadable, arith, Bool-cases, ◌⊎◌, inl, inr, if◌then◌else◌,
}
use lighter_timescaledb_inge.Base.Int.{ℤ, ◌==ℤ◌, ==ℤ_iff}
use lighter_timescaledb_inge.External.{Decimals, Chrono, Serde, earlier}
use lighter_timescaledb_inge.Models.{OrderbookMessageRow}
use lighter_timescaledb_inge.Wire.{PriceLevel}
use lighter_timescaledb_inge.Book.{Book, from_snapshot}
use lighter_timescaledb_inge.Ws.{MarketBook, snapshot_type}
use lighter_timescaledb_inge.Ws.Reader.{read_row, continue_from}
use lighter_timescaledb_inge.Ws.Rows.{read_rows}

module _ ⦃c : Chrono⦄ ⦃s : Serde⦄ where
  -- A row is a snapshot, or there is one before it whose `sequence` it names as its `begin_nonce`, and
  -- which is not later.
  abbrev pub Continues : Option OrderbookMessageRow → OrderbookMessageRow → Type 0
  Continues previous row =
      (row.message_type ≡ snapshot_type)
      ⊎ ((before : OrderbookMessageRow) × (previous ≡ some before)
          × ((n : ℤ) × (before.sequence ≡ some n) × (row.begin_nonce ≡ some n))
          × (earlier row.time before.time ≡ false))

  -- So is every row of the list, the first one behind `previous`.
  abbrev pub IsChained : Option OrderbookMessageRow → List OrderbookMessageRow → Type 0
  IsChained previous [] = Unit
  IsChained previous (row ∷ rows) = Continues previous row × IsChained (some row) rows

module _ ⦃d : Decimals⦄ ⦃c : Chrono⦄ ⦃s : Serde⦄ where
  -- What a reader that accepts a row had, and has.
  record Accepted (have : Option MarketBook) (row : OrderbookMessageRow) (now : MarketBook)
      : Type 0 where
    nonce_read : row.sequence ≡ some now.nonce
    time_read : now.source_time ≡ row.time
    continues :
        (row.message_type ≡ snapshot_type)
        ⊎ ((market : MarketBook) × (have ≡ some market)
            × (row.begin_nonce ≡ some market.nonce)
            × (earlier row.time market.source_time ≡ false))

  continue_from-eq :
      (row : OrderbookMessageRow) (bids asks : List PriceLevel) (begin_nonce : Option ℤ)
      (market : MarketBook) (book : Book)
      → continue_from row bids asks begin_nonce market ≡ ok book
      → (begin_nonce ≡ some market.nonce) × (earlier row.time market.source_time ≡ false)
  continue_from-eq row bids asks none market book h = absurd (cc)
  continue_from-eq row bids asks (some n) market book h =
      elim (Bool-cases (n ==ℤ market.nonce && not (earlier row.time market.source_time))) [
        | inl holds ↦
            (ap some ((==ℤ_iff n market.nonce).0 (ground (arith, holds))), ground (arith, holds))
        | inr fails ↦ absurd (ground (arith, fails, h))
      ]

  -- The choice of the book: a snapshot's, or the one that the delta leaves.
  continues_by :
      (have : Option MarketBook) (row : OrderbookMessageRow) (bids asks : List PriceLevel)
      (book : Book)
      → (if text_eq row.message_type snapshot_type then from_snapshot bids asks else elim have [
        | none ↦ err row_gap
        | some market ↦ continue_from row bids asks row.begin_nonce market
      ])
        ≡ ok book
      → (row.message_type ≡ snapshot_type)
        ⊎ ((market : MarketBook) × (have ≡ some market)
            × (row.begin_nonce ≡ some market.nonce)
            × (earlier row.time market.source_time ≡ false))
  continues_by have row bids asks book h =
      elim (Bool-cases (text_eq row.message_type snapshot_type)) [
        | inl snapshot ↦ inl ((text_eq_iff row.message_type snapshot_type).0 snapshot)
        | inr delta ↦ inr (by_book have (rw delta at h))
      ]
    where
      by_book :
          (have : Option MarketBook)
          → ◌≡◌ {A = Result Book}
              (elim have [
                | none ↦ err row_gap
                | some market ↦ continue_from row bids asks row.begin_nonce market
              ])
              (ok book)
          → (market : MarketBook) × (have ≡ some market)
            × (row.begin_nonce ≡ some market.nonce)
            × (earlier row.time market.source_time ≡ false)
      by_book none e = absurd (cc)
      by_book (some market) e =
          let (begins, in_time) = continue_from-eq row bids asks row.begin_nonce market book e in
          (market, refl, begins, in_time)

  read_row-Accepted :
      (have : Option MarketBook) (row : OrderbookMessageRow) (now : MarketBook)
      → read_row have row ≡ ok now
      → Accepted have row now
  unfolding read_row
  read_row-Accepted have row now h =
      let choose : List PriceLevel → List PriceLevel → Result Book = λ bids asks.
        if text_eq row.message_type snapshot_type then from_snapshot bids asks else elim have [
          | none ↦ err row_gap
          | some market ↦ continue_from row bids asks row.begin_nonce market
        ] in
      let give : ℤ → Book → Result MarketBook =
        λ sequence book. ok (record { nonce = sequence; source_time = row.time; book = book }) in
      let (bids, _, h1) =
        and_then-eq-ok (ok_or (s.levels_from_value row.bids) row_unreadable)
          (λ bids. and_then (ok_or (s.levels_from_value row.asks) row_unreadable) λ asks.
            and_then (ok_or row.sequence row_unreadable)
              λ sequence. and_then (choose bids asks) (give sequence))
          now h in
      let (asks, _, h2) =
        and_then-eq-ok (ok_or (s.levels_from_value row.asks) row_unreadable)
          (λ asks.
            and_then (ok_or row.sequence row_unreadable)
              λ sequence. and_then (choose bids asks) (give sequence))
          now h1 in
      let (sequence, sequence_eq, h3) =
        and_then-eq-ok (ok_or row.sequence row_unreadable)
          (λ sequence. and_then (choose bids asks) (give sequence)) now h2 in
      let (book, chosen, given) = and_then-eq-ok (choose bids asks) (give sequence) now h3 in
      let is_now =
        ok-injective (record { nonce = sequence; source_time = row.time; book = book }) now given in
      record {
        nonce_read =
            ok_or-some row.sequence row_unreadable sequence sequence_eq
            ∙ ap (λ m. some m.nonce) is_now;
        time_read = ap (λ m. m.source_time) (sym is_now);
        continues = continues_by have row bids asks book chosen;
      }

  -- The reader stands behind a row of this list, or has not begun.
  abbrev Behind : Option OrderbookMessageRow → Option MarketBook → Type 0
  Behind previous none = Unit
  Behind none (some market) = ⊥
  Behind (some before) (some market) =
      (before.sequence ≡ some market.nonce) × (before.time ≡ market.source_time)

  read_on-IsChained :
      (previous : Option OrderbookMessageRow) (have have' : Option MarketBook)
      (rows : List OrderbookMessageRow)
      → Behind previous have
      → read_rows have rows ≡ ok have'
      → IsChained previous rows
  unfolding read_rows
  read_on-IsChained previous have have' [] b h = tt
  read_on-IsChained previous have have' (row ∷ rows) b h =
      let (now, read, h') =
        and_then-eq-ok (read_row have row) (λ now. read_rows (some now) rows) have' h in
      let x = read_row-Accepted have row now read in
      (
        by_book previous have x.continues b,
        read_on-IsChained (some row) (some now) have' rows (x.nonce_read, sym x.time_read) h',
      )
    where
      some-injective : (a b : MarketBook) → some a ≡ some b → a ≡ b
      some-injective a b e = ap (λ o. elim o [ none ↦ a | some x ↦ x ]) e

      by_book :
          (previous : Option OrderbookMessageRow) (have : Option MarketBook)
          → (row.message_type ≡ snapshot_type)
            ⊎ ((market : MarketBook) × (have ≡ some market)
                × (row.begin_nonce ≡ some market.nonce)
                × (earlier row.time market.source_time ≡ false))
          → Behind previous have
          → Continues previous row
      by_book previous have (inl snapshot) b = inl snapshot
      by_book previous none (inr (market, none_yet, _, _)) b = absurd (cc)
      by_book none (some m) (inr delta) b = absurd b
      by_book (some before) (some m) (inr (market, is_m, begins, in_time)) (sequence, time) =
          let same : m ≡ market = some-injective m market is_m in
          inr (
            before,
            refl,
            (market.nonce, sequence ∙ ap (λ x. some x.nonce) same, begins),
            ap (λ (t : c.DateTime). earlier row.time t) (time ∙ ap (λ x. x.source_time) same)
                ∙ in_time,
          )

  -- Rows that a reader accepts from the first one on are chained.
  pub read_rows-IsChained :
      (rows : List OrderbookMessageRow) (have : Option MarketBook)
      → read_rows none rows ≡ ok have
      → IsChained none rows
  read_rows-IsChained rows have h = read_on-IsChained none none have rows tt h
