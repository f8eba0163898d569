-- ===== src/Writer/Replay.antt =====
-- From the stream to the tables: what a reader of the stored rows may rely on.
use lighter_timescaledb_inge.Base.{
  ok-injective, subst, ◌≡◌, refl, sym, ap, ◌∙◌, Bool, Option, none, some, List, [], ◌∷◌, ◌++◌,
  append_assoc, ok, Bool-cases, Result-cases, inl, inr, if◌then◌else◌,
}
use lighter_timescaledb_inge.Base.Int.{ℤ, ◌==ℤ◌}
use lighter_timescaledb_inge.Base.IntMap.{IntMap}
use lighter_timescaledb_inge.External.{Decimals, Chrono, Serde, Floats}
use lighter_timescaledb_inge.Models.{OrderbookMessageRow}
use lighter_timescaledb_inge.Ws.{MarketBook}
use lighter_timescaledb_inge.Ws.Reader.{read_row}
use lighter_timescaledb_inge.Ws.Session.{Session, Event, WriteMsg, trade, orderbook, reconnect_loop}
use lighter_timescaledb_inge.Ws.Rows.{rows_of, read_rows, Readable}
use lighter_timescaledb_inge.Ws.Stream.{IsInjective}
use lighter_timescaledb_inge.Ws.Replay.{rows_readable}
use lighter_timescaledb_inge.Database.{Database}
use lighter_timescaledb_inge.Table.Part.{Part}
use lighter_timescaledb_inge.Writer.{WriterEvent, orderbook_rows, writer_task}
use lighter_timescaledb_inge.Writer.Inserts.{messages_of, orderbook_rows-append}
use lighter_timescaledb_inge.Writer.Delivery.{writer_task-prefix}

module _ ⦃c : Chrono⦄ ⦃s : Serde⦄ ⦃f : Floats⦄ where
  -- `WHERE symbol = …`, in the order of insertion.
  unfoldable pub of_symbol : ℤ → List OrderbookMessageRow → List OrderbookMessageRow
  of_symbol symbol [] = []
  of_symbol symbol (row ∷ rows) =
      let rest = of_symbol symbol rows in if row.symbol ==ℤ symbol then row ∷ rest else rest

  of_symbol-append :
      (symbol : ℤ) (xs ys : List OrderbookMessageRow)
      → of_symbol symbol (xs ++ ys) ≡ of_symbol symbol xs ++ of_symbol symbol ys
  unfolding of_symbol
  of_symbol-append symbol [] ys = refl
  of_symbol-append symbol (row ∷ xs) ys = elim (Bool-cases (row.symbol ==ℤ symbol)) [
    | inl e ↦ rw e (ap (λ l. row ∷ l) (of_symbol-append symbol xs ys))
    | inr e ↦ rw e (of_symbol-append symbol xs ys)
  ]

  of_symbol-rows :
      (symbol : ℤ) (msgs : List WriteMsg)
      → of_symbol symbol (orderbook_rows msgs) ≡ rows_of symbol msgs
  unfolding of_symbol orderbook_rows rows_of
  of_symbol-rows symbol [] = refl
  of_symbol-rows symbol (trade row ∷ msgs) = of_symbol-rows symbol msgs
  of_symbol-rows symbol (orderbook row ∷ msgs) = rw (of_symbol-rows symbol msgs)

module _ ⦃d : Decimals⦄ ⦃c : Chrono⦄ ⦃s : Serde⦄ where
  -- The reader goes on from what the first rows gave it.
  read_rows-append :
      (have have' : Option MarketBook) (xs ys : List OrderbookMessageRow)
      → read_rows have xs ≡ ok have'
      → read_rows have (xs ++ ys) ≡ read_rows have' ys
  unfolding read_rows
  read_rows-append have have' [] ys h = ap (λ r. read_rows r ys) (ok-injective have have' h)
  read_rows-append have have' (x ∷ xs) ys h = elim (Result-cases (read_row have x)) [
    | inl (e, bad) ↦ absurd (cc)
    | inr (market, good) ↦ rw good (read_rows-append (some market) have' xs ys (rw good at h))
  ]

  read_rows-prefix :
      (have have' : Option MarketBook) (xs ys : List OrderbookMessageRow)
      → read_rows have (xs ++ ys) ≡ ok have'
      → (reached : Option MarketBook) × (read_rows have xs ≡ ok reached)
  unfolding read_rows
  read_rows-prefix have have' [] ys h = (have, refl)
  read_rows-prefix have have' (x ∷ xs) ys h = elim (Result-cases (read_row have x)) [
    | inl (e, bad) ↦ absurd (cc)
    | inr (market, good) ↦ rw good (read_rows-prefix (some market) have' xs ys (rw good at h))
  ]

module _ ⦃d : Decimals⦄ ⦃c : Chrono⦄ ⦃s : Serde⦄ ⦃f : Floats⦄ where
  -- A reader of a table from its first row accepts every row of the symbol.
  abbrev pub IsReadable : List OrderbookMessageRow → ℤ → Type 0
  IsReadable table symbol =
      (have : Option MarketBook) × (read_rows none (of_symbol symbol table) ≡ ok have)

  -- What is stored, lost behind an error, and not received yet, is what was sent.
  stored_split :
      (symbol : ℤ) (received rest : List WriteMsg) (stored lost : List OrderbookMessageRow)
      → stored ++ lost ≡ orderbook_rows received
      → of_symbol symbol stored ++ of_symbol symbol (lost ++ orderbook_rows rest)
        ≡ rows_of symbol (received ++ rest)
  stored_split symbol received rest stored lost part =
      sym (of_symbol-append symbol stored (lost ++ orderbook_rows rest))
      ∙ ap (of_symbol symbol) (
          sym (append_assoc stored lost (orderbook_rows rest))
          ∙ ap (λ l. l ++ orderbook_rows rest) part
          ∙ sym (orderbook_rows-append received rest))
      ∙ of_symbol-rows symbol (received ++ rest)

  -- A table that took a first part of the rows that were sent behind what it held.
  pub Part-IsReadable :
      (symbol : ℤ) (received rest : List WriteMsg) (table table' : List OrderbookMessageRow)
      (left : List OrderbookMessageRow) (initial : Option MarketBook)
      → read_rows none (of_symbol symbol table) ≡ ok initial
      → Readable initial (received ++ rest) symbol
      → Part ◌++◌ (orderbook_rows received) left table table'
      → IsReadable table' symbol
  Part-IsReadable symbol received rest table table' left initial before (have, read) part =
      let (reached, read') =
        read_rows-prefix initial have (of_symbol symbol part.done)
          (of_symbol symbol (left ++ orderbook_rows rest))
          (ap (read_rows initial) (stored_split symbol received rest part.done left part.split)
            ∙ read) in
      (
        reached,
        ap (λ l. read_rows none (of_symbol symbol l)) part.there
            ∙ ap (read_rows none) (of_symbol-append symbol table part.done)
            ∙ read_rows-append none initial (of_symbol symbol table) (of_symbol symbol part.done)
                before
            ∙ read',
      )

module _ ⦃d : Decimals⦄ ⦃c : Chrono⦄ ⦃s : Serde⦄ ⦃f : Floats⦄ ⦃b : Database⦄ (cache : IntMap ℤ)
    (injective : IsInjective cache) where
  -- If no two markets have one symbol and a reader accepts every row of a symbol that the table of
  -- order-book messages holds when the process starts, then over any number of connections, whatever
  -- each of them meets, and whatever the writer meets while it receives any first part of the rows that
  -- were sent, also where it exits, a reader of the stored rows of the symbol accepts every one of them.
  pub stored_rows-IsReadable :
      (market_ids : List ℤ) (connections : List (Bool × List Event)) (session : Session)
      (symbol : ℤ) (events : List WriterEvent) (rest : List WriteMsg) (db : b.Db)
      → session.sent ≡ []
      → messages_of events ++ rest ≡ (reconnect_loop market_ids cache connections session).sent
      → IsReadable (b.orderbook_messages db) symbol
      → IsReadable
          (b.orderbook_messages (writer_task events (record { batch = []; db = db })).1.db)
          symbol
  stored_rows-IsReadable ids connections session symbol events rest db fresh all (initial, before) =
      let (_, (lost, part)) = writer_task-prefix events (record { batch = []; db = db }) in
      Part-IsReadable symbol (messages_of events) rest (b.orderbook_messages db) _ lost initial
        before
        (subst (λ sent. Readable initial sent symbol) (sym all)
          (rows_readable cache initial injective ids connections session symbol fresh))
        part
