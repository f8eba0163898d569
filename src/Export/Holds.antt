-- ===== src/Export/Holds.antt =====
-- src/export.rs: the rows that a batch holds after its pushes.
use lighter_timescaledb_inge.Base.{
  suc, ◌≡◌, refl, sym, ap, ◌∙◌, subst, Option, none, some, List, [], ◌∷◌, ◌++◌, map, length, Text,
  ok, ok_or, and_then, ok-injective, export_failed,
}
use mathlib.Core.List.{map-append}
use lighter_timescaledb_inge.External.{Chrono, Serde, Floats}
use lighter_timescaledb_inge.Export.Rows.{
  TradeSelected, TradeBatch, trades_len, push_trade, MessageSelected, OrderbookBatch, new_messages,
  messages_len, push_message,
}

length-map {ℓ κ} :
    {A : Type ℓ} {B : Type κ} (f : A → B) (xs : List A) → length (map f xs) ≡ length xs
length-map f [] = refl
length-map f (x ∷ xs) = ap suc (length-map f xs)

module _ ⦃c : Chrono⦄ ⦃f : Floats⦄ where
  -- The columns of the rows.
  abbrev pub trades_columns : List TradeSelected → TradeBatch
  trades_columns rows = record {
    times = map (λ row. c.timestamp_micros row.time) rows;
    symbols = map (λ row. row.name) rows;
    ids = map (λ row. row.lighter_trade_id) rows;
    prices = map (λ row. row.price) rows;
    sizes = map (λ row. row.size) rows;
    makers = map (λ row. row.is_maker_ask) rows;
    kinds = map (λ row. row.trade_type) rows;
  }

  pub trades_len_lem :
      (g : List TradeSelected) (batch : TradeBatch)
      → batch ≡ trades_columns g
      → trades_len batch ≡ length g
  unfolding trades_len
  trades_len_lem g batch h =
      ap (λ b. length b.times) h ∙ length-map (λ row. c.timestamp_micros row.time) g

  pub push_trade_lem :
      (g : List TradeSelected) (row : TradeSelected) (batch batch' : TradeBatch)
      → batch ≡ trades_columns g
      → push_trade row batch ≡ ok batch'
      → batch' ≡ trades_columns (g ++ row ∷ [])
  unfolding push_trade
  push_trade_lem g row batch batch' h e =
      sym (ok-injective (added batch) batch' e) ∙ ap added h ∙ simp (map-append)
    where
      added : TradeBatch → TradeBatch
      added batch = record {
        times = batch.times ++ c.timestamp_micros row.time ∷ [];
        symbols = batch.symbols ++ row.name ∷ [];
        ids = batch.ids ++ row.lighter_trade_id ∷ [];
        prices = batch.prices ++ row.price ∷ [];
        sizes = batch.sizes ++ row.size ∷ [];
        makers = batch.makers ++ row.is_maker_ask ∷ [];
        kinds = batch.kinds ++ row.trade_type ∷ [];
      }

module _ ⦃c : Chrono⦄ ⦃s : Serde⦄ where
  -- The rows of a batch: their columns, with the levels as texts.
  pub record MessagesHold (g : List MessageSelected) (batch : OrderbookBatch) : Type 0 where
    pub times : batch.times ≡ map (λ row. c.timestamp_micros row.time) g
    pub symbols : batch.symbols ≡ map (λ row. row.name) g
    pub types : batch.types ≡ map (λ row. row.message_type) g
    pub sequences : batch.sequences ≡ map (λ row. row.sequence) g
    pub bids : map some batch.bids ≡ map (λ row. s.to_string row.bids) g
    pub asks : map some batch.asks ≡ map (λ row. s.to_string row.asks) g

  pub MessagesHold-new : MessagesHold [] new_messages
  unfolding new_messages
  MessagesHold-new = record {
    times = refl;
    symbols = refl;
    types = refl;
    sequences = refl;
    bids = refl;
    asks = refl;
  }

  pub messages_len_lem :
      (g : List MessageSelected) (batch : OrderbookBatch)
      → MessagesHold g batch
      → messages_len batch ≡ length g
  unfolding messages_len
  messages_len_lem g batch h = ap length h.times ∙ length-map (λ row. c.timestamp_micros row.time) g

  -- A column behind one more row.
  column_add {ℓ} :
      {A : Type ℓ} (column : MessageSelected → A) (g : List MessageSelected) (row : MessageSelected)
      (l : List A)
      → l ≡ map column g
      → l ++ column row ∷ [] ≡ map column (g ++ row ∷ [])
  column_add column g row l h =
      ap (λ l. l ++ column row ∷ []) h ∙ sym (map-append column g (row ∷ []))

  text_add :
      (column : MessageSelected → Option Text) (g : List MessageSelected) (row : MessageSelected)
      (l : List Text) (t : Text)
      → map some l ≡ map column g
      → column row ≡ some t
      → map some (l ++ t ∷ []) ≡ map column (g ++ row ∷ [])
  text_add column g row l t h e =
      map-append some l (t ∷ [])
      ∙ ap (λ x. map some l ++ x ∷ []) (sym e)
      ∙ column_add column g row (map some l) h

  pub push_message_lem :
      (g : List MessageSelected) (row : MessageSelected) (batch batch' : OrderbookBatch)
      → MessagesHold g batch
      → push_message row batch ≡ ok batch'
      → MessagesHold (g ++ row ∷ []) batch'
  unfolding push_message
  push_message_lem g row batch batch' h e =
      by_texts (s.to_string row.bids) (s.to_string row.asks) refl refl e
    where
      added : Text → Text → OrderbookBatch
      added bids asks = record {
        times = batch.times ++ c.timestamp_micros row.time ∷ [];
        symbols = batch.symbols ++ row.name ∷ [];
        types = batch.types ++ row.message_type ∷ [];
        sequences = batch.sequences ++ row.sequence ∷ [];
        bids = batch.bids ++ bids ∷ [];
        asks = batch.asks ++ asks ∷ [];
      }

      added-MessagesHold :
          (bids asks : Text)
          → s.to_string row.bids ≡ some bids
          → s.to_string row.asks ≡ some asks
          → MessagesHold (g ++ row ∷ []) (added bids asks)
      added-MessagesHold bids asks hb ha = record {
        times = column_add (λ row. c.timestamp_micros row.time) g row batch.times h.times;
        symbols = column_add (λ row. row.name) g row batch.symbols h.symbols;
        types = column_add (λ row. row.message_type) g row batch.types h.types;
        sequences = column_add (λ row. row.sequence) g row batch.sequences h.sequences;
        bids = text_add (λ row. s.to_string row.bids) g row batch.bids bids h.bids hb;
        asks = text_add (λ row. s.to_string row.asks) g row batch.asks asks h.asks ha;
      }

      by_texts :
          (bids asks : Option Text)
          → s.to_string row.bids ≡ bids
          → s.to_string row.asks ≡ asks
          → and_then
              (ok_or bids export_failed)
              (λ bids. and_then (ok_or asks export_failed) λ asks. ok (added bids asks))
            ≡ ok batch'
          → MessagesHold (g ++ row ∷ []) batch'
      by_texts none asks hb ha e = absurd (cc)
      by_texts (some bids) none hb ha e = absurd (cc)
      by_texts (some bids) (some asks) hb ha e =
          subst (MessagesHold (g ++ row ∷ [])) (ok-injective (added bids asks) batch' e)
            (added-MessagesHold bids asks hb ha)
