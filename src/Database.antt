-- ===== src/Database.antt =====
-- src/lib.rs: the statements that the writer runs. Postgres and diesel are an interface: a statement
-- that fails inserts nothing. The insert of trades skips a row whose time, symbol and trade id are in
-- the table, by the unique index of the migration 2026-09-21-000002_trades_ws_and_dedup.
use lighter_timescaledb_inge.Base.{
  ℕ, ◌≡◌, Bool, ◌&&◌, Option, none, some, List, ◌++◌, database_failed, ok_or, Action,
}
use lighter_timescaledb_inge.Base.Int.{◌==ℤ◌}
use lighter_timescaledb_inge.Table.{insert_new}
use lighter_timescaledb_inge.External.{Chrono, Serde, Floats}
use lighter_timescaledb_inge.Models.{TradeRow, OrderbookMessageRow}

module _ ⦃c : Chrono⦄ ⦃f : Floats⦄ where
  -- The columns of the index `trades_dedup_uniq`.
  unfoldable pub same_trade : TradeRow → TradeRow → Bool
  same_trade a b =
      c.nanos a.time ==ℤ c.nanos b.time
      && a.symbol ==ℤ b.symbol
      && a.lighter_trade_id ==ℤ b.lighter_trade_id

  -- `on_conflict_do_nothing` on the table of trades
  abbrev pub insert_new_trades : List TradeRow → List TradeRow → List TradeRow
  insert_new_trades = insert_new same_trade

module _ ⦃c : Chrono⦄ ⦃s : Serde⦄ ⦃f : Floats⦄ where
  -- The tables as the rows that were inserted, in the order of insertion. `none` is a failure.
  pub record Database : Type 1 where
    pub Db : Type 0
    pub trades : Db → List TradeRow
    pub orderbook_messages : Db → List OrderbookMessageRow
    -- `pool.get()`
    pub get : Db → Option (Unit {0}) × Db
    pub execute_trades : List TradeRow → Db → Option ℕ × Db
    pub execute_orderbook_messages : List OrderbookMessageRow → Db → Option ℕ × Db
    pub get-trades : (db : Db) → trades (get db).1 ≡ trades db
    pub get-messages : (db : Db) → orderbook_messages (get db).1 ≡ orderbook_messages db
    pub trades_inserted :
        (rows : List TradeRow) (db db' : Db) (n : ℕ)
        → execute_trades rows db ≡ (some n, db')
        → (trades db' ≡ insert_new_trades (trades db) rows)
          × (orderbook_messages db' ≡ orderbook_messages db)
    pub trades_failed :
        (rows : List TradeRow) (db db' : Db)
        → execute_trades rows db ≡ (none, db')
        → (trades db' ≡ trades db) × (orderbook_messages db' ≡ orderbook_messages db)
    pub messages_inserted :
        (rows : List OrderbookMessageRow) (db db' : Db) (n : ℕ)
        → execute_orderbook_messages rows db ≡ (some n, db')
        → (trades db' ≡ trades db) × (orderbook_messages db' ≡ orderbook_messages db ++ rows)
    pub messages_failed :
        (rows : List OrderbookMessageRow) (db db' : Db)
        → execute_orderbook_messages rows db ≡ (none, db')
        → (trades db' ≡ trades db) × (orderbook_messages db' ≡ orderbook_messages db)

  module _ ⦃b : Database⦄ where
    abbrev pub get_conn : Action b.Db (Unit {0})
    get_conn db = let (conn, db') = b.get db in (ok_or conn database_failed, db')

    unfoldable pub insert_trades : List TradeRow → Action b.Db ℕ
    insert_trades rows db =
        let (inserted, db') = b.execute_trades rows db in (ok_or inserted database_failed, db')

    unfoldable pub insert_orderbook_messages : List OrderbookMessageRow → Action b.Db ℕ
    insert_orderbook_messages rows db =
        let (inserted, db') = b.execute_orderbook_messages rows db in
        (ok_or inserted database_failed, db')
