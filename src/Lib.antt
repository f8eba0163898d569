-- ===== src/Lib.antt =====
-- The market-data ingestor for Lighter, a perpetuals exchange: model and theorems.
--
-- The program keeps one WebSocket connection to the exchange. It subscribes to the order book and
-- the trades of every market, keeps each market's book from a snapshot and the deltas that follow
-- it, and hands a row for every order-book message, every trade, and every book at a timer to a
-- writer task, which stores them in batches. A second task polls settled funding over HTTP. A command
-- exports the stored rows as Parquet files.
--
--   * Base: integers, texts, results and actions, and association lists for `HashMap`.
--   * OrderedMap: `BTreeMap`, as the sorted list of its entries.
--   * Wire, Wire/Channel, Wire/Market, Wire/Account: the message types of crates/lighter-rs-types/src and
--     their `market_id`. Wire/Channel/Render prints a market's number and reads it back.
--   * External: interfaces, with their documented laws, for what is not in the repository:
--     decimals (bigdecimal), instants (chrono), JSON (serde_json) and `f64`.
--   * Models: the rows of src/models.rs.
--   * Symbols: `upsert_symbol`, `load_symbol_cache` and `load_perp_markets` of src/lib.rs and
--     `sync_symbols` of src/main.rs, over an interface to Postgres: its upsert and its transaction.
--     Symbols/Upsert, Sync and Cache follow a market from the exchange's reply into the cache.
--   * Book and its children: src/book.rs. `Book.from_snapshot`, `apply_delta`, `bids` and `asks` are
--     the functions of those names; an error of `apply_delta` returns the book as it was left.
--   * Ws: the books of a connection and `apply_orderbook_message`, `orderbook_row`,
--     `book_snapshot_row` and `missing_books` of src/ws.rs. Ws/Session: one connection,
--     `run_ws_ingestion`, as a fold over the events that its `select!` meets, and the reconnect loop
--     of src/main.rs over the connections that are made. Ws/Accept says which messages are applied, and
--     Ws/Says what they leave. Ws/Reader is a reader of the stored rows in the order of insertion, which
--     checks what README.md tells a reader to check; Ws/ReaderStep, Rows, Stream, Connections and Replay lead to
--     what such a reader may rely on, and Ws/Chain says it of the rows themselves. Ws/Shape and Sends
--     follow what a connection hands to the writer, Ws/Trades what a frame of trades does, and
--     Ws/Snapshots what the timer does.
--   * Table: a table with a unique index, and an insert that skips the rows whose key it holds.
--   * Database: the inserts of src/lib.rs, over an interface to Postgres: a statement that fails
--     inserts nothing; the insert of trades skips the trades that are there.
--   * Writer: `writer_task` and `flush` of src/ws.rs, as a fold over the events of its `select!`; an
--     exit of the process is an error. Writer/Splits tells the trades and the rows of the messages apart by a
--     relation; Inserts, Accounts and Delivery follow each row from the channel into its table, and Writer/Replay joins the stream to the tables.
--   * Funding: src/funding.rs: the hourly grid of requests, the parsing of a response and the checks of
--     a page. A panic is an error. Funding/Grid and Start follow the grid, Funding/Page the checks.
--     Funding/Poll is the poll of one market, `poll_market`, over the rounds that its loop makes, with
--     Times and Fresh for the order of its rows, Takes and Stored for what the table gets of them, and
--     Ordered for the order of the table.
--     Funding/Poller is `run_funding_poller`, the loop over the markets; a pass that ends with its list
--     of rounds stands for a poll that has met no more.
--   * Export: src/export.rs: `export_parquet` and all it calls. Export/Filter writes the `WHERE` clause,
--     its child Quoting reads it back, and Asks says
--     what it asks for. Export/Rows are the batches, Export/Files the interface to
--     the file system and the Parquet writer, Export/Loop the loop that fills and writes batches.
--     Holds, Writes and Loop/Groups follow the rows into the files; Frame, Guards and Unknown are about
--     the files that stay as they are, Contents and Complete about what an export leaves.
--   * Main: `main` of src/main.rs up to its loops: the environment, the arguments, the export or the
--     settings and the start. Main/Start joins the start to the stream and the tables, Main/Dispatch
--     says when a run comes to the loops, Main/Untouched what it leaves as it is.
--   * Process: the loop of `main` and the writer side by side, with the channel between them, as a step
--     relation. Process/Delivery and Safety are about any moment of a process, Process/Drain about what
--     the writer can still do, Process/Loop and Refines join the steps to the two loops run by
--     themselves, and Process/Restart is about one process after the other
--     on the same tables, each of which may end at any moment.
--   * Instances: concrete decimals, instants, JSON and floats for the examples; Export/Memory is a file
--     system for those of the export.
--
-- An order of events is an explicit list, and an order of the two tasks a path of steps: a theorem about
-- all of them holds for every interleaving of frames, timers, flushes, a dropped receiver and a broken
-- socket. A handler that waits for room in the channel is one step: what the writer takes meanwhile it
-- may as well take afterwards. A loop over events is structural, so no
-- fuel is needed. `HashMap` iterates in the order of the association list, and the theorems hold for
-- every such list. Error values name the place that raised them and leave the texts out.
--
-- Not modelled: color_eyre::install, the join error of a blocking task, logging, sleeping, the capacity of the channel, the parsing of the arguments, the URLs of
-- the requests, the chunks that TimescaleDB drops from the tables by age, the schemas of the Parquet files, and
-- src/schema.rs, which diesel generates. A query of src/lib.rs or src/export.rs is an answer of the
-- interface to Postgres; that its tables keep their keys is a law or a hypothesis there.
pub mod Base
pub mod OrderedMap
pub mod Table
pub mod Wire
pub mod External
pub mod Models
pub mod Symbols
pub mod Book
pub mod Ws
pub mod Database
pub mod Writer
pub mod Funding
pub mod Export
pub mod Main
pub mod Process
pub mod Instances
