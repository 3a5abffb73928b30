-- ===== src/Lib.antt =====
-- Verification of artemis-light, a Rust framework for event-driven bots: collectors feed events to
-- strategies, whose actions executors carry out; a persistence layer stores what was collected so
-- that a restart resumes without a gap.
--
-- Parts and files:
--   * Backoff: `Backoff::delay` of src/backoff.rs, which the reconnect policy calls.
--   * Reconnect: the state machine `ReconnectPolicy` of src/engine/reconnect.rs; Reconnect/Signals
--     and Reconnect/Escalation describe it over histories of signals.
--   * Pricing: `Fees`, `price_1559` and `escalate` of src/executors/pricing.rs.
--   * Mempool: src/executors/mempool_executor.rs. Mempool holds `EscalationPercent`, `WatchOutcome`
--     and `ReplacementSchedule`; Mempool/Node the alloy provider as a parameter; Mempool/Loop
--     `send_with_replacement` and `any_mined`; Mempool/Execute `execute` and the fire-and-forget
--     path. It prices by Pricing and replaces at the fees of `escalate`.
--   * Position: the `Position` trait of src/persistence/position.rs with `BlockPosition` and
--     `TimeFrontier` in the children.
--   * Writer: src/persistence/writer. Writer/Core is `GapFreeWriter` of writer/mod.rs, over a
--     parameter `Backend` that stands for the `Store` and the `Record`; Writer/Block is `BlockWriter`
--     of writer/block.rs; Writer/Window is `ConfirmationWindow` of writer/window.rs, with its map of
--     pending groups in Writer/Window/Slots and a whole live tail in Writer/Window/Tail; Writer/Log
--     orders what is stored; Writer/Pipeline is `persist_and_emit` of writer/mod.rs, which sends the
--     settled part of a backfill to the one and the rest, and the live stream, to the other.
--   * Schema, Record: src/persistence/schema.rs and src/persistence/record.rs. Record/Json infers the
--     SQL type and value of each field, with serde_json as a parameter; Record is the record itself,
--     whose inferred columns are frozen by the first event.
--   * Persisted: src/persistence/persisted.rs. Persisted/Source is the collector as a source of ranges
--     with the history that it answers from; Persisted/Split `query_range_split`; Persisted/Chunks
--     `chunked_query` and `backfill_segment`; Persisted/Config the fields, the builders and
--     `resolve_record`; Persisted/Storage the traits `Store` and `PersistableCollector` as parameters,
--     and the `Backend` of Writer that a store and a record make; Persisted/Replay the replay of
--     stored rows; Persisted/Subscribe the whole of `subscribe` as steps that fail with an error, and
--     the reading of its stream through Writer/Pipeline.
--   * Dialect, Query: src/persistence/dialect.rs and query.rs. Dialect holds what SQLite and PostgreSQL do
--     differently, Query every statement as text, with the reading of rows.
--   * SqlStore: src/persistence/sqlstore.rs over a parameter `Sqlx` (SqlStore/Session) for connections,
--     transactions and binding. SqlStore/Write is the write with its migration and its one retry,
--     SqlStore/Read the resume point and the replay. The children SqlStore/Sent, Bound and Does say
--     what is sent in a write; Committed, Resumed and Replayed what comes of it.
--     SqlStore/Ledger keeps a journal beside it, which makes it a `Backend` of Writer, and
--     SqlStore/Writers runs the two writers over it.
--   * Serving: src/serving. Serving holds the errors and the trait `ServingBackend`; Serving/Rows the query
--     parameters of rows.rs; Serving/Routes the handlers of routes.rs; Serving/Catalog both backends,
--     of catalog.rs, rows.rs and backend.rs; Serving/Cells the JSON of json.rs; Serving/Layer the
--     builders of mod.rs and the choice of a backend with pool.rs.
--   * Engine: Engine/Driver is `run` of src/engine/driver.rs, which feeds the policy of Reconnect;
--     Engine/Startup the `Engine` of src/engine.rs and the order in which it starts its parts;
--     Engine/Tasks the loops of its executor, strategy and observer tasks, with the channel adapter
--     of src/engine/channel.rs.
--   * Collectors: Collectors/Combining the chains and fallbacks of src/collector_ext, Collectors/Merging
--     its maps and merges; Collectors/Retries the `FetchRetryQueue` of
--     src/collectors/block_collector.rs, with its poll loop in Collectors/Retries/Polling;
--     Collectors/Logs the event collector of src/collectors/event_collector.rs; Collectors/Lookups those
--     of log_collector.rs, mempool_collector.rs and channel_collector.rs.
--   * Strategies: the strategy wrappers of src/strategy_ext, around a strategy that is a parameter.
--   * Wrappers: the executor wrappers of src/executor_ext, around an executor that is a parameter:
--     Wrappers/Breaker, Wrappers/Retrying, Wrappers/RateLimiting, and the others in Wrappers/Passing.
--   * Tests: concrete runs.
--
-- Conventions: state is passed explicitly; a method that takes `&mut self` returns the next state
-- beside its result. Numbers are native naturals; u32 counters wrap by `% 2 ^ 32`, and the saturating
-- and checked operations of u64 and u128 are written out in Prelude/Words. A duration is its number
-- of nanoseconds. An RPC call under a timeout has three results: a reply, an error, or the timeout.
--
-- Fuel: the loop of `send_with_replacement` runs on `rounds policy = 4 * max_replacements + 4`. It is
-- enough because each submission allows at most three re-watches and one timeout before the next. The
-- loop of `Retry` runs on `max_retries + 1`, one for each attempt. A bisection runs on the width of its
-- range, since a half is narrower and a single position is not halved. The windows of a backfill run
-- on one unit for each position of the gap; they end `running` only where the source's loop does not
-- end, at u64::MAX.
--
-- Streams and time: a stream is the list of its items, and one that is lazily polled is read to its
-- end where it is made; what may fail on the way is recorded in its end. The driver runs over a list
-- of rounds, each of which says how its subscribe, its stream and its sleep come out, so that a
-- cancellation can fall into any of its waits. A clock is read as an argument of the step.
--
-- What the theorems take from outside: `Recorded` says that the setters of a transaction request set
-- their own field and that only a send hands a transaction to the node; `IsFaithful` that a store's
-- write adds its group or, failing, nothing, and that a record has a schema once it has encoded (which
-- Persisted/Storage derives for the records of Record); `AnswersFrom` that a query that is answered
-- is answered with the history of its range; `IsDocumented` what serde_json says of its integers;
-- `AnswersLogs` that a node answers a range with the logs of its blocks in turn; `IsTransactional` that
-- the statements of a transaction run in their order, that a commit makes all of them last at once,
-- and that a transaction that fails or is dropped leaves the database as it was; `SqliteAnswers` and
-- `PgAnswers` how the catalog of each database describes a table.
--
-- Not modelled: the options of the connections (src/persistence/sqlite.rs, postgres.rs), which are calls
-- of sqlx; the binding and the shutdown of `serve`, which are axum's; the order in which a merge polls
-- its streams, the futures crate's; the broadcast channels and the join set, tokio's; the subscriptions
-- of the providers, alloy's; the methods that construct the wrappers
-- (src/executor_ext.rs, strategy_ext.rs, collector_ext.rs); the macro of persisted.rs; logging.
pub mod Prelude
pub mod Backoff
pub mod Reconnect
pub mod Engine
pub mod Pricing
pub mod Mempool
pub mod Position
pub mod Writer
pub mod Schema
pub mod Record
pub mod Persisted
pub mod Wrappers
pub mod Strategies
pub mod Collectors
pub mod Tests
pub mod Dialect
pub mod Query
pub mod SqlStore
pub mod Serving
