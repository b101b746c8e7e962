-- ===== src/Lib.antt =====
-- Verification of a distributed wagering backend: players' wallets with a ledger, transactions that
-- game providers submit over HTTP or a queue, and an outbox of the events that they cause.
--
-- The parts, each with the code that it follows:
-- - Prelude: lists, texts, integers and the lemmas that the other parts share. A text is the list of
--   its UTF-16 code units; a `bigint` is an integer without bounds over the native numbers.
-- - Kernel: src/shared/kernel. `Kernel.Errors` has the error classes and the results of code that
--   throws, `Kernel.Money` the class `Money` (`Kernel.Money.Decimal`: its decimal strings),
--   `Kernel.Event` the integration events. A `Date` is its number of milliseconds.
-- - Wallets: src/wallets. `Wallets.Wallet` and `Wallets.LedgerEntry` follow the domain classes,
--   `Wallets.Rows` the entities and mappers, `Wallets.Repository` both repositories, `Wallets.Open`
--   and `Wallets.Reconcile` the use cases open-wallet and reconcile-wallet, `Wallets.Http` the
--   controller with its views, `Wallets.Ledger` the page of the ledger.
-- - Pagination: src/shared/pagination/cursor.ts.
-- - Wagering: src/wagering. `Wagering.Transaction` follows wager-transaction.ts,
--   `Wagering.Resolution` reference-resolution.ts and `resolveReference`, `Wagering.Finalizer` the rest
--   of wager-transaction-finalizer.ts, `Wagering.Submit` and `Wagering.Reprocess` the use cases
--   submit-wager-transaction and reprocess-pending-references,
--   `Wagering.PayloadHash` and `Wagering.Json` payload-hash.ts and canonical-json.ts,
--   `Wagering.Row` and `Wagering.Repository` the entity, the mapper and the repository.
--   `Wagering.Parse` and `Wagering.Consume` follow parse-wager-transaction-message.ts and the use case
--   consume-wager-transaction-batch, `Wagering.Http` the controller with its views.
-- - Messaging: src/messaging, the messages of the outbox and the inbox, their mappers
--   (`Messaging.Rows`) and their repositories; `Messaging.Sqs` the port of the queue and its client,
--   `Messaging.Publish` the use case publish-outbox-batch.
-- - Worker: src/shared/scheduler/repeating-task.ts with the timers of the event loop as a step
--   relation, and src/worker-scheduler.service.ts.
-- - Http: src/shared/http, the filter that answers domain errors, and the guard of the routes.
-- - Metrics, Health and Logging: src/shared/metrics/prometheus-metrics.service.ts over prom-client as an
--   interface, src/health, and src/shared/logging/log-context.ts with the middleware that sets the
--   correlation id.
-- - System: requests and runs of the worker's tasks, one after the other.
-- - Persistence: what the code uses of MikroORM and PostgreSQL. `Persistence.Table` is an interface
--   of a table as a unit of work sees it, with laws that state what its queries give and what its
--   writes do; `Persistence.World` puts the tables, `flush`, `newId` and the hash function together
--   as a platform, over which every use case is written; `Persistence.Effect` has the sequencing,
--   `try`, and `em.transactional`, which rolls back what was written when its body or its flush
--   throws. `Persistence.Balanced` states the invariant that ties the wallets to the ledger.
--   `Persistence.Schema` has the unique constraints and the checks of migrations as tests that run,
--   `Persistence.Schema.Triggers` its triggers on updates; `Persistence.Schema.Evolves` and `Writes`
--   relate a table, and the database, to what it was before.
-- - Examples: a platform whose tables are lists, a small state, and the theorems at work on it.
--
-- How they interact: `Submit.execute` runs `process_new` in a transaction. That locks the wallet,
-- claims a row for the transaction (the flush throws if its idempotency key is taken), and lets the
-- finalizer resolve a reference and apply, reject or park the transaction; the finalizer moves the
-- wallet, writes the ledger row, and puts the events in the outbox. A method that mutates an object
-- returns the new object here, and the callers go on with that one. `Reprocess.run` takes the parked
-- transactions up again.
--
-- The consumer calls the same use case within its own transaction: what the inner one rolls back is
-- undone to where it began. It deletes a message from the queue only after its transaction. The
-- publisher sends the due messages of the outbox in a transaction of its own. Amazon SQS, the JSON
-- parser and the check of a token are parameters.
--
-- Bounds: every loop of the program goes over a list, and is structural recursion on it. The client
-- that follows the cursors of a ledger, which is not of the program, asks at most a given number of
-- times; one more than the wallet has entries is enough. The clock is an argument of the use cases.
--
-- The database is a parameter. Where a theorem needs it, `EnforcesUnique` says that a flush that goes
-- through leaves no two rows with equal unique keys, as PostgreSQL documents; the checks and the
-- triggers are not assumed. A trigger sees a row as the last flush left it and as it is now.
--
-- Not modelled: foreign keys and the types of columns, locks and the interleaving of transactions
-- (each use case runs on the state that its transaction sees), validation of request bodies by a
-- library, the calls that observe a histogram or write a line of the log, and the wiring.
pub mod Prelude
pub mod Kernel
pub mod Wallets
pub mod Worker
pub mod Http
pub mod System
pub mod Metrics
pub mod Health
pub mod Logging
pub mod Pagination
pub mod Wagering
pub mod Messaging
pub mod Persistence
pub mod Examples
