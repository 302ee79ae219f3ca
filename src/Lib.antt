-- ===== src/Lib.antt =====
-- The wager processor: players' wallets, the ledger of their movements, the commands BET, WIN, LOSS,
-- REFUND and ROLLBACK that game providers send, and the events that tell others of them.
--
-- src/domain holds the values and their rules, and needs no database. src/wagering processes one
-- command in one transaction: it inserts the wager under its idempotency key, locks the wallet,
-- lets the domain compute the movement, writes balance, ledger entry and status, and puts the
-- events into the outbox table. src/messaging brings the commands from a queue, each delivery
-- counted in the inbox table within the transaction of its command, and sends the events of the
-- outbox to another queue. src/wallets creates wallets, and reads and reconciles the ledger.
--
--   Prelude      shared names: lists, options, results, Boolean tests, texts as code points
--   Domain       src/domain
--     Amount, Decimal, Money    money.ts; decimal.js is a parameter (`DecimalOps`) with its
--                               documented behaviour as hypotheses (`IsDecimal`), which
--                               Decimal/Exact meets
--     LedgerEntry, Wallet, WagerTransaction, Events, CanonicalJson, Errors    the files so named;
--                               the JSON of an event is in Events/Envelope
--   Database     the tables as lists of rows (Rows), transactions that read, write, draw
--                identifiers and throw (Tx), and lemmas on keyed tables (Tables)
--   Http         what the handlers of the HTTP routes return
--   Wagering     src/wagering
--     Submission, Controller    dto/submit-wager.dto.ts and wagering.controller.ts
--     Types, Repository         process-wager.types.ts and wager.repository.ts (the movements in
--                               Repository/Movements), one function per statement, with the
--                               constraints of migrations/*.sql as guards
--     Failures, Payload         how process-wager.ts classifies errors, checks its input, hashes
--                               it and builds its results
--     Effects, References, ProcessWager    the class ProcessWager, method by method
--     Keeps, Dispatch, Atomic   rules on database work, the branches of `execute` walked once, and
--                               what the transaction and the `catch` leave behind
--     LeavesInbox               that no statement of a command touches the inbox
--     PendingReferenceWorker    pending-reference.worker.ts
--     Replay, Batch, Books      theorems on used keys, on the batches of the worker, and on wallets
--                               and ledger
--   Wallets      wallet.repository.ts of src/infrastructure/database and wallet-creation.service.ts
--                of src/wallets (Creation), with the theorem on them (Balances, Opening);
--                ledger-cursor.ts (Cursor), ledger.repository.ts (Pages, Ledger), and
--                wallets.controller.ts (Controller)
--   Messaging    src/messaging
--     Shutdown                  consumer-shutdown.ts
--     Inbox, Requests           inbox.repository.ts, and how a message is read
--     CommandHandler            command-message-handler.ts, over ProcessWager and Inbox
--     CommandConsumer           command-consumer.ts, over CommandHandler and Shutdown
--     Outbox, SendErrors        outbox.repository.ts; classifySendError and backoffSeconds
--     Jobs, Publisher           outbox-publisher.ts, over Outbox and Shutdown: its work, and the class
--   Tests        a small database, runs on it, and the theorems at these inputs
--
-- State and operations. A method of the source is a function of the same name in snake case. A
-- method that queries is a `Tx`: it takes the tables and returns an outcome and the tables, an
-- exception being a value of `Thrown`. `uuidv7`, SHA-256 and decimal.js are the fields of `Env`.
-- The work of the publisher is a `Job`, which also looks at the shutdown flag and calls the
-- broker; when a shutdown is signalled, what the broker answers, which refused
-- sends it has accepted all the same, which statements fail and which commits are lost (and then
-- did not happen) are the fields of `Outside`, arbitrary functions of the number of the look, the
-- send, the statement and the transaction. JSON.parse and the formats of zod are the fields of `Formats`, and
-- what reads and writes a cursor those of `CursorCodec` and `QueryFormats`. A route is a
-- `Handler`: an answer or an `HttpError`. The groups that the consumer runs concurrently are the
-- relation `Interleaves`, between whole messages.
--
-- Bounds. Recursion is on lists and texts, on the rows left in a batch of the worker or of the
-- publisher, whose loops end after at most that many rounds, and in `run_loop` on the number of the
-- rounds, since the loop of the publisher ends with the process. NUMERIC(18,2) bounds every
-- stored amount below 10^18 hundredths, which keeps sums of two below the 20 digits of decimal.js.
-- Times are whole microseconds, as in the tables.
--
-- Not modelled: transactions that interleave (row locks serialise those of one wallet, so
-- transactions run one after another here), a commit of the command handler that fails, the timers
-- that race against the loops as the process closes, metrics, logs, the routing of HTTP and its
-- guard, which lets every request pass, the loop in main.ts around the pending-reference worker, and
-- the declarations for the framework.
pub mod Prelude
pub mod Domain
pub mod Database
pub mod Http
pub mod Wagering
pub mod Wallets
pub mod Messaging
mod Tests
