-- ===== src/Lib.antt =====
-- A verification library of the wallet ledger platform: a FastAPI service that keeps wallets in
-- PostgreSQL, moves money by double entry, and announces every movement through a transactional
-- outbox.
--
-- Parts, and the files that model them (paths of the program from the repository's root):
--   Schema            the mapped rows and enums of app/db/models; Schema/Requests and
--                     Schema/Responses the bodies of app/schemas
--   Database          the tables, and what their constraints make of an INSERT or an UPDATE
--   Session           a SQLAlchemy session (app/db/session.py): flush, commit, rollback, the errors
--   Repositories      app/repositories, one child for each repository; Repositories/Wallets/Locks
--                     is about the ordered row locks, Repositories/Wallets/Deadlock about several
--                     sessions that take them at once
--   Ledger            LedgerService of app/services/ledger_service.py: deposit, transfer, withdraw;
--                     Ledger/Posting says what rows an operation writes, and Ledger/Deposit,
--                     Ledger/Withdraw and Ledger/Transfer treat the operations on every branch
--   WalletService     app/services/wallet_service.py
--   Users             app/services/user_service.py
--   Reconciliation    app/services/reconciliation_service.py
--   Publisher         OutboxPublisher and its loop (app/events/publisher.py); Publisher/Drain is
--                     about its rounds one after the other
--   Pipeline          the outbox, the topic that the rounds of the publisher fill, and the rollup
--   Notifications     NotificationConsumer (app/events/consumer.py) and its process
--                     (app/events/run_consumer.py); Notifications/Restarts is about such processes
--                     one after the other, each with an empty set of what it has seen
--   Analytics         AnalyticsService (app/services/analytics_service.py), with the inbox and the
--                     rollup of Repositories/Processed and Repositories/Stats; Analytics/Exact
--                     compares the rollup with a recount of the events; Analytics/Loop is the loop of
--                     app/events/run_analytics_consumer.py, and Analytics/Overlap is about two
--                     consumers that update one row at once
--   Cache             BalanceCache (app/cache/redis_cache.py)
--   Api               the wallet routes (app/api/routes/wallets.py): status codes, cache, pages;
--                     Api/Coherent is about the cache, Api/Opened about the creation of a
--                     wallet and then its balance
--   Auth              app/core/security.py, app/api/routes/auth.py and app/api/deps.py
--   Accounts          the user routes (app/api/routes/users.py, app/schemas/user.py)
--   Jobs              app/jobs
--   Migrations        the scripts of alembic/versions as lists of operations, and the tables of the
--                     models; Migrations/Undo goes back, Migrations/Head compares with the models
--   Observability     app/api/middleware.py, app/core/logging.py, app/core/metrics.py and the probes
--                     of app/main.py
--   Invariant         what holds of the committed database between requests, and what keeps it
--   History           sequences of requests, publisher rounds and deliveries
--   Tests             a sample database and runs on it
--
-- A method of a service is a function of its arguments into `Exec`, a session to a result and
-- a session; `with_session` is a whole request, from the committed database at its start to
-- the one at its end. The uuids and times that the code draws are arguments. Ids are numbers.
-- Sessions run at READ COMMITTED. What other sessions commit while a request waits for a row
-- lock or for the entry of a unique index, or between the two SELECTs of the reconciliation,
-- is an arbitrary function of the database, applied at the first wait of the request. Amounts
-- and balances are integers without a bound in the services, as in Python; that a column is a
-- BIGINT is a condition of the statement that writes it. The Kafka producer is a parameter,
-- the report on each message when its flush returns; so is the handler of the notifications.
-- Except in Analytics/Overlap, the analytics consumer and the publisher are each the only one
-- at work on a row between its SELECT and its UPDATE. The loops of the code run over lists, so
-- that the definitions are structural and need no fuel; of the endless loop of the publisher
-- one round is a definition, and a history repeats it; so many rounds on end are a recursion
-- on their number. `lineage` follows `down_revision` on fuel, of which eight steps reach the
-- first script from the last. Where several sessions lock rows at once, the state is the list
-- of the sessions with what each holds and wants, and a step is one session's. The sequence
-- behind `ledger_entries.seq` goes back with a session that fails, where PostgreSQL leaves a
-- gap; only its order is used.
--
-- Not modelled: the letters beyond ASCII in `str.upper`, connection failures, deadlock
-- detection, the rows that a migration finds, and the parts of the program that are not named
-- above: the settings, the other entry points, the runner of Alembic, the Airflow and
-- Kubernetes files. The password hash, PyJWT, the text of a uuid and the check of an address
-- are parameters. So is the Redis client, with what Redis documents of GET, SETEX and DEL as
-- its laws, and the application behind the middleware. What PostgreSQL makes of a schema
-- operation is written out on a catalog of tables, with the refusals that the scripts could
-- meet. The `updated_at` of a wallet, which the balance answer shows, is left out.
pub mod Base
pub mod Schema
pub mod Database
pub mod Session
pub mod Repositories
pub mod Ledger
pub mod Migrations
pub mod Observability
pub mod WalletService
pub mod Users
pub mod Reconciliation
pub mod Invariant
pub mod Analytics
pub mod Notifications
pub mod Publisher
pub mod Pipeline
pub mod Cache
pub mod Api
pub mod Auth
pub mod Accounts
pub mod Jobs
pub mod History
pub mod Tests
