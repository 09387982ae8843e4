-- ===== src/Lib.antt =====
-- Pulse, an alerting backend for prices on Hyperliquid, and what is proved of it.
--
-- The program has two processes over one database. The worker (worker/) reads candles from the
-- exchange, stores them, evaluates the users' rules on each candle, and sends the alerts that fire to
-- webhooks; a background task sends again what failed. The API (api/) lets users manage rules and read
-- alerts.
--
-- Which file models what:
--   Prelude       shared names: lists, options, Python's exceptions and slices, integers, texts
--   Config        the settings and the lists they hold (worker/config.py, api/config.py)
--   Db            the tables (db/models/), the session, and the world that the code reads and writes:
--                 clock, random numbers, identifiers, POSTs. An action is a function of that world
--                 that may raise. Engine and Url are db/base.py and the URLs of the other programs.
--   Numerics      Python's float and Decimal as an interface, with the order facts that theorems use
--   Dispatch      worker/dispatch/: dispatcher.py, discord.py, webhook.py; Dispatch.Retry is retry.py
--   Evaluate      worker/evaluate/: Indicators, Rules, and Engine for cooldown, idempotency window and
--                 the creation of alerts
--   Ingest        worker/ingest/: Market is the parser and the REST client, Stream a WebSocket
--                 connection, Reconnect the loop over connections, Poll the poll mode, Client the
--                 choice between the two, Cursor the cursors
--   Worker        worker/main.py: the pipeline from a candle to its alerts
--   Api           api/: RateLimit is ratelimit.py, Auth is middleware/auth.py and dependencies.py, Rules is
--                 models/rule.py and routes/rules.py, Reads is routes/alerts.py, candles.py and
--                 health.py; Keys is scripts/create_api_key.py, and App the application of main.py
--   Schema        db/migrations/versions/: the revisions, and the tables of db/models/ as
--                 declarations; Environment is db/migrations/env.py
--   System        the worker's candles, the passes of the retry task and the requests for rules over one
--                 database, in any order: the invariant of every world that can be reached. Resume is
--                 the worker started again on the cursors that it left (Worker.Cursors)
--   Startup       wait_for_db.py
--   Tests         the theorems at concrete inputs
-- The functions keep the names of the source. Below a file stand the modules with its theorems.
--
-- Times are microseconds since the epoch, identifiers are numbers in the order in which they are made,
-- and a Numeric(20, 8) column is an integer in units of its last decimal. A flush raises
-- IntegrityError exactly for a duplicate under a unique constraint, a missing foreign key or a rule's
-- name that is null.
-- What a webhook accepts, what the exchange answers, the clock, the random numbers and the arithmetic
-- of floats are parameters, so the theorems hold for every behaviour of theirs that the stated
-- hypotheses allow. There is no fuel: every loop over data is structural, and the endless loops
-- (the stream and the retry scheduler) are lists of what arrives and relations of turns and passes.
-- The poll mode counts its rounds, and the wait for the database its 60 tries, as the code does.
--
-- Redis, the hash of API keys, the match of a path to a route and CORS are parameters as well.
--
-- Not modelled: lost database connections, values that do not fit their column, times before 1970,
-- a negative rate of an API key, the order of rows that a query leaves open, process start-up and
-- shutdown, logging, and interleavings inside a dispatch or a turn of the retry task; a turn between
-- the commit and the dispatch of an alert is in Dispatch.Race.
pub mod Prelude
pub mod Config
pub mod Db
pub mod Numerics
pub mod Dispatch
pub mod Ingest
pub mod Evaluate
pub mod Worker
pub mod Api
pub mod Schema
pub mod System
pub mod Startup
pub mod Tests
