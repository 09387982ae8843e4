-- ===== src/System.antt =====
-- The whole program over one database: the worker's candles (worker/main.py), the passes of the retry task
-- (worker/dispatch/retry.py) and the requests of the API (api/routes/rules.py), one after the other.
pub mod Audited
pub mod Sound
pub mod Writes
pub mod Held
pub mod Retries
pub mod Routes
pub mod Candles
pub mod Reach
pub mod Resume
