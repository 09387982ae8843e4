-- ===== src/Ingest.antt =====
-- worker/ingest/: the market data client and the cursors.
pub mod Market
pub mod Stream
pub mod Poll
pub mod Reconnect
pub mod Client
pub mod Cursor
