-- ===== src/Tests.antt =====
-- The results at concrete inputs, by part.
mod Fixtures
mod Server
mod Migrations
mod Delivery
mod Lifecycle
mod Rules
mod Candles
mod Streams
mod Service
mod System
mod Validation
