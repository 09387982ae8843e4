-- ===== src/Evaluate.antt =====
-- worker/evaluate/: the indicators, the six rules and the engine that turns a candle into alerts.
pub mod Indicators
pub mod Rules
pub mod Engine
