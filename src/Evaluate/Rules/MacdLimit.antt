-- ===== src/Evaluate/Rules/MacdLimit.antt =====
-- The MACD rule (worker/evaluate/rules/macd_cross.py) reads the last 50 candles only.
use hyperliquid_trading_aler.Numerics.{Numerics}
