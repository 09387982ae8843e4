-- ===== src/Worker.antt =====
-- worker/main.py: each candle of the stream is stored, moves its symbol's cursor, and goes through the
-- rules of its symbol; an alert that fires is dispatched at once.
pub mod Invariant
pub mod Candles
pub mod Loop
pub mod Cursors
use hyperliquid_trading_aler.Prelude.{
  ℕ, String, Bool, true, false, ◌&&◌, ◌==◌, Option, none, some, Exn, integrity_error, Result, ok,
  err, List, [], ◌∷◌, find, select, map, str_eq, if◌then◌else◌, is_true,
}
use hyperliquid_trading_aler.Config.{WorkerSettings}
use hyperliquid_trading_aler.Numerics.{Numerics}
use hyperliquid_trading_aler.Db.{
  Env, Database, World, M, pure, raise, except, ◌>>=◌, ◌>>◌, gets, modify, commit, rollback, uuid4,
  utcnow,
}
use hyperliquid_trading_aler.Db.Rows.{Rule, Alert, CandleModel}
use hyperliquid_trading_aler.Ingest.Market.{Candle}
use hyperliquid_trading_aler.Ingest.Cursor.{update_cursor}
use hyperliquid_trading_aler.Evaluate.Engine.{evaluate}
use hyperliquid_trading_aler.Dispatch.{dispatch}

-- The unique constraint `uq_candle_symbol_time_interval` (db/models/candle.py).
abbrev pub same_candle : CandleModel → CandleModel → Bool
same_candle a b =
    str_eq a.symbol b.symbol
    && (a.timestamp == b.timestamp && a.interval_seconds == b.interval_seconds)

-- The flush of a new candle's row.
unfoldable pub insert_candle : CandleModel → M (Unit {0})
insert_candle c w = elim (find (same_candle c) w.db.candles) [
  | some _ ↦ raise integrity_error w
  | none ↦ modify (λ db. record db { candles = c ∷ db.candles }) w
]

module _ (env : Env) (num : Numerics) where
  open num use {numeric_of_decimal}

  abbrev pub candle_row : ℕ → ℕ → Candle num → CandleModel
  candle_row k created candle = record {
    id = k;
    symbol = candle.symbol;
    timestamp = candle.timestamp;
    open_ = numeric_of_decimal candle.open_;
    high = numeric_of_decimal candle.high;
    low = numeric_of_decimal candle.low;
    close = numeric_of_decimal candle.close;
    volume = elim candle.volume [ none ↦ none | some v ↦ some (numeric_of_decimal v) ];
    interval_seconds = candle.interval_seconds;
    created_at = created;
  }

  unfoldable pub save_candle : Candle num → M (Unit {0})
  unfolding insert_candle
  save_candle candle = do
    k ← uuid4
    created ← utcnow env
    except (do insert_candle (candle_row k created candle); commit) (λ _. rollback)

  -- `load_active_rules`
  unfoldable pub load_active_rules : Database → List Rule
  load_active_rules db = select (λ (r : Rule). is_true r.is_active) db.rules

  -- The `try` of the inner loop: an exception rolls the session back and goes on.
  unfoldable pub process_rule : Candle num → Rule → M (Unit {0})
  process_rule candle rule =
      except
        (do
          alert ← evaluate env num rule candle
          elim alert [ none ↦ pure tt | some a ↦ dispatch env a ])
        (λ _. rollback)

  unfoldable pub process_rules : Candle num → List Rule → M (Unit {0})
  process_rules candle [] = pure tt
  process_rules candle (r ∷ rest) = process_rule candle r >> process_rules candle rest

  -- `symbol_rules`
  unfoldable pub rules_of : Candle num → List Rule → List Rule
  rules_of candle rules =
      select (λ (r : Rule). str_eq r.symbol candle.symbol && is_true r.is_active) rules

  module _ (cfg : WorkerSettings) where
    -- The body of `async for candle in hyperliquid.stream()`.
    unfoldable pub process_candle : List Rule → Candle num → M (Unit {0})
    process_candle rules candle = do
      save_candle candle
      update_cursor env cfg candle.symbol candle.timestamp
      process_rules candle (rules_of candle rules)

    unfoldable pub process_stream : List Rule → List (Candle num) → M (Unit {0})
    process_stream rules [] = pure tt
    process_stream rules (c ∷ rest) = process_candle rules c >> process_stream rules rest

    -- `main_loop`, on the candles that the stream yields.
    unfoldable pub main_loop : List (Candle num) → M (Unit {0})
    main_loop candles = do rules ← gets load_active_rules; process_stream rules candles
