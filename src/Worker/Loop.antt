-- ===== src/Worker/Loop.antt =====
-- The main loop (worker/main.py): every step keeps the invariant, whatever the stream yields.
use hyperliquid_trading_aler.Prelude.{◌≡◌, refl, sym, subst, ok, List, [], ◌∷◌, arith}
use hyperliquid_trading_aler.Config.{WorkerSettings}
use hyperliquid_trading_aler.Numerics.{Numerics}
use hyperliquid_trading_aler.Db.{Env, World, M, ◌>>◌}
use hyperliquid_trading_aler.Db.Rows.{Rule}
use hyperliquid_trading_aler.Ingest.Market.{Candle}
use hyperliquid_trading_aler.Ingest.Cursor.{update_cursor}
use hyperliquid_trading_aler.Worker.{
  save_candle, process_rule, process_rules, rules_of, process_candle, process_stream,
  load_active_rules, main_loop,
}
use hyperliquid_trading_aler.Worker.Invariant.{IsConsistent, Kept, process_rule-Kept}
use hyperliquid_trading_aler.Worker.Candles.{save_candle_lem, update_cursor-Kept}

pub then-runs : (m k : M (Unit {0})) (w : World) → (m w).0 ≡ ok tt → (m >> k) w ≡ k (m w).1
then-runs m k w fine = ground arith

then-Kept :
    (m k : M (Unit {0})) (w : World)
    → Kept tt (m w)
    → ((v : World) → IsConsistent v → Kept tt (k v))
    → Kept tt ((m >> k) w)
then-Kept m k w (fine, kept) later =
    subst (Kept tt) (sym (then-runs m k w fine)) (later (m w).1 kept)

module _ (env : Env) (num : Numerics) where
  pub process_rules-Kept :
      (candle : Candle num) (rules : List Rule) (w : World)
      → IsConsistent w
      → Kept tt (process_rules env num candle rules w)
  unfolding process_rules
  process_rules-Kept candle [] w kept = (refl, kept)
  process_rules-Kept candle (r ∷ rest) w kept =
      then-Kept (process_rule env num candle r) (process_rules env num candle rest) w
        (process_rule-Kept env num candle r w kept) (process_rules-Kept candle rest)

  module _ (cfg : WorkerSettings) where
    pub process_candle-Kept :
        (rules : List Rule) (candle : Candle num) (w : World)
        → IsConsistent w
        → Kept tt (process_candle env num cfg rules candle w)
    unfolding process_candle
    process_candle-Kept rules candle w kept =
        then-Kept (save_candle env num candle) _ w (save_candle_lem env num candle w kept).0
          (λ v kept'.
            then-Kept (update_cursor env cfg candle.symbol candle.timestamp) _ v
              (update_cursor-Kept env cfg candle.symbol candle.timestamp v kept')
              (process_rules-Kept candle (rules_of env num candle rules)))

    process_stream-Kept :
        (rules : List Rule) (candles : List (Candle num)) (w : World)
        → IsConsistent w
        → Kept tt (process_stream env num cfg rules candles w)
    unfolding process_stream
    process_stream-Kept rules [] w kept = (refl, kept)
    process_stream-Kept rules (c ∷ rest) w kept =
        then-Kept (process_candle env num cfg rules c) (process_stream env num cfg rules rest) w
          (process_candle-Kept rules c w kept) (process_stream-Kept rules rest)

    -- Started in a consistent world, the main loop runs through every candle of the stream without
    -- an exception, whatever rules are stored, whatever the candles are and however the webhooks
    -- answer. At the end everything is committed, every alert's window is the minute in which it
    -- was triggered, no two alerts share their rule and their window, and no two candles share
    -- symbol, time and interval.
    pub main_loop_safe :
        (candles : List (Candle num)) (w : World)
        → IsConsistent w
        → Kept tt (main_loop env num cfg candles w)
    unfolding main_loop
    main_loop_safe candles w kept =
        process_stream-Kept (load_active_rules env num w.db) candles w kept
