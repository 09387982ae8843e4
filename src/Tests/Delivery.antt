-- ===== src/Tests/Delivery.antt =====
-- Examples of the dispatcher and of the retry scheduler.
use hyperliquid_trading_aler.Prelude.{
  min, ◌*◌, ◌+◌, ◌≤◌, ◌<◌, ◌≡◌, ◌≢◌, ◌⊎◌, refl, some, [], ◌∷◌, arith, ok, length, ℕ,
}
use hyperliquid_trading_aler.Db.{World}
use hyperliquid_trading_aler.Db.Rows.{Alert, pending, delivered}
use hyperliquid_trading_aler.Db.Table.{row}
use hyperliquid_trading_aler.Dispatch.{dispatch}
use hyperliquid_trading_aler.Dispatch.Outcome.{alert_key, dispatched, after_both, dispatch_outcome}
use hyperliquid_trading_aler.Dispatch.Retry.{is_waiting, process_alert, process_pending_alerts}
use hyperliquid_trading_aler.Dispatch.Retry.Backoff.{backoff_bounds}
use hyperliquid_trading_aler.Dispatch.Retry.{calculate_backoff, base}
use hyperliquid_trading_aler.Dispatch.Retry.Turn.{turn-due, IsTurned, turn_sent}
use hyperliquid_trading_aler.Dispatch.Retry.Settle.{settles, done, turn}
use hyperliquid_trading_aler.Dispatch.Retry.Pass.{pass-settled}
use hyperliquid_trading_aler.Tests.Fixtures.{
  env, env_of, refuses, cfg, rule, alert, db, world, world_of,
}

dispatch_outcome_example :
    let (result, w') = dispatch env alert world in
    (result ≡ ok tt)
    × (row alert_key 1 w'.db.alerts ≡ some (dispatched env alert rule world))
    × (w'.committed ≡ w'.db)
    × (w'.sent ≡ after_both env alert rule [])
    × (length w'.db.attempts + 0 ≡ 0 + length w'.sent)
dispatch_outcome_example = dispatch_outcome env alert {r = rule} world refl {old = alert} refl

backoff_bounds_example :
    (b : ℕ) × ((calculate_backoff env 3 world).0 ≡ ok b)
    × (base 3 ≤ b)
    × (b * 2 ≤ base 3 * 3)
    × (b ≤ 48000000)
    × (base 0 ≡ 500000)
    × (base 4 ≡ min (base 3 * 2) 32000000)
backoff_bounds_example = backoff_bounds env (λ k hi. ground arith) 3 world

turn-due_example :
    let (result, w') = process_alert env cfg alert world in
    (result ≡ ok tt)
    × ((b : Alert) × (row alert_key 1 w'.db.alerts ≡ some b)
        × IsTurned env cfg alert world (some rule) b)
    × (w'.sent ≡ turn_sent env cfg alert world (some rule))
    × (w'.committed ≡ w'.db)
unfolding is_waiting
turn-due_example = turn-due env cfg alert world (some rule) {old = alert} refl refl refl

abbrev last_turn : Alert
last_turn = record alert { delivery_attempts = 4 }

abbrev last_world : World
last_world = world_of (record db { alerts = last_turn ∷ [] })

abbrev after_last : World
after_last = (process_alert (env_of refuses) cfg last_turn last_world).1

settles_example :
    (b : Alert) × (row alert_key 1 after_last.db.alerts ≡ some b)
    × (4 + 1 ≤ 5)
    × ((b.delivery_status ≢ pending)
        ⊎ ((b.delivery_status ≡ pending) × (b.delivery_attempts ≡ 4 + 1) × (4 + 1 < 5)))
unfolding is_waiting
settles_example =
    settles (env_of refuses) cfg 1 {n = 1} {w = last_world} {u = after_last} last_turn
      (turn {n = 0} {w = last_world} last_turn refl refl (ground arith) refl done) refl refl
      (ground arith)

abbrev gone : Alert
gone = record alert { delivery_status = delivered }

pass-settled_example :
    let (result, w') =
      process_pending_alerts env cfg (world_of (record db { alerts = gone ∷ [] })) in
    (result ≡ ok tt) × (row alert_key 1 w'.db.alerts ≡ some gone)
pass-settled_example =
    pass-settled env cfg 1 (world_of (record db { alerts = gone ∷ [] })) {a = gone} (refl, tt) refl
      (λ due. ground arith)
