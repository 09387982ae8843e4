-- ===== src/Tests/Lifecycle.antt =====
-- Examples of the life of an alert.
use mathlib.Core.List.{Permᴰ}
use hyperliquid_trading_aler.Prelude.Int.{pos}
use hyperliquid_trading_aler.Prelude.{
  ℕ, ◌+◌, ◌≡◌, ◌≢◌, refl, true, false, none, some, [], ◌∷◌, arith, type_error, ◌⊎◌, ◌==◌,
  if◌then◌else◌,
}
use hyperliquid_trading_aler.Db.{Env, World}
use hyperliquid_trading_aler.Db.Rows.{Alert, pending, CandleModel}
use hyperliquid_trading_aler.Db.Table.{row}
use hyperliquid_trading_aler.Dispatch.{dispatch, dispatch_by}
use hyperliquid_trading_aler.Dispatch.Outcome.{alert_key, discord_post}
use hyperliquid_trading_aler.Dispatch.Lifecycle.{Moves, phase_of, dispatches, Run-Moves}
use hyperliquid_trading_aler.Dispatch.Lifecycle.{done as ran, passes as then_passes}
use hyperliquid_trading_aler.Dispatch.Race.{sent_twice}
use hyperliquid_trading_aler.Dispatch.Retry.{due_alerts, process_alert, process_pending_alerts}
use hyperliquid_trading_aler.Dispatch.Retry.Progress.{pass, done, Passes-settle}
use hyperliquid_trading_aler.Api.Reads.{list_candles}
use hyperliquid_trading_aler.Api.Reads.Stable.{list_candles_stable}
use hyperliquid_trading_aler.Startup.{
  Probe, failed, connected, wait_for_db, First, IsQuiet, allowed, wait_exact,
}
use hyperliquid_trading_aler.Tests.Fixtures.{
  env, env_of, refuses, cfg, rule, alert, db, world, world_of,
}

-- Discord refuses the first POST: after the dispatch the alert is open with one attempt.
abbrev first_world : World
first_world = (dispatch (env_of refuses) alert world).1

Run-Moves_example :
    (b : Alert) × (row alert_key 1
        (process_pending_alerts (env_of refuses) cfg first_world).1.db.alerts
      ≡ some b)
    × Moves 5 (phase_of alert) (phase_of b)
unfolding dispatch dispatch_by
Run-Moves_example =
    Run-Moves (env_of refuses) cfg {k = 1} {w = world} alert (ground arith)
      (dispatches alert refl refl (then_passes (refl, tt) ran)) refl

abbrev last_attempt : Alert
last_attempt = record alert { delivery_attempts = 4; last_delivery_attempt = some 1699990000000000 }

abbrev late_world : World
late_world = world_of (record db { alerts = last_attempt ∷ [] })

Passes-settle_example :
    (b : Alert) × (row alert_key 1
        (process_pending_alerts (env_of refuses) cfg late_world).1.db.alerts
      ≡ some b)
    × (b.delivery_status ≢ pending)
unfolding due_alerts
Passes-settle_example =
    Passes-settle (env_of refuses) cfg (λ k hi. ground arith) {k = 1} {n = 1} {w = late_world}
      last_attempt
      (pass (refl, tt) (λ a here open_. ((λ e. cc), λ last seen t from. ground arith)) done) refl
      (refl, ground arith) (ground arith)

-- A server that takes every POST.
abbrev accepting : Env
accepting = env_of (λ sent p. true)

sent_twice_example :
    (dispatch accepting alert (process_alert accepting cfg alert world).1).1.sent
    ≡ discord_post alert rule ∷ discord_post alert rule ∷ []
sent_twice_example = sent_twice accepting cfg alert rule world refl refl refl (λ s. refl)

abbrev candle : ℕ → ℕ → CandleModel
candle id timestamp = record {
  id = id;
  symbol = "BTC";
  timestamp = timestamp;
  open_ = pos 1;
  high = pos 1;
  low = pos 1;
  close = pos 1;
  volume = none;
  interval_seconds = 900;
  created_at = timestamp;
}

abbrev one_way : World
one_way = world_of (record db { candles = candle 1 1000 ∷ candle 2 2000 ∷ [] })

abbrev other_way : World
other_way = world_of (record db { candles = candle 2 2000 ∷ candle 1 1000 ∷ [] })

list_candles_stable_example :
    (list_candles env "BTC" 900 none none 1 0 "desc" one_way).0
    ≡ (list_candles env "BTC" 900 none none 1 0 "desc" other_way).0
list_candles_stable_example =
    list_candles_stable env "BTC" 900 none none 1 0 "desc" one_way other_way (refl, (refl, tt))
      (Permᴰ.swap refl refl)

abbrev second : Alert
second = record alert { id = 2 }

abbrev two_alerts : World
two_alerts = world_of (record db { alerts = alert ∷ second ∷ [] })

-- The tables are there from the third second on.
abbrev starting : ℕ → Probe
starting t =
    if t == 0 then failed type_error else if t == 1 then connected false else connected true

wait_exact_example :
    ((i : ℕ) × First starting 0 (allowed starting false + allowed starting true) i
      × (wait_for_db false true starting ≡ (0, i + 1)))
    ⊎ ((wait_for_db false true starting ≡ (1, allowed starting false + allowed starting true))
        × IsQuiet starting 0 (allowed starting false + allowed starting true))
wait_exact_example = wait_exact starting false true
