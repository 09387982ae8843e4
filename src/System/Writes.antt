-- ===== src/System/Writes.antt =====
-- What a dispatch and an attempt of the retry task write (worker/dispatch/).
use hyperliquid_trading_aler.Dispatch.Senders.{discord_payload, generic_payload}
use hyperliquid_trading_aler.System.Audited.{has_success, all_owners}
use hyperliquid_trading_aler.Prelude.{
  ℕ, ◌≡◌, refl, inl, inr, Option-cases, some, arith, Bool, true, ◌≢◌,
}
use hyperliquid_trading_aler.Config.{WorkerSettings}
use hyperliquid_trading_aler.Db.{Env, World}
use hyperliquid_trading_aler.Db.Rows.{Rule, Alert, delivered}
use hyperliquid_trading_aler.Db.Table.{row}
use hyperliquid_trading_aler.Dispatch.{dispatch, dispatch_by}
use hyperliquid_trading_aler.Dispatch.Outcome.{
  alert_key, rule_key, dispatched, dispatch_by_alerts, dispatch_by_durable, dispatch-found,
  dispatch-missing,
}
use hyperliquid_trading_aler.Dispatch.Retry.{attempt_delivery}
use hyperliquid_trading_aler.Dispatch.Retry.Turn.{retried, attempt_alerts, attempt_durable}
use hyperliquid_trading_aler.System.Sound.{IsSound, Writes, Writes-IsSound}

module _ (env : Env) where
  dispatch_by-grows :
      (a : Alert) (r : Rule) (w : World) (k : ℕ)
      → has_success k w.db.attempts ≡ true
      → has_success k (dispatch_by env a r w).1.db.attempts ≡ true
  unfolding dispatch_by
  dispatch_by-grows a r w k h = ground arith

  dispatch_by-owners :
      (a : Alert) (r : Rule) (w : World) (p : ℕ → Bool)
      → p a.id ≡ true
      → all_owners p w.db.attempts ≡ true
      → all_owners p (dispatch_by env a r w).1.db.attempts ≡ true
  unfolding dispatch_by
  dispatch_by-owners a r w p mine h = ground arith

  dispatch_by-recorded :
      (a : Alert) (r : Rule) (w : World)
      → (dispatched env a r w).delivery_status ≡ delivered
      → has_success a.id (dispatch_by env a r w).1.db.attempts ≡ true
  unfolding dispatch_by discord_payload generic_payload
  dispatch_by-recorded a r w h = ground arith

  pub dispatch_by-Writes :
      (a : Alert) (r : Rule) (w : World) → Writes w (dispatched env a r w) (dispatch_by env a r w).1
  unfolding dispatch_by
  dispatch_by-Writes a r w = record {
    alerts = dispatch_by_alerts env a r w;
    rules = ground arith;
    candles = ground arith;
    durable = dispatch_by_durable env a r w;
    fresh = ground arith;
    logs = record {
      grows = dispatch_by-grows a r w;
      owners = dispatch_by-owners a r w;
      recorded = dispatch_by-recorded a r w;
    };
  }

  pub dispatch-IsSound :
      (a : Alert) (w : World)
      → row alert_key a.id w.db.alerts ≡ some a
      → IsSound w
      → IsSound (dispatch env a w).1
  dispatch-IsSound a w known sound = elim (Option-cases (row rule_key a.rule_id w.db.rules)) [
    | inl gone ↦ rw (dispatch-missing env a w gone) sound
    | inr (r, found) ↦ rw (dispatch-found env a w found) (
        Writes-IsSound w (dispatched env a r w) (dispatch_by env a r w).1 known
          (record { rule = refl; start = refl; end_ = refl; triggered = refl })
          (dispatch_by-Writes a r w) sound)
  ]

  module _ (cfg : WorkerSettings) where
    attempt-grows :
        (a : Alert) (r : Rule) (now : ℕ) (w : World) (k : ℕ)
        → has_success k w.db.attempts ≡ true
        → has_success k (attempt_delivery env cfg a r now w).1.db.attempts ≡ true
    unfolding attempt_delivery
    attempt-grows a r now w k h = ground arith

    attempt-owners :
        (a : Alert) (r : Rule) (now : ℕ) (w : World) (p : ℕ → Bool)
        → p a.id ≡ true
        → all_owners p w.db.attempts ≡ true
        → all_owners p (attempt_delivery env cfg a r now w).1.db.attempts ≡ true
    unfolding attempt_delivery
    attempt-owners a r now w p mine h = ground arith

    attempt-recorded :
        (a : Alert) (r : Rule) (now : ℕ) (w : World)
        → a.delivery_status ≢ delivered
        → (retried env cfg a r now w.sent).delivery_status ≡ delivered
        → has_success a.id (attempt_delivery env cfg a r now w).1.db.attempts ≡ true
    unfolding attempt_delivery discord_payload generic_payload
    attempt-recorded a r now w undelivered h = ground arith

    pub attempt-Writes :
        (a : Alert) (r : Rule) (now : ℕ) (w : World)
        → a.delivery_status ≢ delivered
        → Writes w (retried env cfg a r now w.sent) (attempt_delivery env cfg a r now w).1
    unfolding attempt_delivery
    attempt-Writes a r now w undelivered = record {
      alerts = attempt_alerts env cfg a r now w;
      rules = ground arith;
      candles = ground arith;
      durable = attempt_durable env cfg a r now w;
      fresh = ground arith;
      logs = record {
        grows = attempt-grows a r now w;
        owners = attempt-owners a r now w;
        recorded = attempt-recorded a r now w undelivered;
      };
    }
