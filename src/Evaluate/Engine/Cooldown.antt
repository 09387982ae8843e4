-- ===== src/Evaluate/Engine/Cooldown.antt =====
-- The cooldown test (worker/evaluate/engine.py). It counts from the alert's `triggered_at`, which is
-- the opening time of the candle.
use hyperliquid_trading_aler.Prelude.{
  ℕ, ◌+◌, ◌*◌, ◌≤◌, ◌<◌, ◌≡◌, ◌↔◌, Bool, true, false, ◌&&◌, ok, List, [], ◌∷◌, String, arith, ltb,
  ◌==◌, str_eq, some, All, All-take, All-sort_by, All-select, All-reverse, All-weaken, not, refl,
}
use hyperliquid_trading_aler.Db.{Env, World}
use hyperliquid_trading_aler.Db.Rows.{Rule, Alert}
use hyperliquid_trading_aler.Evaluate.Engine.{last_alerts, is_in_cooldown}

module _ (env : Env) (rule : Rule) (symbol : String) (w : World) where
  abbrev cooling_by : ℕ → Alert → Bool
  cooling_by seconds last =
      not (seconds == 0) && ltb (env.clock w.ticks) (last.triggered_at + seconds * 1000000)

  -- With a cooldown in seconds and an earlier alert, the rule is in cooldown exactly while the
  -- cooldown is not zero and the clock reads less than the last alert's `triggered_at` plus it.
  pub cooldown_exact :
      (last : Alert) (seconds : ℕ)
      → rule.cooldown_seconds ≡ some seconds
      → last_alerts w.db rule.id (env.upper symbol) ≡ last ∷ []
      → (cooling : Bool) × ((is_in_cooldown env rule symbol w).0 ≡ ok cooling)
        × ((cooling ≡ true)
            ↔ ((0 < seconds) × (env.clock w.ticks < last.triggered_at + seconds * 1000000)))
  unfolding is_in_cooldown
  cooldown_exact last seconds set found =
      (cooling_by seconds last, ground arith, ((λ e. ground arith), (λ h. ground arith)))

  last_alerts-All :
      (P : Alert → Type 0) (k : ℕ) (s : String) → All P w.db.alerts → All P (last_alerts w.db k s)
  unfolding last_alerts
  last_alerts-All P k s h = All-take P 1 _ (
      All-reverse P _ (
        All-sort_by P (λ (a : Alert). a.triggered_at) _
          (All-select P (λ (a : Alert). a.rule_id == k && str_eq a.symbol s) w.db.alerts
            (All-weaken P (λ (a : Alert). a.rule_id == k && str_eq a.symbol s) w.db.alerts h))))

  -- It opened 900 seconds ago or earlier.
  abbrev IsPast : Alert → Type 0
  IsPast a = a.triggered_at + 900000000 ≤ env.clock w.ticks

  over :
      (l : List Alert) (seconds : ℕ)
      → rule.cooldown_seconds ≡ some seconds
      → seconds ≤ 900
      → last_alerts w.db rule.id (env.upper symbol) ≡ l
      → All IsPast l
      → (is_in_cooldown env rule symbol w).0 ≡ ok false
  unfolding is_in_cooldown
  over [] seconds set short found past = ground arith
  over (last ∷ l) seconds set short found past = ground arith

  -- A cooldown of at most 900 seconds suppresses nothing once every alert was triggered by a candle
  -- that opened 900 seconds ago or earlier, as each closed 15-minute candle did.
  pub short_cooldown :
      (seconds : ℕ)
      → rule.cooldown_seconds ≡ some seconds
      → seconds ≤ 900
      → All (λ (a : Alert). a.triggered_at + 900000000 ≤ env.clock w.ticks) w.db.alerts
      → (is_in_cooldown env rule symbol w).0 ≡ ok false
  short_cooldown seconds set short past =
      over (last_alerts w.db rule.id (env.upper symbol)) seconds set short refl
        (last_alerts-All IsPast rule.id (env.upper symbol) past)
