-- ===== src/Evaluate/Engine.antt =====
-- worker/evaluate/engine.py: cooldown, the idempotency window, and the alert's row under its unique
-- constraint.
pub mod Windows
pub mod Outcome
pub mod Cooldown
use hyperliquid_trading_aler.Prelude.{
  ℕ, zero, suc, ◌+◌, ◌-◌, ◌*◌, ◌/◌, ◌%◌, String, Bool, true, false, ◌&&◌, Option, none, some, Exn,
  integrity_error, type_error, Result, ok, err, List, [], ◌∷◌, ltb, ◌==◌, take, select, find,
  sort_desc, str_eq, if◌then◌else◌,
}
use hyperliquid_trading_aler.Prelude.Int.{ℤ}
use hyperliquid_trading_aler.Numerics.{Numerics}
use hyperliquid_trading_aler.Db.{
  Env, Database, World, M, pure, raise, lift, except, ◌>>=◌, ◌>>◌, gets, modify, commit, uuid4,
  utcnow,
}
use hyperliquid_trading_aler.Db.Rows.{Rule, Alert, pending}
use hyperliquid_trading_aler.Db.Table.{row}
use hyperliquid_trading_aler.Ingest.Market.{Candle}
use hyperliquid_trading_aler.Evaluate.Rules.{evaluate_rule}

-- `timestamp.replace(second=0, microsecond=0)`
unfoldable pub window_start_of : ℕ → ℕ
window_start_of timestamp = timestamp - timestamp % 60000000

unfoldable pub get_idempotency_window : ℕ → ℕ × ℕ
unfolding window_start_of
get_idempotency_window timestamp = (window_start_of timestamp, window_start_of timestamp + 60000000)

-- The unique constraint `uq_alert_window`: do two alerts share their rule and their window?
abbrev pub same_window : Alert → Alert → Bool
same_window a b =
    a.rule_id == b.rule_id && (a.window_start == b.window_start && a.window_end == b.window_end)

-- The flush of a new alert's row: the unique constraint and the foreign key `rules.id`.
unfoldable pub insert_alert : Alert → M (Unit {0})
insert_alert a w = elim (row (λ (r : Rule). r.id) a.rule_id w.db.rules) [
  | none ↦ raise integrity_error w
  | some _ ↦ elim (find (same_window a) w.db.alerts) [
    | some _ ↦ raise integrity_error w
    | none ↦ modify (λ db. record db { alerts = a ∷ db.alerts }) w
  ]
]

-- The alerts of a rule on a symbol, the last triggered first.
unfoldable pub last_alerts : Database → ℕ → String → List Alert
last_alerts db rule_id symbol = take 1 (
    sort_desc (λ (a : Alert). a.triggered_at)
      (select (λ (a : Alert). a.rule_id == rule_id && str_eq a.symbol symbol) db.alerts))

-- `rule.cooldown_seconds == 0`
abbrev pub has_no_cooldown : Rule → Bool
has_no_cooldown rule = elim rule.cooldown_seconds [ none ↦ false | some seconds ↦ seconds == 0 ]

module _ (env : Env) where
  -- A cooldown of null is not zero, and `timedelta` does not take it.
  unfoldable pub is_in_cooldown : Rule → String → M Bool
  is_in_cooldown rule symbol = if has_no_cooldown rule then pure false else do
    found ← gets (λ db. last_alerts db rule.id (env.upper symbol))
    elim found [
      | [] ↦ pure false
      | last ∷ _ ↦ elim rule.cooldown_seconds [
        | none ↦ raise type_error
        | some seconds ↦ (do
          now ← utcnow env
          pure (ltb now (last.triggered_at + seconds * 1000000)))
      ]
    ]

  module _ (num : Numerics) where
    -- The row that `_create_alert` adds.
    abbrev pub new_alert : ℕ → ℕ → Rule → Candle num → ℕ × ℕ → num.F → Alert
    new_alert k created rule candle (window_start, window_end) trigger_value = record {
      id = k;
      rule_id = rule.id;
      symbol = candle.symbol;
      rule_type = rule.rule_type;
      triggered_at = candle.timestamp;
      trigger_value = some (num.numeric_of_float trigger_value);
      window_start = window_start;
      window_end = window_end;
      delivery_status = pending;
      delivery_attempts = 0;
      last_delivery_attempt = none;
      created_at = created;
    }

    unfoldable pub create_alert : Rule → Candle num → ℕ × ℕ → num.F → M (Option Alert)
    create_alert rule candle window trigger_value = do
      k ← uuid4
      created ← utcnow env
      let alert = new_alert k created rule candle window trigger_value
      inserted ← except (do insert_alert alert; pure true) (λ _. pure false)
      if inserted then (do commit; pure (some alert)) else pure none

    -- The call of the rule's class. Each of the six begins with a lookup in the configuration, which
    -- raises on null, a TypeError or an AttributeError; which one is only logged.
    abbrev pub outcome_of : Rule → Candle num → Database → Option (Result (Option num.F))
    outcome_of rule candle db = elim rule.config [
      | some config ↦ evaluate_rule num rule.rule_type config candle db
      | none ↦ elim (evaluate_rule num rule.rule_type [] candle db) [
        | none ↦ none
        | some _ ↦ some (err type_error)
      ]
    ]

    -- What `evaluate` does with the outcome of the rule: an exception is logged, and gives None.
    unfoldable pub settle : Rule → Candle num → Option (Result (Option num.F)) → M (Option Alert)
    settle rule candle none = pure none
    settle rule candle (some (err e)) = pure none
    settle rule candle (some (ok none)) = pure none
    settle rule candle (some (ok (some value))) =
        create_alert rule candle (get_idempotency_window candle.timestamp) value

    unfoldable pub evaluate : Rule → Candle num → M (Option Alert)
    evaluate rule candle = do
      cooling ← is_in_cooldown rule candle.symbol
      if cooling
          then pure none
          else do outcome ← gets (outcome_of rule candle); settle rule candle outcome
