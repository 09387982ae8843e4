-- ===== src/Api/Rules.antt =====
-- api/models/rule.py and api/routes/rules.py: what a rule must satisfy, and the five routes.
mod Models
pub mod Crud
pub mod Safe
pub mod Validated
pub mod Pages
pub mod Changes
pub mod Update
pub mod Nulls
use Prim.Native.String.{count}
unfoldable pub use Models.*
use hyperliquid_trading_aler.Prelude.{
  ℕ, String, Bool, true, false, ◌&&◌, ◌||◌, not, Option, none, some, Result, ok, err, List, [], ◌∷◌,
  leb, length, take, drop, select, sort_desc, str_eq, is_given, if◌then◌else◌, ◌==◌,
  integrity_error, value_error,
}
use hyperliquid_trading_aler.Db.{
  Env, Database, World, M, pure, ◌>>=◌, ◌>>◌, gets, modify, commit, uuid4, utcnow, rollback, raise,
}
use hyperliquid_trading_aler.Db.Rows.{Rule, Alert, AlertDeliveryAttempt, Dict, Value}
use hyperliquid_trading_aler.Db.Table.{row, update, remove}
use hyperliquid_trading_aler.Evaluate.Rules.Config.{get, is_text}

abbrev pub rule_key : Rule → ℕ
rule_key r = r.id

-- The ORM's cascade, and the foreign key's: a deleted rule takes its alerts along, and they their
-- delivery attempts.
unfoldable pub delete_cascade : ℕ → Database → Database
delete_cascade k db = record db {
  rules = remove rule_key k db.rules;
  alerts = select (λ (a : Alert). not (a.rule_id == k)) db.alerts;
  attempts =
      select
        (λ (t : AlertDeliveryAttempt). elim (row (λ (a : Alert). a.id) t.alert_id db.alerts) [
          | none ↦ true
          | some a ↦ not (a.rule_id == k)
        ])
        db.attempts;
}

abbrev pub or_old {ℓ} : {A : Type ℓ} → Option A → A → A
or_old none old = old
or_old (some new_) old = new_

-- The loop of `setattr`, of a request whose name is not null, and the `onupdate` of the timestamp.
abbrev pub updated : RuleUpdate → ℕ → Rule → Rule
updated data_ now r = record r {
  name = elim data_.name [ some (some s) ↦ s | some none ↦ r.name | none ↦ r.name ];
  config = or_old data_.config r.config;
  cooldown_seconds = or_old data_.cooldown_seconds r.cooldown_seconds;
  discord_webhook_url = or_old data_.discord_webhook_url r.discord_webhook_url;
  generic_webhook_url = or_old data_.generic_webhook_url r.generic_webhook_url;
  is_active = or_old data_.is_active r.is_active;
  updated_at = now;
}

-- Is the field set to another value than it has?
abbrev pub differs {ℓ} : {A : Type ℓ} → (A → A → Bool) → Option (Option A) → Option A → Bool
differs same none old = false
differs same (some none) none = false
differs same (some none) (some _) = true
differs same (some (some _)) none = true
differs same (some (some a)) (some b) = not (same a b)

abbrev pub bool_eq : Bool → Bool → Bool
bool_eq true b = b
bool_eq false b = not b

-- The attributes that the ORM finds changed at the commit, by Python's `==`, which is a parameter
-- for two configurations. Without one there is no UPDATE.
unfoldable pub is_changed : (Dict Value → Dict Value → Bool) → RuleUpdate → Rule → Bool
is_changed same_config data_ r =
    differs str_eq data_.name (some r.name)
    || (differs same_config data_.config r.config
        || (differs ◌==◌ data_.cooldown_seconds r.cooldown_seconds
            || (differs str_eq data_.discord_webhook_url r.discord_webhook_url
                || (differs str_eq data_.generic_webhook_url r.generic_webhook_url
                    || differs bool_eq data_.is_active r.is_active))))

-- `Query(50, ge=1, le=100)`
abbrev pub is_page_size : ℕ → Bool
is_page_size limit = leb 1 limit && leb limit 100

-- `Rule.is_active == is_active`, which no null satisfies.
abbrev pub is_active_as : Option Bool → Rule → Bool
is_active_as none r = true
is_active_as (some b) r = elim r.is_active [ none ↦ false | some c ↦ bool_eq b c ]

module _ (env : Env) where
  abbrev pub new_rule : ℕ → ℕ → ℕ → RuleCreate → Rule
  new_rule k created changed data_ = record {
    id = k;
    name = data_.name;
    rule_type = data_.rule_type;
    symbol = env.upper data_.symbol;
    config = some data_.config;
    cooldown_seconds = some data_.cooldown_seconds;
    discord_webhook_url = data_.discord_webhook_url;
    generic_webhook_url = data_.generic_webhook_url;
    is_active = some data_.is_active;
    created_at = created;
    updated_at = changed;
  }

  -- `create_rule`, with the validation before it: an invalid body is answered with 422.
  unfoldable pub create_rule : RuleCreate → M Answer
  create_rule data_ = if not (is_valid data_) then pure (status 422) else do
    k ← uuid4
    created ← utcnow env
    changed ← utcnow env
    let r = new_rule k created changed data_
    modify (λ db. record db { rules = r ∷ db.rules })
    commit
    model_validate 201 r

  -- The rows of `list_rules`, before the page is cut. Rows of one creation time, whose order the
  -- query leaves open, stand in the order that the sort gives them.
  unfoldable pub matching : Option String → Option Bool → Database → List Rule
  matching symbol is_active db =
      sort_desc (λ (r : Rule). r.created_at)
        (select
          (λ (r : Rule).
            (not (is_given symbol)
              || elim symbol [ none ↦ true | some s ↦ str_eq r.symbol (env.upper s) ])
            && is_active_as is_active r)
          db.rules)

  -- `list_rules`, with the bounds of its query parameters. A limit out of bounds is answered with
  -- 422, and so is a negative one or a negative offset.
  unfoldable pub list_rules : Option String → Option Bool → ℕ → ℕ → M Answer
  list_rules symbol is_active limit offset =
      if not (is_page_size limit) then pure (status 422) else do
        rules ← gets (matching symbol is_active)
        let shown = take limit (drop offset rules)
        if all_complete shown then pure (page shown (length rules)) else raise value_error

  unfoldable pub get_rule : ℕ → M Answer
  get_rule rule_id = do
    found ← gets (λ db. row rule_key rule_id db.rules)
    elim found [ none ↦ pure (status 404) | some r ↦ model_validate 200 r ]

  -- `update_rule`, with the validation before it. The column of the name takes no null: the commit
  -- raises, and nothing is written.
  unfoldable pub update_rule : (Dict Value → Dict Value → Bool) → ℕ → RuleUpdate → M Answer
  update_rule same_config rule_id data_ =
      if not (is_valid_update data_) then pure (status 422) else do
        found ← gets (λ db. row rule_key rule_id db.rules)
        elim found [
          | none ↦ pure (status 404)
          | some r ↦
              if not (is_changed same_config data_ r) then commit >> model_validate 200 r else do
                now ← utcnow env
                if has_null_name data_ then raise integrity_error else do
                  modify
                      (λ db. record db { rules = update rule_key (updated data_ now r) db.rules })
                  commit
                  model_validate 200 (updated data_ now r)
        ]

  unfoldable pub delete_rule : ℕ → M Answer
  delete_rule rule_id = do
    found ← gets (λ db. row rule_key rule_id db.rules)
    elim found [
      | none ↦ pure (status 404)
      | some r ↦ (do modify (delete_cascade rule_id); commit; pure (status 204))
    ]
