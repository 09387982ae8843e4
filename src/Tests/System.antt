-- ===== src/Tests/System.antt =====
-- An example of the whole program: a rule is created, a candle fires it, the alert is retried, and the rule
-- is deleted.
use hyperliquid_trading_aler.Api.Rules.Nulls.{rules_listed, begin, updates}
use hyperliquid_trading_aler.Api.Rules.Update.{get-update, shown, has_null}
use hyperliquid_trading_aler.Api.Rules.Changes.{IsSame, IsUpdated}
use hyperliquid_trading_aler.Db.Table.{row}
use hyperliquid_trading_aler.Db.Rows.{text, integer, Dict, Value, Rule}
use hyperliquid_trading_aler.Prelude.Int.{pos}
use hyperliquid_trading_aler.Db.Session.{get_db_session}
use hyperliquid_trading_aler.Prelude.{
  refl, none, true, some, err, ok, integrity_error, ◌≡◌, ◌⊎◌, Bool, false, not, ◌∷◌, [], ℕ, ◌≢◌,
  take, drop, length, value_error, arith,
}
use hyperliquid_trading_aler.Numerics.Naturals.{naturals}
use hyperliquid_trading_aler.Db.{World}
use hyperliquid_trading_aler.Worker.{process_candle}
use hyperliquid_trading_aler.Dispatch.Retry.{retry_scheduler}
use hyperliquid_trading_aler.Api.Rules.{
  RuleCreate, create_rule, delete_rule, RuleUpdate, update_rule, is_valid_update, status, is_valid,
  validate_config, is_complete, is_changed, get_rule, list_rules, matching, model_validate,
  all_complete, page, rule_key,
}
use hyperliquid_trading_aler.System.Sound.{IsSound}
use hyperliquid_trading_aler.System.Reach.{
  empty, start, later, creates, candle, retries, deletes, Reach-IsSound,
}
use hyperliquid_trading_aler.Tests.Fixtures.{env, cfg, rule, candle_at, world_of, world}

-- Two configurations are never taken for the same here.
abbrev same_config : Dict Value → Dict Value → Bool
same_config a b = false

abbrev request : RuleCreate
request = record {
  name = "BTC high";
  rule_type = "candle_close";
  symbol = "btc";
  config = ("operator", text ">=") ∷ ("value", integer (pos 100)) ∷ [];
  cooldown_seconds = 60;
  discord_webhook_url = rule.discord_webhook_url;
  generic_webhook_url = none;
  is_active = true;
}

abbrev created : World
created = (get_db_session (create_rule env request) (world_of empty)).1

abbrev fired : World
fired =
    (process_candle env naturals cfg created.db.rules (candle_at 1699999060000000 150) created).1

abbrev retried : World
retried = (retry_scheduler env cfg 2 fired).1

Reach-IsSound_example : IsSound (get_db_session (delete_rule env 100) retried).1
Reach-IsSound_example =
    Reach-IsSound env naturals cfg same_config
      {w = (get_db_session (delete_rule env 100) retried).1}
      (later {w = retried}
        (later {w = fired}
          (later {w = created} (later {w = world_of empty} (start (refl, refl)) (creates request))
            (candle created.db.rules (candle_at 1699999060000000 150)))
          (retries 2))
        (deletes 100))

abbrev no_change : RuleUpdate
no_change = record {
  name = none;
  config = none;
  cooldown_seconds = none;
  discord_webhook_url = none;
  generic_webhook_url = none;
  is_active = none;
}

null_name_fails :
    (get_db_session
      (update_rule env same_config 100 (record no_change { name = some none }))
      created).0
    ≡ err integrity_error
unfolding get_db_session create_rule update_rule is_valid_update is_valid validate_config
    model_validate is_complete is_changed
null_name_fails = refl

empty_name_refused :
    (get_db_session
      (update_rule env same_config 100 (record no_change { name = some (some "") }))
      created).0
    ≡ ok (status 422)
unfolding get_db_session create_rule update_rule is_valid_update is_valid validate_config
empty_name_refused = refl

abbrev stops : RuleUpdate
stops = record no_change { is_active = some (some false) }

-- The rule 7 of the examples is stopped, and is answered so.
get-update_example :
    let (result, w') = update_rule env same_config 7 stops world in
    (r' : Rule) × ((IsSame same_config stops rule × (r' ≡ rule))
      ⊎ ((¬ IsSame same_config stops rule) × IsUpdated stops (env.clock 0) rule r'))
    × (is_complete r' ≡ not (has_null stops))
    × (result ≡ shown r')
    × ((get_rule env 7 w').0 ≡ shown r')
    × (row rule_key 7 w'.db.rules ≡ some r')
    × ((j : ℕ) → 7 ≢ j → row rule_key j w'.db.rules ≡ row rule_key j world.db.rules)
    × (w'.committed ≡ w'.db)
unfolding is_valid_update is_complete
get-update_example = get-update env same_config 7 stops world refl refl refl refl

rules_listed_example :
    let u = (get_db_session (update_rule env same_config 7 stops) world).1 in
    let rows = matching env none none u.db in
    list_rules env none none 50 0 u ≡ (ok (page (take 50 (drop 0 rows)) (length rows)), u)
unfolding is_complete
rules_listed_example =
    rules_listed env same_config none none 50 0 (updates 7 stops refl begin) refl (refl, tt)
      (omega arith) (omega arith)

-- A null for the activity breaks the list.
null_breaks_list :
    let w' =
      (get_db_session
        (update_rule env same_config 7 (record no_change { is_active = some none }))
        world).1 in
    (list_rules env none none 50 0 w').0 ≡ err value_error
unfolding get_db_session update_rule is_valid_update is_changed model_validate is_complete
    list_rules matching all_complete
null_breaks_list = refl
