-- ===== src/Api/Rules/Models.antt =====
-- api/models/rule.py: what a request for a rule must satisfy, and what the responses take.
use Prim.Native.String.{count}
use hyperliquid_trading_aler.Prelude.{
  ℕ, String, Bool, true, false, ◌&&◌, ◌||◌, Option, none, some, List, [], ◌∷◌, leb, str_eq,
  if◌then◌else◌, value_error,
}
use hyperliquid_trading_aler.Db.{M, pure, raise}
use hyperliquid_trading_aler.Db.Rows.{Rule, Dict, Value}
use hyperliquid_trading_aler.Evaluate.Rules.Config.{get, is_text}

-- `RuleCreate`, once its fields have their types.
pub record RuleCreate : Type 0 where
  pub name : String
  pub rule_type : String
  pub symbol : String
  pub config : Dict Value
  pub cooldown_seconds : ℕ
  pub discord_webhook_url : Option String
  pub generic_webhook_url : Option String
  pub is_active : Bool

-- `k in v`
abbrev pub has : String → Dict Value → Bool
has k d = elim (get k d) [ none ↦ false | some _ ↦ true ]

-- `k in v and v[k] in (a, b)`
abbrev pub is_one_of : String → String → String → Dict Value → Bool
is_one_of k a b d = elim (get k d) [ none ↦ false | some v ↦ is_text v a || is_text v b ]

-- `validate_config`: does it return, and raise no ValueError? The first argument is the rule's type.
unfoldable pub validate_config : String → Dict Value → Bool
validate_config rule_type v =
    if str_eq rule_type "price_threshold"
    then has "threshold" v && is_one_of "operator" ">=" "<=" v
    else if str_eq rule_type "percent_move"
    then has "percent_threshold" v && has "window_seconds" v
    else if str_eq rule_type "candle_close"
    then has "value" v && is_one_of "operator" ">=" "<=" v
    else if str_eq rule_type "macd_cross"
    then has "fast_period" v
      && (has "slow_period" v
          && (has "signal_period" v && is_one_of "crossover_type" "bullish" "bearish" v))
    else if str_eq rule_type "rsi"
    then is_one_of "direction" "overbought" "oversold" v
    else if str_eq rule_type "bollinger_bands"
    then is_one_of "band" "upper" "lower" v && is_one_of "event" "touch" "break" v
    else false

abbrev is_sized : ℕ → ℕ → String → Bool
is_sized least most s = leb least (count s) && leb (count s) most

abbrev is_url : Option String → Bool
is_url none = true
is_url (some s) = leb (count s) 500

-- The checks of the model's fields; a rule type that is none of the six fails in `validate_config`.
unfoldable pub is_valid : RuleCreate → Bool
is_valid data_ =
    is_sized 1 200 data_.name
    && (is_sized 1 20 data_.symbol
        && (is_url data_.discord_webhook_url
            && (is_url data_.generic_webhook_url && validate_config data_.rule_type data_.config)))

-- `RuleUpdate` with `exclude_unset`: the fields that the request sets, each to a value or to null.
pub record RuleUpdate : Type 0 where
  pub name : Option (Option String)
  pub config : Option (Option (Dict Value))
  pub cooldown_seconds : Option (Option ℕ)
  pub discord_webhook_url : Option (Option String)
  pub generic_webhook_url : Option (Option String)
  pub is_active : Option (Option Bool)

-- The checks of the model's fields; the configuration has none.
unfoldable pub is_valid_update : RuleUpdate → Bool
is_valid_update data_ =
    elim data_.name [ some (some s) ↦ is_sized 1 200 s | some none ↦ true | none ↦ true ]
    && (elim data_.discord_webhook_url [ none ↦ true | some url ↦ is_url url ]
        && elim data_.generic_webhook_url [ none ↦ true | some url ↦ is_url url ])

-- Does the request set the name to null?
abbrev pub has_null_name : RuleUpdate → Bool
has_null_name data_ = elim data_.name [ some none ↦ true | some (some _) ↦ false | none ↦ false ]

-- What a route answers: a rule with its status, a page of rules with the total, or a status alone.
pub data Answer : Type 0 where
  rule : ℕ → Rule → Answer
  page : List Rule → ℕ → Answer
  status : ℕ → Answer

-- `RuleResponse.model_validate(rule)`: of the row's fields, three may hold a null that the response
-- model does not take. Pydantic's ValidationError is a ValueError.
unfoldable pub is_complete : Rule → Bool
is_complete r =
    elim r.config [ none ↦ false | some _ ↦ true ]
    && (elim r.cooldown_seconds [ none ↦ false | some _ ↦ true ]
        && elim r.is_active [ none ↦ false | some _ ↦ true ])

unfoldable pub model_validate : ℕ → Rule → M Answer
model_validate code r = if is_complete r then pure (rule code r) else raise value_error

unfoldable pub all_complete : List Rule → Bool
all_complete [] = true
all_complete (r ∷ rules) = is_complete r && all_complete rules
