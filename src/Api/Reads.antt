-- ===== src/Api/Reads.antt =====
-- The routes that only read: api/routes/alerts.py, candles.py and health.py, with their response models in
-- api/models/. The bounds of the query parameters are checked by the framework. Rows of equal time are
-- taken in a fixed order.
pub mod Stable
use hyperliquid_trading_aler.Prelude.{
  ℕ, String, Bool, true, false, ◌&&◌, not, Option, none, some, List, [], ◌∷◌, map, leb, length,
  take, drop, select, sort_by, sort_desc, str_eq, is_given, if◌then◌else◌, ◌==◌, is_true,
}
use hyperliquid_trading_aler.Prelude.Int.{ℤ}
use hyperliquid_trading_aler.Db.{Env, Database, World, M, pure, ◌>>=◌, gets}
use hyperliquid_trading_aler.Db.Rows.{
  Rule, Alert, AlertDeliveryAttempt, AttemptStatus, CandleModel, DeliveryStatus, is_pending,
}
use hyperliquid_trading_aler.Db.Table.{row}

-- `AlertResponse`
pub record AlertResponse : Type 0 where
  pub id : ℕ
  pub rule_id : ℕ
  pub symbol : String
  pub rule_type : String
  pub triggered_at : ℕ
  pub trigger_value : Option ℤ
  pub delivery_status : DeliveryStatus
  pub delivery_attempts : ℕ
  pub created_at : ℕ

-- `AlertResponse.model_validate(alert)`
abbrev pub alert_response : Alert → AlertResponse
alert_response a = record {
  id = a.id;
  rule_id = a.rule_id;
  symbol = a.symbol;
  rule_type = a.rule_type;
  triggered_at = a.triggered_at;
  trigger_value = a.trigger_value;
  delivery_status = a.delivery_status;
  delivery_attempts = a.delivery_attempts;
  created_at = a.created_at;
}

-- `AlertListResponse`, `DeliveryAttemptListResponse` and `CandleListResponse`. The responses of an
-- attempt and of a candle have the fields of their rows.
pub record AlertList : Type 0 where
  pub alerts : List AlertResponse
  pub total : ℕ

pub record DeliveryAttemptList : Type 0 where
  pub attempts : List AlertDeliveryAttempt
  pub total : ℕ

pub record CandleList : Type 0 where
  pub candles : List CandleModel
  pub total : ℕ
  pub limit : ℕ
  pub offset : ℕ
  pub order : String

abbrev at_least : Option ℕ → ℕ → Bool
at_least none t = true
at_least (some start) t = leb start t

abbrev at_most : Option ℕ → ℕ → Bool
at_most none t = true
at_most (some end_) t = leb t end_

-- The `where` clauses of `list_candles`; `symbol` is in upper case.
abbrev pub is_wanted : String → ℕ → Option ℕ → Option ℕ → CandleModel → Bool
is_wanted symbol interval_seconds start_time end_time c =
    str_eq c.symbol symbol
    && (c.interval_seconds == interval_seconds
        && (at_least start_time c.timestamp && at_most end_time c.timestamp))

module _ (env : Env) where
  abbrev pub is_listed : Option ℕ → Option String → Alert → Bool
  is_listed rule_id symbol a =
      elim rule_id [ none ↦ true | some k ↦ a.rule_id == k ]
      && (if is_given symbol
          then elim symbol [ none ↦ true | some s ↦ str_eq a.symbol (env.upper s) ]
          else true)

  unfoldable pub list_alerts : Option ℕ → Option String → ℕ → ℕ → M AlertList
  list_alerts rule_id symbol limit offset = do
    found ← gets (λ db. select (is_listed rule_id symbol) db.alerts)
    let page = take limit (drop offset (sort_desc (λ (a : Alert). a.triggered_at) found))
    pure (record { alerts = map alert_response page; total = length found })

  -- The answer none is 404.
  unfoldable pub list_delivery_attempts : ℕ → ℕ → ℕ → M (Option DeliveryAttemptList)
  list_delivery_attempts alert_id limit offset = do
    alert_exists ← gets (λ db. row (λ (a : Alert). a.id) alert_id db.alerts)
    elim alert_exists [
      | none ↦ pure none
      | some _ ↦ (do
        found ←
            gets (λ db. select (λ (t : AlertDeliveryAttempt). t.alert_id == alert_id) db.attempts)
        let page =
            take limit (drop offset (sort_desc (λ (t : AlertDeliveryAttempt). t.created_at) found))
        pure (some (record { attempts = page; total = length found })))
    ]

  unfoldable pub list_candles : String → ℕ → Option ℕ → Option ℕ → ℕ → ℕ → String → M CandleList
  list_candles symbol interval_seconds start_time end_time limit offset order = do
    found ← gets (λ db.
        select (is_wanted (env.upper symbol) interval_seconds start_time end_time) db.candles)
    let sorted =
        if str_eq order "desc"
        then sort_desc (λ (c : CandleModel). c.timestamp) found
        else sort_by (λ (c : CandleModel). c.timestamp) found
    pure (record {
      candles = take limit (drop offset sorted);
      total = length found;
      limit = limit;
      offset = offset;
      order = order;
    })

-- `metrics`; `connected` is whether `SELECT 1` can be run.
pub record Metrics : Type 0 where
  pub rules_active : ℕ
  pub alerts_pending_delivery : ℕ
  pub database_connected : Bool

unfoldable pub metrics : Bool → M Metrics
metrics connected = do
  active ← gets (λ db. select (λ (r : Rule). is_true r.is_active) db.rules)
  waiting ← gets (λ db. select (λ (a : Alert). is_pending a.delivery_status) db.alerts)
  pure (record {
    rules_active = length active;
    alerts_pending_delivery = length waiting;
    database_connected = connected;
  })
