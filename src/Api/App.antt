-- ===== src/Api/App.antt =====
-- api/main.py: the application, from the middleware to the routes of its four routers. What the router of
-- the framework finds for the method and the path is an endpoint with its parameters.
pub mod Guarded
use hyperliquid_trading_aler.Prelude.{
  ℕ, String, Bool, true, false, Option, none, some, Result, ok, err,
}
use hyperliquid_trading_aler.Config.{ApiSettings}
use hyperliquid_trading_aler.Db.{Env, World, M, utcnow}
use hyperliquid_trading_aler.Db.Rows.{Dict, Value}
use hyperliquid_trading_aler.Db.Session.{get_db_session}
use hyperliquid_trading_aler.Api.Auth.{
  Request, Response, plain, ApiState, Handler, middleware, write_route,
}
use hyperliquid_trading_aler.Api.RateLimit.{Redis}
use hyperliquid_trading_aler.Api.Reads.{
  DeliveryAttemptList, list_alerts, list_delivery_attempts, list_candles, metrics,
}
use hyperliquid_trading_aler.Api.Rules.{
  RuleCreate, RuleUpdate, Answer, rule, page, status, create_rule, list_rules, get_rule,
  update_rule, delete_rule,
}

-- The routes of the routers, with the parameters that they take. Those of alerts, deliveries and
-- candles are within the bounds that the framework checks.
pub data Endpoint : Type 0 where
  get_health : Endpoint
  get_metrics : Bool → Endpoint
  post_rule : RuleCreate → Endpoint
  get_rules : Option String → Option Bool → ℕ → ℕ → Endpoint
  get_one_rule : ℕ → Endpoint
  put_rule : ℕ → RuleUpdate → Endpoint
  remove_rule : ℕ → Endpoint
  get_alerts : Option ℕ → Option String → ℕ → ℕ → Endpoint
  get_deliveries : ℕ → ℕ → ℕ → Endpoint
  get_candles : String → ℕ → Option ℕ → Option ℕ → ℕ → ℕ → String → Endpoint

-- The status of an answer.
abbrev pub code_of : Answer → ℕ
code_of (rule code r) = code
code_of (page rules total) = 200
code_of (status code) = code

abbrev pub found_code : Option DeliveryAttemptList → ℕ
found_code none = 404
found_code (some attempts) = 200

abbrev respond : {A : Type 0} → (A → ℕ) → Result A → Result Response
respond code (ok a) = ok (plain (code a))
respond code (err e) = err e

module _ (env : Env) (hash_key : String → String) (database_up : World → Bool) (redis : Redis)
    (same_config : Dict Value → Dict Value → Bool) (settings : ApiSettings) where
  abbrev run : {A : Type 0} → (A → ℕ) → M A → Handler env hash_key database_up redis
  run code m st = let (result, w) = m st.world in (respond code result, record st { world = w })

  -- A route with `Depends(get_db)`.
  abbrev pub with_db : {A : Type 0} → (A → ℕ) → M A → Handler env hash_key database_up redis
  with_db code m = run code (get_db_session m)

  -- A route that also has `Depends(verify_api_key)`.
  abbrev guarded : Request → M Answer → Handler env hash_key database_up redis
  guarded request m =
      write_route env hash_key database_up redis settings (with_db code_of m) request

  unfoldable pub route : Endpoint → Request → Handler env hash_key database_up redis
  route get_health request = run (λ _. 200) (utcnow env)
  route (get_metrics connected) request = with_db (λ _. 200) (metrics connected)
  route (post_rule data_) request = guarded request (create_rule env data_)
  route (get_rules symbol is_active limit offset) request =
      with_db code_of (list_rules env symbol is_active limit offset)
  route (get_one_rule rule_id) request = with_db code_of (get_rule env rule_id)
  route (put_rule rule_id data_) request =
      guarded request (update_rule env same_config rule_id data_)
  route (remove_rule rule_id) request = guarded request (delete_rule env rule_id)
  route (get_alerts rule_id symbol limit offset) request =
      with_db (λ _. 200) (list_alerts env rule_id symbol limit offset)
  route (get_deliveries alert_id limit offset) request =
      with_db found_code (list_delivery_attempts env alert_id limit offset)
  route (get_candles symbol seconds start_time end_time limit offset order) request =
      with_db (λ _. 200) (list_candles env symbol seconds start_time end_time limit offset order)

  -- `app`: the middleware that is added last is the outer one, so the keys come before CORS, which
  -- is the framework's. `now` is the time in seconds.
  unfoldable pub app :
      (Handler env hash_key database_up redis → Handler env hash_key database_up redis)
      → ℕ
      → Endpoint
      → Request
      → Handler env hash_key database_up redis
  app cors now endpoint request st =
      middleware env hash_key database_up redis settings (cors (route endpoint request)) now request
        st
