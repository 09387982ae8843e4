-- ===== src/Api/App/Guarded.antt =====
-- What requests may change, over the whole application (api/main.py).
use hyperliquid_trading_aler.Prelude.{
  ℕ, ◌≡◌, ◌⊎◌, inl, inr, refl, sym, ap, subst, ◌∙◌, String, Bool, true, false, some, Result, ok,
  err, arith, Bool-cases, Option-cases,
}
use hyperliquid_trading_aler.Config.{ApiSettings}
use hyperliquid_trading_aler.Db.{Env, Database, World, M}
use hyperliquid_trading_aler.Db.Rows.{Dict, Value}
use hyperliquid_trading_aler.Db.Session.{get_db_session}
use hyperliquid_trading_aler.Api.Auth.{
  Request, Identity, known, unknown, unavailable, verify_api_key, lookup_key, identify, ApiState,
  Handler, limited, answer, authenticate, middleware, write_route,
}
use hyperliquid_trading_aler.Api.Auth.Access.{but_keys, IsStranger, stranger-verify}
use hyperliquid_trading_aler.Api.RateLimit.{Bucket, Redis, check_rate_limit}
use hyperliquid_trading_aler.Api.Reads.{list_alerts, list_delivery_attempts, list_candles, metrics}
use hyperliquid_trading_aler.Api.Rules.{list_rules, get_rule, model_validate}
use hyperliquid_trading_aler.Api.App.{
  Endpoint, get_health, get_metrics, post_rule, get_rules, get_one_rule, put_rule, remove_rule,
  get_alerts, get_deliveries, get_candles, code_of, found_code, with_db, route, app,
}

-- The endpoints that depend on `verify_api_key`.
abbrev pub is_write : Endpoint → Bool
is_write (post_rule data_) = true
is_write (put_rule rule_id data_) = true
is_write (remove_rule rule_id) = true
is_write _ = false

-- The database is as it was but for the API keys, and nothing waits for a commit.
abbrev pub IsQuiet : Database → World → Type 0
IsQuiet db w = (but_keys w.db ≡ but_keys db) × (w.committed ≡ w.db)

-- A session that only reads.
session-IsQuiet :
    {A : Type 0} (db : Database) (r : Result A) (w : World)
    → IsQuiet db w
    → IsQuiet db (get_db_session (λ _. (r, w)) w).1
unfolding get_db_session
session-IsQuiet db (ok a) w (same, durable) = (same, refl)
session-IsQuiet db (err e) w (same, durable) = (ap but_keys durable ∙ same, refl)

module _ (env : Env) (hash_key : String → String) (database_up : World → Bool) where
  identify-IsQuiet :
      (settings : ApiSettings) (raw : String) (db : Database) (w : World)
      → IsQuiet db w
      → IsQuiet db (identify env hash_key database_up settings raw w).1
  unfolding identify lookup_key
  identify-IsQuiet settings raw db w (same, durable) = ground arith

  module _ (redis : Redis) where
    -- A handler that changes nothing but API keys.
    abbrev pub Reads : Handler env hash_key database_up redis → Type 0
    Reads handler =
        (db : Database) (s : ApiState env hash_key database_up redis)
        → IsQuiet db s.world
        → IsQuiet db (handler s).1.world

    module _ (settings : ApiSettings) (handler : Handler env hash_key database_up redis)
        (reads : Reads handler) where
      limited-Reads :
          (now : ℕ) (b : Bucket) (limit : ℕ)
          → Reads (limited env hash_key database_up redis settings handler now b limit)
      unfolding limited
      limited-Reads now b limit db st quiet =
          let (rl, limiter) =
            check_rate_limit redis now (some settings.redis_url) b limit st.limiter in
          elim (Bool-cases rl.allowed) [
            | inl yes_ ↦ rw yes_ (reads db (record st { limiter = limiter }) quiet)
            | inr no_ ↦ rw no_ quiet
          ]

      answer-Reads :
          (now : ℕ) (i : Identity)
          → Reads (answer env hash_key database_up redis settings handler now i)
      unfolding answer
      answer-Reads now (known b limit) db st quiet = limited-Reads now b limit db st quiet
      answer-Reads now unknown db st quiet = quiet
      answer-Reads now unavailable db st quiet = quiet

      authenticate-Reads :
          (now : ℕ) (raw : String)
          → Reads (authenticate env hash_key database_up redis settings handler now raw)
      unfolding authenticate
      authenticate-Reads now raw db st quiet =
          let (i, w) = identify env hash_key database_up settings raw st.world in
          answer-Reads now i db (record st { world = w })
            (identify-IsQuiet settings raw db st.world quiet)

      middleware-Reads :
          (now : ℕ) (request : Request)
          → Reads (middleware env hash_key database_up redis settings handler now request)
      unfolding middleware
      middleware-Reads now request db st quiet = elim (Option-cases request.x_api_key) [
        | inl missing ↦ ground (arith, reads db st quiet)
        | inr (raw, given) ↦
            ground (arith, reads db st quiet, authenticate-Reads now raw db st quiet)
      ]

    module _ (same_config : Dict Value → Dict Value → Bool) (settings : ApiSettings) where
      guarded-Reads :
          (request : Request) (handler : Handler env hash_key database_up redis)
          → verify_api_key settings request.x_api_key ≡ false
          → Reads (write_route env hash_key database_up redis settings handler request)
      unfolding write_route
      guarded-Reads request handler stranger db s quiet = rw stranger quiet

      with_db-Reads :
          {A : Type 0} (code : A → ℕ) (m : M A)
          → ((w : World) → m w ≡ ((m w).0, w))
          → Reads (with_db env hash_key database_up redis same_config settings code m)
      unfolding get_db_session
      with_db-Reads {A} code m pure_ db s quiet =
          subst (λ (o : Result A × World). IsQuiet db (get_db_session (λ _. o) s.world).1)
            (sym (pure_ s.world)) (session-IsQuiet db (m s.world).0 s.world quiet)

      route-Reads :
          (e : Endpoint) (request : Request)
          → (is_write e ≡ false) ⊎ (verify_api_key settings request.x_api_key ≡ false)
          → Reads (route env hash_key database_up redis same_config settings e request)
      unfolding route metrics list_rules get_rule list_alerts list_delivery_attempts list_candles
          model_validate
      route-Reads get_health request h = λ db s quiet. quiet
      route-Reads (get_metrics connected) request h =
          with_db-Reads (λ _. 200) (metrics connected) (λ w. ground arith)
      route-Reads (post_rule data_) request (inl h) = absurd (cc)
      route-Reads (post_rule data_) request (inr h) = guarded-Reads request _ h
      route-Reads (put_rule rule_id data_) request (inl h) = absurd (cc)
      route-Reads (put_rule rule_id data_) request (inr h) = guarded-Reads request _ h
      route-Reads (remove_rule rule_id) request (inl h) = absurd (cc)
      route-Reads (remove_rule rule_id) request (inr h) = guarded-Reads request _ h
      route-Reads (get_rules symbol is_active limit offset) request h =
          with_db-Reads code_of (list_rules env symbol is_active limit offset) (λ w. ground arith)
      route-Reads (get_one_rule rule_id) request h =
          with_db-Reads code_of (get_rule env rule_id) (λ w. ground arith)
      route-Reads (get_alerts rule_id symbol limit offset) request h =
          with_db-Reads (λ _. 200) (list_alerts env rule_id symbol limit offset) (λ w. ground arith)
      route-Reads (get_deliveries alert_id limit offset) request h =
          with_db-Reads found_code (list_delivery_attempts env alert_id limit offset)
            (λ w. ground arith)
      route-Reads (get_candles symbol seconds start_time end_time limit offset order) request h =
          with_db-Reads (λ _. 200)
            (list_candles env symbol seconds start_time end_time limit offset order)
            (λ w. ground arith)

      -- What the CORS middleware does with a request: it answers a preflight itself, or calls the
      -- next handler and adds headers to its response.
      abbrev pub IsCors :
          (Handler env hash_key database_up redis → Handler env hash_key database_up redis) → Type 0
      IsCors cors =
          (handler : Handler env hash_key database_up redis)
          (s : ApiState env hash_key database_up redis)
          → ((cors handler s).1 ≡ s) ⊎ ((cors handler s).1 ≡ (handler s).1)

      cors-Reads :
          (cors : Handler env hash_key database_up redis → Handler env hash_key database_up redis)
          (handler : Handler env hash_key database_up redis)
          → IsCors cors
          → Reads handler
          → Reads (cors handler)
      cors-Reads cors handler law reads db s quiet = elim (law handler s) [
        | inl answered ↦ rw answered quiet
        | inr called ↦ rw called (reads db s quiet)
      ]

      -- Whatever an endpoint is asked for, by any method and path and with any header: if it is not
      -- one of the three that write rules, or the X-API-Key is missing or not the administrator's, the
      -- database is as before but for the table of API keys and nothing is left to commit, given
      -- that the request begins with nothing to commit and that the CORS middleware answers itself
      -- or calls what it wraps.
      pub app-guarded :
          (cors : Handler env hash_key database_up redis → Handler env hash_key database_up redis)
          (now : ℕ) (e : Endpoint) (request : Request)
          (st : ApiState env hash_key database_up redis)
          → IsCors cors
          → (is_write e ≡ false) ⊎ IsStranger settings request
          → st.world.committed ≡ st.world.db
          → let (_, st') =
              app env hash_key database_up redis same_config settings cors now e request st in
            (but_keys st'.world.db ≡ but_keys st.world.db) × (st'.world.committed ≡ st'.world.db)
      unfolding app
      app-guarded cors now e request st law h durable =
          middleware-Reads settings _
            (cors-Reads cors (route env hash_key database_up redis same_config settings e request)
              law
              (route-Reads e request (elim h [
                | inl reads ↦ inl reads
                | inr stranger ↦ inr (stranger-verify settings request stranger)
              ])))
            now request st.world.db st (refl, durable)
