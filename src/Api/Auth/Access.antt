-- ===== src/Api/Auth/Access.antt =====
-- Who gets to a route (api/middleware/auth.py, api/dependencies.py).
use hyperliquid_trading_aler.Prelude.{
  ℕ, ◌≡◌, ◌≢◌, ◌⊎◌, inl, ap, str_eq, eq_iff, inr, refl, ◌∙◌, String, Bool, false, Result, ok, err,
  some, [], arith, Bool-cases, Option-cases,
}
use hyperliquid_trading_aler.Config.{ApiSettings}
use hyperliquid_trading_aler.Db.{Env, Database, World}
use hyperliquid_trading_aler.Api.RateLimit.{Bucket, Redis, check_rate_limit}
use hyperliquid_trading_aler.Api.Auth.{
  Request, Response, plain, Identity, known, unknown, unavailable, verify_api_key, lookup_key,
  identify, ApiState, Handler, limited, answer, authenticate, middleware, write_route,
}

-- The key of a request is not the administrator's: it is missing or another text.
abbrev pub IsStranger : ApiSettings → Request → Type 0
IsStranger settings request = request.x_api_key ≢ some settings.api_key

pub stranger-verify :
    (settings : ApiSettings) (request : Request)
    → IsStranger settings request
    → verify_api_key settings request.x_api_key ≡ false
unfolding verify_api_key
stranger-verify settings request stranger = elim (Option-cases request.x_api_key) [
  | inl missing ↦ rw missing refl
  | inr (key, given) ↦ elim (Bool-cases (str_eq key settings.api_key)) [
    | inl same ↦ absurd (stranger (given ∙ ap some ((eq_iff key settings.api_key).0 same)))
    | inr differs ↦ rw given (ground (arith, differs))
  ]
]

-- What a database holds but for the API keys.
abbrev pub but_keys : Database → Database
but_keys db = record db { api_keys = [] }

module _ (env : Env) (hash_key : String → String) (database_up : World → Bool) where
  identify-keeps :
      (settings : ApiSettings) (raw : String) (w : World)
      → but_keys (identify env hash_key database_up settings raw w).1.db ≡ but_keys w.db
  unfolding identify lookup_key
  identify-keeps settings raw w = ground arith

  module _ (redis : Redis) where
    abbrev pub IsRefusal : Result Response → Type 0
    IsRefusal (ok response) =
        (response.status ≡ 401) ⊎ ((response.status ≡ 429) ⊎ (response.status ≡ 503))
    IsRefusal (err e) = ⊥

    abbrev pub Refused :
        Database → Result Response × ApiState env hash_key database_up redis → Type 0
    Refused db (result, st') = IsRefusal result × (but_keys st'.world.db ≡ but_keys db)

    route-refuses :
        (settings : ApiSettings) (handler : Handler env hash_key database_up redis)
        (request : Request)
        → verify_api_key settings request.x_api_key ≡ false
        → (s : ApiState env hash_key database_up redis)
        → write_route env hash_key database_up redis settings handler request s
          ≡ (ok (plain 401), s)
    unfolding write_route
    route-refuses settings handler request stranger s = rw stranger refl

    module _ (settings : ApiSettings) (route : Handler env hash_key database_up redis)
        (refuses : (s : ApiState env hash_key database_up redis)
          → route s ≡ (ok (plain 401), s)) where
      limited-Refused :
          (now : ℕ) (b : Bucket) (limit : ℕ) (st : ApiState env hash_key database_up redis)
          → Refused st.world.db
              (limited env hash_key database_up redis settings route now b limit st)
      unfolding limited
      limited-Refused now b limit st =
          let (rl, limiter) =
            check_rate_limit redis now (some settings.redis_url) b limit st.limiter in
          let here = refuses (record st { limiter = limiter }) in
          elim (Bool-cases rl.allowed) [ inl yes_ ↦ ground (arith, here) | inr no_ ↦ ground arith ]

      answer-Refused :
          (now : ℕ) (i : Identity) (st : ApiState env hash_key database_up redis) (db : Database)
          → but_keys st.world.db ≡ but_keys db
          → Refused db (answer env hash_key database_up redis settings route now i st)
      unfolding answer
      answer-Refused now (known b limit) st db same =
          let (status, kept) = limited-Refused now b limit st in (status, kept ∙ same)
      answer-Refused now unknown st db same = (inl refl, same)
      answer-Refused now unavailable st db same = (inr (inr refl), same)

      authenticate-Refused :
          (now : ℕ) (raw : String) (st : ApiState env hash_key database_up redis)
          → Refused st.world.db
              (authenticate env hash_key database_up redis settings route now raw st)
      unfolding authenticate
      authenticate-Refused now raw st =
          let (i, w) = identify env hash_key database_up settings raw st.world in
          answer-Refused now i (record st { world = w }) st.world.db
            (identify-keeps settings raw st.world)

      middleware-Refused :
          (now : ℕ) (request : Request) (st : ApiState env hash_key database_up redis)
          → Refused st.world.db
              (middleware env hash_key database_up redis settings route now request st)
      unfolding middleware
      middleware-Refused now request st = elim (Option-cases request.x_api_key) [
        | inl missing ↦ ground (arith, refuses st)
        | inr (raw, given) ↦ ground (arith, refuses st, authenticate-Refused now raw st)
      ]

    -- A request whose X-API-Key is missing or another text than the administrator's key never
    -- reaches the handler of a write route, whatever its path and method are and whatever rows the
    -- table of API keys holds: the answer is 401, 429 or 503, and the database is as before but for
    -- the table of API keys.
    pub write_needs_admin_key :
        (settings : ApiSettings) (handler : Handler env hash_key database_up redis) (now : ℕ)
        (request : Request) (st : ApiState env hash_key database_up redis)
        → IsStranger settings request
        → Refused st.world.db (
            middleware env hash_key database_up redis settings
              (write_route env hash_key database_up redis settings handler request)
              now
              request
              st)
    write_needs_admin_key settings handler now request st stranger =
        middleware-Refused settings
          (write_route env hash_key database_up redis settings handler request)
          (route-refuses settings handler request (stranger-verify settings request stranger)) now
          request st
