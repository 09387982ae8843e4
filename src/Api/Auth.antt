-- ===== src/Api/Auth.antt =====
-- api/middleware/auth.py and the dependency `verify_api_key` of api/dependencies.py. The routes behind
-- the middleware are a parameter, `call_next`.
pub mod Access
use hyperliquid_trading_aler.Prelude.{
  ℕ, ◌*◌, ◌/◌, String, Bool, true, false, ◌&&◌, ◌||◌, not, Option, none, some, Result, ok, err,
  List, [], ◌∷◌, find, str_eq, is_given, if◌then◌else◌,
}
use hyperliquid_trading_aler.Config.{ApiSettings}
use hyperliquid_trading_aler.Db.{
  Env, Database, World, M, pure, ◌>>=◌, ◌>>◌, gets, modify, commit, utcnow,
}
use hyperliquid_trading_aler.Db.Rows.{ApiKey}
use hyperliquid_trading_aler.Db.Table.{update}
use hyperliquid_trading_aler.Api.RateLimit.{
  Bucket, admin, of_key, Redis, RateLimitResult, Limiter, check_rate_limit,
}

pub record Request : Type 0 where
  pub path : String
  pub method : String
  pub x_api_key : Option String

-- The three X-RateLimit headers.
pub record RateHeaders : Type 0 where
  pub limit : ℕ
  pub remaining : ℕ
  pub reset : ℕ

-- A response, by its status and the headers that the middleware sets.
pub record Response : Type 0 where
  pub status : ℕ
  pub retry_after : Option ℕ
  pub rate : Option RateHeaders

abbrev pub plain : ℕ → Response
plain status = record { status = status; retry_after = none; rate = none }

abbrev is_in : List String → String → Bool
is_in [] s = false
is_in (x ∷ xs) s = str_eq x s || is_in xs s

unfoldable pub is_public : String → Bool
is_public path = is_in ("/health" ∷ "/metrics" ∷ "/docs" ∷ "/openapi.json" ∷ "/redoc" ∷ []) path

unfoldable pub is_read : String → Bool
is_read method = is_in ("GET" ∷ "HEAD" ∷ "OPTIONS" ∷ []) method

-- What the key of a request is: a bucket with its limit, no key that is known, or a failed lookup.
pub data Identity : Type 0 where
  known : Bucket → ℕ → Identity
  unknown unavailable : Identity

-- `if not x_api_key or x_api_key != settings.api_key: raise HTTPException(401)`
unfoldable pub verify_api_key : ApiSettings → Option String → Bool
verify_api_key settings none = false
verify_api_key settings (some key) = not (str_eq key "") && str_eq key settings.api_key

-- `hash_key` is SHA-256, and `database_up` whether the session can be used.
module _ (env : Env) (hash_key : String → String) (database_up : World → Bool) where
  -- The lookup of a key that is not the administrator's.
  unfoldable pub lookup_key : String → M Identity
  lookup_key raw_key = do
    found ← gets (λ db.
        find (λ (k : ApiKey). str_eq k.key_hash (hash_key raw_key) && k.is_active) db.api_keys)
    elim found [
      | none ↦ pure unknown
      | some key ↦ (do
        now ← utcnow env
        modify (λ db. record db {
          api_keys =
              update (λ (k : ApiKey). k.id) (record key { last_used_at = some now }) db.api_keys;
        })
        commit
        pure (known (of_key key.id) key.requests_per_minute))
    ]

  unfoldable pub identify : ApiSettings → String → World → Identity × World
  identify settings raw_key w =
      if str_eq raw_key settings.api_key
      then (known admin settings.admin_rate_limit_per_minute, w)
      else if not (database_up w)
      then (unavailable, w)
      else (let (answer, w') = lookup_key raw_key w in
          elim answer [ ok identity ↦ (identity, w') | err e ↦ (unavailable, w') ])

  module _ (redis : Redis) where
    pub record ApiState : Type 0 where
      pub world : World
      pub limiter : Limiter redis

    -- The routes, as the middleware calls them: a response, or an exception.
    abbrev pub Handler : Type 0
    Handler = ApiState → Result Response × ApiState

    abbrev pub set_headers : RateLimitResult → Response → Response
    set_headers rl response = record response {
      rate = some (record { limit = rl.limit; remaining = rl.remaining; reset = rl.reset_in });
    }

    -- An exception of the route goes through the middleware.
    abbrev pub with_headers : RateLimitResult → Result Response → Result Response
    with_headers rl (ok response) = ok (set_headers rl response)
    with_headers rl (err e) = err e

    abbrev pub too_many : RateLimitResult → Response
    too_many rl = record {
      status = 429;
      retry_after = some rl.reset_in;
      rate = some (record { limit = rl.limit; remaining = 0; reset = rl.reset_in });
    }

    -- The end of `dispatch`, once the key has its bucket: the rate limit, and the route.
    unfoldable pub limited :
        ApiSettings → Handler → ℕ → Bucket → ℕ → ApiState → Result Response × ApiState
    limited settings call_next now bucket limit st =
        let (rl, limiter) =
          check_rate_limit redis now (some settings.redis_url) bucket limit st.limiter in
        let st1 : ApiState = record st { limiter = limiter } in
        if not rl.allowed
        then (ok (too_many rl), st1)
        else (let (response, st2) = call_next st1 in (with_headers rl response, st2))

    -- What `dispatch` does with the identity of a request.
    unfoldable pub answer :
        ApiSettings → Handler → ℕ → Identity → ApiState → Result Response × ApiState
    answer settings call_next now (known bucket limit) st =
        limited settings call_next now bucket limit st
    answer settings call_next now unknown st = (ok (plain 401), st)
    answer settings call_next now unavailable st = (ok (plain 503), st)

    -- The part of `dispatch` for write verbs.
    unfoldable pub authenticate :
        ApiSettings → Handler → ℕ → String → ApiState → Result Response × ApiState
    authenticate settings call_next now raw_key st =
        let (identity, w) = identify settings raw_key st.world in
        answer settings call_next now identity (record st { world = w })

    -- `dispatch`; `now` is the time in seconds.
    unfoldable pub middleware :
        ApiSettings → Handler → ℕ → Request → ApiState → Result Response × ApiState
    middleware settings call_next now request st =
        if is_public request.path || is_read request.method
        then call_next st
        else if not (is_given request.x_api_key)
        then (ok (plain 401), st)
        else elim request.x_api_key [
          | none ↦ (ok (plain 401), st)
          | some raw_key ↦ authenticate settings call_next now raw_key st
        ]

    -- A route with `Depends(verify_api_key)`.
    unfoldable pub write_route : ApiSettings → Handler → Request → Handler
    write_route settings handler request st =
        if verify_api_key settings request.x_api_key then handler st else (ok (plain 401), st)
