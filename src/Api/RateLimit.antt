-- ===== src/Api/RateLimit.antt =====
-- api/ratelimit.py: a counter in Redis for each bucket and minute. Redis is a parameter: a state and
-- the three commands that the code sends, each of which may raise.
pub mod Window
use hyperliquid_trading_aler.Prelude.{
  ℕ, ◌+◌, ◌-◌, ◌*◌, ◌/◌, ◌%◌, ◌≡◌, String, Bool, true, false, ◌&&◌, not, Option, none, some, Result,
  ok, err, leb, ◌==◌, is_given, if◌then◌else◌,
}

-- `bucket_id`: the text "admin", or the text of a key's identifier.
pub data Bucket : Type 0 where
  admin : Bucket
  of_key : ℕ → Bucket

-- The key `rl:{bucket_id}:{window}`, by its parts.
pub data Key : Type 0 where
  rl : Bucket → ℕ → Key

pub record Redis : Type 1 where
  pub State : Type 0
  -- is the package `redis` installed?
  pub installed : Bool
  pub ping : State → Result (Unit {0}) × State
  pub incr : Key → State → Result ℕ × State
  pub expire : Key → ℕ → State → Result (Unit {0}) × State

pub record RateLimitResult : Type 0 where
  pub allowed : Bool
  pub limit : ℕ
  pub remaining : ℕ
  pub reset_in : ℕ

module _ (redis : Redis) where
  -- The module's state: whether `_redis_client` is set, and the server.
  pub record Limiter : Type 0 where
    pub cached : Bool
    pub server : redis.State

  -- `_get_client`: is there a client?
  unfoldable pub get_client : Option String → Limiter → Bool × Limiter
  get_client redis_url l =
      if l.cached
      then (true, l)
      else if not (is_given redis_url && redis.installed)
      then (false, l)
      else (let (answer, server) = redis.ping l.server in
          elim answer [
            | ok _ ↦ (true, record l { cached = true; server = server })
            | err _ ↦ (false, record l { server = server })
          ])

  -- The `try` block: INCR, and EXPIRE on the first hit.
  unfoldable pub hit : Key → redis.State → Result ℕ × redis.State
  hit key s =
      let (count, s1) = redis.incr key s in
      elim count [
        | err e ↦ (err e, s1)
        | ok n ↦
            if n == 1
            then (let (answer, s2) = redis.expire key 61 s1 in
                elim answer [ ok _ ↦ (ok n, s2) | err e ↦ (err e, s2) ])
            else (ok n, s1)
      ]

  -- What is answered when Redis cannot be asked.
  abbrev pub fail_open : ℕ → ℕ → RateLimitResult
  fail_open limit reset_in = record {
    allowed = true;
    limit = limit;
    remaining = limit;
    reset_in = reset_in;
  }

  abbrev pub counted : ℕ → ℕ → ℕ → RateLimitResult
  counted limit reset_in count = record {
    allowed = leb count limit;
    limit = limit;
    remaining = limit - count;
    reset_in = reset_in;
  }

  -- `now` is `int(time.time())`.
  unfoldable pub check_rate_limit :
      ℕ → Option String → Bucket → ℕ → Limiter → RateLimitResult × Limiter
  check_rate_limit now redis_url bucket_id limit_per_minute l =
      let (connected, l1) = get_client redis_url l in
      if not connected
      then (fail_open limit_per_minute 60, l1)
      else (let (count, s) = hit (rl bucket_id (now / 60)) l1.server in
          let reset_in = 60 - now % 60 in
          (
            elim count [
              | ok n ↦ counted limit_per_minute reset_in n
              | err _ ↦ fail_open limit_per_minute reset_in
            ],
            record l1 { server = s },
          ))

  -- `close_client`, but for the closing of the connection.
  unfoldable pub close_client : Limiter → Limiter
  close_client l = record l { cached = false }
