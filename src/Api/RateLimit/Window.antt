-- ===== src/Api/RateLimit/Window.antt =====
-- What the rate limiter promises (api/ratelimit.py).
use hyperliquid_trading_aler.Prelude.{
  ℕ, ◌+◌, ◌-◌, ◌/◌, ◌≤◌, ◌≡◌, ◌⊎◌, min, String, true, Option, ok, List, [], ◌∷◌, All, leb, arith,
  if◌then◌else◌, length, subst,
}
use hyperliquid_trading_aler.Api.RateLimit.{
  Bucket, Key, rl, Redis, RateLimitResult, Limiter, get_client, hit, check_rate_limit,
}

-- INCR and EXPIRE as Redis documents them, while it answers: a counter that INCR raises by one, and
-- that EXPIRE leaves alone until the time is over, which is after the minute of the key.
pub record Counts (redis : Redis) : Type 0 where
  pub value : Key → redis.State → ℕ
  pub incr_ok :
      (k : Key) (s : redis.State)
      → ((redis.incr k s).0 ≡ ok (value k s + 1)) × (value k (redis.incr k s).1 ≡ value k s + 1)
  pub expire_ok :
      (k : Key) (n : ℕ) (s : redis.State)
      → ((redis.expire k n s).0 ≡ ok tt) × (value k (redis.expire k n s).1 ≡ value k s)

module _ (redis : Redis) where
  -- Whatever Redis does, the seconds until the reset are from 1 to 60, no more than the limit remain,
  -- and a request is refused only when nothing remains.
  pub reset_range :
      (now : ℕ) (url : Option String) (bucket : Bucket) (limit : ℕ) (l : Limiter redis)
      → let r = (check_rate_limit redis now url bucket limit l).0 in
        (1 ≤ r.reset_in)
        × (r.reset_in ≤ 60)
        × (r.remaining ≤ limit)
        × (r.limit ≡ limit)
        × ((r.allowed ≡ true) ⊎ (r.remaining ≡ 0))
  unfolding check_rate_limit
  reset_range now url bucket limit l = ground arith

  module _ (counts : Counts redis) where
    open counts use {value, incr_ok, expire_ok}

    hit-counts :
        (k : Key) (s : redis.State)
        → ((hit redis k s).0 ≡ ok (value k s + 1)) × (value k (hit redis k s).1 ≡ value k s + 1)
    unfolding hit
    hit-counts k s = ground (arith, incr_ok k s, expire_ok k 61 (redis.incr k s).1)

  module _ (url : Option String) (bucket : Bucket) (limit : ℕ) where
    -- The requests of one bucket, by their times in seconds: how many are let through.
    abbrev pub passed : List ℕ → Limiter redis → ℕ
    passed [] l = 0
    passed (now ∷ times) l =
        let (r, l') = check_rate_limit redis now url bucket limit l in
        let rest = passed times l' in (if r.allowed then 1 else 0) + rest

    module _ (counts : Counts redis) where
      open counts use {value}

      -- What one request does to the counter of a minute, and how it is answered.
      abbrev Counted : ℕ → Limiter redis → RateLimitResult × Limiter redis → Type 0
      Counted minute l (r, l') =
          (r.allowed ≡ leb (value (rl bucket minute) l.server + 1) limit)
          × (l'.cached ≡ true)
          × (value (rl bucket minute) l'.server ≡ value (rl bucket minute) l.server + 1)

      check-Counted :
          (now : ℕ) (l : Limiter redis)
          → l.cached ≡ true
          → Counted (now / 60) l (check_rate_limit redis now url bucket limit l)
      unfolding check_rate_limit get_client
      check-Counted now l connected =
          ground (arith, hit-counts counts (rl bucket (now / 60)) l.server)

      -- Once the client is connected and while Redis answers, exactly as many of a bucket's
      -- requests in one minute are let through as the limit leaves room for: all of them, until the
      -- counter is at the limit, and none after.
      pub window_exact :
          (minute : ℕ) (times : List ℕ) (l : Limiter redis)
          → l.cached ≡ true
          → All (λ now. now / 60 ≡ minute) times
          → passed times l ≡ min (length times) (limit - value (rl bucket minute) l.server)
      window_exact minute [] l connected same = ground arith
      window_exact minute (now ∷ times) l connected (here, later) =
          let (r, l') = check_rate_limit redis now url bucket limit l in
          let (allowed, connected', counted') =
            subst (λ m. Counted m l (check_rate_limit redis now url bucket limit l)) here
              (check-Counted now l connected) in
          let rest = window_exact minute times l' connected' later in rw rest (ground arith)
