-- ===== src/Dispatch/Retry/Backoff.antt =====
-- `calculate_backoff` and the wait before a retry (worker/dispatch/retry.py).
use hyperliquid_trading_aler.Prelude.{
  ℕ, zero, suc, ◌+◌, ◌*◌, ◌/◌, ◌^◌, ◌≤◌, ◌≡◌, refl, min, false, some, arith, ok,
}
use hyperliquid_trading_aler.Db.{Env, World}
use hyperliquid_trading_aler.Db.Rows.{Alert}
use hyperliquid_trading_aler.Dispatch.Retry.{base, calculate_backoff, is_waiting}

-- `random.uniform(0, hi)` lies between its bounds.
abbrev pub IsUniform : Env → Type 0
IsUniform env = (k hi : ℕ) → env.uniform k hi ≤ hi

pow_mono : (n : ℕ) → 1 ≤ 2 ^ n
pow_mono zero = omega arith
pow_mono (suc n) = omega (arith, pow_mono n)

base_range : (n : ℕ) → (500000 ≤ base n) × (base n ≤ 32000000)
unfolding base
base_range zero = (omega arith, omega arith)
base_range (suc n) = (omega (arith, pow_mono n), omega arith)

base_doubles : (n : ℕ) → base (suc n) ≡ min (base n * 2) 32000000
unfolding base
base_doubles zero = refl
base_doubles (suc n) = omega arith

module _ (env : Env) (uniform : IsUniform env) where
  -- When `random.uniform` stays within its bounds, the backoff after n attempts lies between its
  -- base and one and a half times its base. The base starts at half a second, doubles with each
  -- attempt and stays at 32 seconds once it is there, so no backoff is above 48 seconds.
  pub backoff_bounds :
      (n : ℕ) (w : World)
      → (b : ℕ) × ((calculate_backoff env n w).0 ≡ ok b)
        × (base n ≤ b)
        × (b * 2 ≤ base n * 3)
        × (b ≤ 48000000)
        × (base 0 ≡ 500000)
        × (base (suc n) ≡ min (base n * 2) 32000000)
  unfolding calculate_backoff
  backoff_bounds n w =
      let jitter = env.uniform w.draws (base n / 2) in
      (
        base n + jitter,
        ground arith,
        omega arith,
        omega (arith, uniform w.draws (base n / 2)),
        omega (arith, uniform w.draws (base n / 2), base_range n),
        refl,
        base_doubles n,
      )

  pub not_waiting :
      (a : Alert) (now last : ℕ) (w : World)
      → a.last_delivery_attempt ≡ some last
      → last + 48000000 ≤ now
      → (is_waiting env a now w).0 ≡ ok false
  unfolding is_waiting
  not_waiting a now last w seen late = ground (arith, backoff_bounds a.delivery_attempts w)
