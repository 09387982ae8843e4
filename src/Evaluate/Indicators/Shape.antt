-- ===== src/Evaluate/Indicators/Shape.antt =====
-- How long the lists are that the indicators return, and that they raise nothing, for periods from
-- 1 on (worker/evaluate/indicators.py).
use hyperliquid_trading_aler.Prelude.{
  ℕ, zero, suc, ◌+◌, ◌-◌, ◌≤◌, ◌<◌, ◌≡◌, refl, ap, false, ok, List, [], ◌∷◌, min, arith, length,
  take, drop, length-drop,
}
use hyperliquid_trading_aler.Prelude.Int.{pos, ◌+ℤ◌, ltb_ℤ}
use hyperliquid_trading_aler.Prelude.Slices.{negative, slice_from, zip_with}
use hyperliquid_trading_aler.Numerics.{Numerics, Laws, fdiv, lit}
use hyperliquid_trading_aler.Evaluate.Indicators.{ema_loop, calculate_ema, aligned_difference}

length-zip_with :
    {A B C : Type 0} (f : A → B → C) (xs : List A) (ys : List B)
    → length (zip_with f xs ys) ≡ min (length xs) (length ys)
length-zip_with f [] ys = omega arith
length-zip_with f (x ∷ xs) [] = omega arith
length-zip_with f (x ∷ xs) (y ∷ ys) = omega (arith, length-zip_with f xs ys)

length-tail :
    {A : Type 0} (n : ℕ) (xs : List A)
    → 0 < n
    → n ≤ length xs
    → length (slice_from (negative n) xs) ≡ n
length-tail zero xs h k = absurd (omega arith)
length-tail (suc n) xs h k = omega (arith, length-drop (length xs - suc n) xs)

module _ (num : Numerics) where
  open num use {F, of_int, sub}

  length-ema_loop : (m l : F) (xs : List F) → length (ema_loop num m l xs) ≡ length xs
  unfolding ema_loop
  length-ema_loop m l [] = refl
  length-ema_loop m l (x ∷ xs) = ap suc (length-ema_loop m (num.add (num.mul (sub x l) m) l) xs)

  pub length-aligned_difference :
      (xs ys : List F)
      → 0 < length xs
      → 0 < length ys
      → length (aligned_difference num xs ys) ≡ min (length xs) (length ys)
  unfolding aligned_difference
  length-aligned_difference xs ys hx hy =
      let n = min (length xs) (length ys) in
      omega (
        arith,
        length-zip_with sub (slice_from (negative n) xs) (slice_from (negative n) ys),
        length-tail n xs (omega arith) (omega arith),
        length-tail n ys (omega arith) (omega arith),
      )

  module _ (laws : Laws num) where
    pub fdiv-suc : (x : F) (n : ℕ) → fdiv num x (lit num (suc n)) ≡ ok (num.div x (lit num (suc n)))
    fdiv-suc x n = rw (laws.lit_nonzero n)

    -- The moving average as the source computes it, where nothing is raised.
    abbrev pub ema_values : List F → ℕ → List F
    ema_values prices n =
        let sma = num.div (num.sum (take n prices)) (lit num n) in
        sma ∷ ema_loop num (num.div (lit num 2) (lit num (suc n))) sma (drop n prices)

    pub ema_eq :
        (prices : List F) (n : ℕ)
        → n ≤ length prices
        → 0 < n
        → calculate_ema num prices (pos n) ≡ ok (ema_values prices n)
    unfolding calculate_ema
    ema_eq prices zero k h = absurd (omega arith)
    ema_eq prices (suc n) k h =
        let long_enough : ltb_ℤ (pos (length prices)) (pos (suc n)) ≡ false = ground arith in
        let next : pos (suc n) +ℤ pos 1 ≡ pos (suc (suc n)) = ground arith in
        rw (long_enough, next, laws.lit_nonzero (suc n), laws.lit_nonzero n)

    pub length-ema_values :
        (prices : List F) (n : ℕ)
        → n ≤ length prices
        → length (ema_values prices n) + n ≡ length prices + 1
    length-ema_values prices n k = omega (
      arith,
      length-ema_loop (num.div (lit num 2) (lit num (suc n)))
          (num.div (num.sum (take n prices)) (lit num n)) (drop n prices),
      length-drop n prices,
    )
