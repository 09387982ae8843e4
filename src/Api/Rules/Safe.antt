-- ===== src/Api/Rules/Safe.antt =====
-- Which computations of the indicators and settings raise no KeyError (worker/evaluate/).
use hyperliquid_trading_aler.Prelude.{
  ℕ, zero, suc, ◌+◌, ◌-◌, ◌≢◌, String, Bool, true, false, ◌||◌, key_error, Result, ok, err, ◌>>=◌,
  List, [], ◌∷◌, arith, inl, inr, if◌then◌else◌, Option-cases, zero_division_error, ltb, length,
  ◌==◌,
}
use hyperliquid_trading_aler.Prelude.Int.{ℤ, pos, negsuc, ltb_ℤ}
use hyperliquid_trading_aler.Prelude.Slices.{from_end, item, range_from, map_result}
use hyperliquid_trading_aler.Numerics.{Numerics, fdiv, lit}
use hyperliquid_trading_aler.Db.Rows.{Dict, Value}
use hyperliquid_trading_aler.Evaluate.Indicators.{
  aligned_difference, no_macd, calculate_ema, calculate_macd, calculate_rsi, rsi_from_avgs, smooth,
  rsi_loop, window_band, bands_loop, calculate_bollinger_bands,
}
use hyperliquid_trading_aler.Evaluate.Rules.Config.{get, int_or, float_or}

-- It raises no KeyError.
abbrev pub IsSafe {ℓ} : {A : Type ℓ} → Result A → Type ℓ
IsSafe r = r ≢ err key_error

module _ {A B : Type 0} where
  pub bind-IsSafe :
      (r : Result A) (next : A → Result B)
      → IsSafe r
      → ((a : A) → IsSafe (next a))
      → IsSafe (r >>= next)
  bind-IsSafe (ok a) next h k = k a
  bind-IsSafe (err e) next h k = λ raised. h (cc)

module _ {A : Type 0} where
  pub if-IsSafe : (b : Bool) (r s : Result A) → IsSafe r → IsSafe s → IsSafe (if b then r else s)
  if-IsSafe true r s h k = h
  if-IsSafe false r s h k = k

  pub ok-IsSafe : (a : A) → IsSafe (ok a)
  ok-IsSafe a = λ raised. cc

  item-IsSafe : (n : ℕ) (xs : List A) → IsSafe (item n xs)
  item-IsSafe n [] = λ raised. cc
  item-IsSafe zero (x ∷ xs) = λ raised. cc
  item-IsSafe (suc n) (x ∷ xs) = item-IsSafe n xs

  pub from_end-IsSafe : (n : ℕ) (xs : List A) → IsSafe (from_end n xs)
  unfolding from_end
  from_end-IsSafe n xs =
      if-IsSafe (ltb (length xs) n) _ _ (λ raised. cc) (item-IsSafe (length xs - n) xs)

  range_from-IsSafe : (n : ℤ) (xs : List A) → IsSafe (range_from n xs)
  range_from-IsSafe (pos n) xs = λ raised. cc
  range_from-IsSafe (negsuc n) xs = λ raised. ground arith

-- The number functions raise what Python's raise, which is never a KeyError.
pub record Raises (num : Numerics) : Type 0 where
  pub float_of : (v : Value) → IsSafe (num.float_of v)
  pub int_of : (v : Value) → IsSafe (num.int_of v)
  pub square : (x : num.F) → IsSafe (num.square x)
  pub sqrt : (x : num.F) → IsSafe (num.sqrt x)

module _ (num : Numerics) where
  pub fdiv-IsSafe : (x y : num.F) → IsSafe (fdiv num x y)
  fdiv-IsSafe x y =
      if-IsSafe (num.eq y (lit num 0)) (err zero_division_error) (ok (num.div x y)) (λ raised. cc)
        (λ raised. cc)

  ema-IsSafe : (prices : List num.F) (period : ℤ) → IsSafe (calculate_ema num prices period)
  unfolding calculate_ema
  ema-IsSafe prices period = if-IsSafe _ _ _ (ok-IsSafe _) (
      bind-IsSafe _ _ (fdiv-IsSafe _ _) (λ m. bind-IsSafe _ _ (fdiv-IsSafe _ _) (λ a. ok-IsSafe _)))

  pub macd-IsSafe :
      (prices : List num.F) (fast slow signal : ℤ)
      → IsSafe (calculate_macd num prices fast slow signal)
  unfolding calculate_macd
  macd-IsSafe prices fast slow signal = if-IsSafe _ _ _ (ok-IsSafe _) (
      bind-IsSafe _ _ (ema-IsSafe _ _) (λ f. bind-IsSafe _ _ (ema-IsSafe _ _) (λ s.
        let line = aligned_difference num f s in
        if-IsSafe (ltb_ℤ (pos (length f)) slow || length s == 0) (ok (no_macd num)) _ (ok-IsSafe _)
          (if-IsSafe (ltb_ℤ (pos (length line)) signal) (ok (no_macd num)) _ (ok-IsSafe _) (
            bind-IsSafe _ _ (ema-IsSafe line signal) (λ l.
              if-IsSafe (length l == 0) (ok (no_macd num)) (ok _) (ok-IsSafe _) (ok-IsSafe _)))))))

  rsi_from_avgs-IsSafe : (g l : num.F) → IsSafe (rsi_from_avgs num g l)
  unfolding rsi_from_avgs
  rsi_from_avgs-IsSafe g l = if-IsSafe _ _ _ (ok-IsSafe _) (
      bind-IsSafe _ _ (fdiv-IsSafe _ _) (λ r. bind-IsSafe _ _ (fdiv-IsSafe _ _) (λ a. ok-IsSafe _)))

  rsi_loop-IsSafe :
      (period : ℤ) (g l : num.F) (gs ls : List num.F) → IsSafe (rsi_loop num period g l gs ls)
  unfolding rsi_loop smooth
  rsi_loop-IsSafe period g l [] ls = ok-IsSafe _
  rsi_loop-IsSafe period g l (x ∷ gs) [] = ok-IsSafe _
  rsi_loop-IsSafe period g l (x ∷ gs) (y ∷ ls) = bind-IsSafe _ _ (fdiv-IsSafe _ _) (λ a.
      bind-IsSafe _ _ (fdiv-IsSafe _ _) (λ b.
        bind-IsSafe _ _ (rsi_from_avgs-IsSafe _ _)
          (λ v. bind-IsSafe _ _ (rsi_loop-IsSafe period a b gs ls) (λ vs. ok-IsSafe _))))

  pub calculate_rsi-IsSafe :
      (prices : List num.F) (period : ℤ) → IsSafe (calculate_rsi num prices period)
  unfolding calculate_rsi
  calculate_rsi-IsSafe prices period = if-IsSafe _ _ _ (ok-IsSafe _) (
      bind-IsSafe _ _ (fdiv-IsSafe _ _) (λ g. bind-IsSafe _ _ (fdiv-IsSafe _ _) (λ l.
        bind-IsSafe _ _ (rsi_from_avgs-IsSafe _ _) (λ v.
          bind-IsSafe _ _ (range_from-IsSafe period _) (λ gs.
            bind-IsSafe _ _ (range_from-IsSafe period _)
              (λ ls. bind-IsSafe _ _ (rsi_loop-IsSafe _ _ _ gs ls) (λ vs. ok-IsSafe _)))))))

  module _ (raises : Raises num) where
    squares-IsSafe :
        (mean : num.F) (xs : List num.F) → IsSafe (map_result (λ p. num.square (num.sub p mean)) xs)
    squares-IsSafe mean [] = ok-IsSafe _
    squares-IsSafe mean (x ∷ xs) =
        bind-IsSafe _ _ (raises.square _)
          (λ y. bind-IsSafe _ _ (squares-IsSafe mean xs) (λ ys. ok-IsSafe _))

    pub int_or-IsSafe : (k : String) (n : ℕ) (d : Dict Value) → IsSafe (int_or num k n d)
    int_or-IsSafe k n d = elim (Option-cases (get k d)) [
      | inl missing ↦ rw (int_or, missing) (ok-IsSafe _)
      | inr (v, found) ↦ rw (int_or, found) (raises.int_of v)
    ]

    pub float_or-IsSafe : (k : String) (x : num.F) (d : Dict Value) → IsSafe (float_or num k x d)
    float_or-IsSafe k x d = elim (Option-cases (get k d)) [
      | inl missing ↦ rw (float_or, missing) (ok-IsSafe _)
      | inr (v, found) ↦ rw (float_or, found) (raises.float_of v)
    ]

    window-IsSafe :
        (n : ℕ) (std_dev : num.F) (xs : List num.F) → IsSafe (window_band num n std_dev xs)
    unfolding window_band
    window-IsSafe n std_dev xs = bind-IsSafe _ _ (fdiv-IsSafe _ _) (λ m.
        bind-IsSafe _ _ (squares-IsSafe m xs) (λ ys.
          bind-IsSafe _ _ (fdiv-IsSafe _ _)
            (λ v. bind-IsSafe _ _ (raises.sqrt v) (λ sd. ok-IsSafe _))))

    bands_loop-IsSafe :
        (prices : List num.F) (n : ℕ) (std_dev : num.F) (start rounds : ℕ)
        → IsSafe (bands_loop num prices n std_dev start rounds)
    unfolding bands_loop
    bands_loop-IsSafe prices n std_dev start zero = ok-IsSafe _
    bands_loop-IsSafe prices n std_dev start (suc rounds) =
        bind-IsSafe _ _ (window-IsSafe n std_dev _) (λ b.
          bind-IsSafe _ _ (bands_loop-IsSafe prices n std_dev (start + 1) rounds)
            (λ bs. ok-IsSafe _))

    pub bands-IsSafe :
        (prices : List num.F) (period : ℤ) (std_dev : num.F)
        → IsSafe (calculate_bollinger_bands num prices period std_dev)
    unfolding calculate_bollinger_bands
    bands-IsSafe prices (negsuc n) std_dev = ok-IsSafe _
    bands-IsSafe prices (pos n) std_dev =
        if-IsSafe _ _ _ (ok-IsSafe _) (bands_loop-IsSafe prices n std_dev 0 _)
