-- ===== src/Evaluate/Indicators.antt =====
-- worker/evaluate/indicators.py, over float arithmetic as a parameter. The periods are Python ints,
-- so a zero or negative one does what the slices and divisions of the source do with it.
pub mod Shape
pub mod MacdShape
pub mod RsiRange
pub mod BandOrder
use hyperliquid_trading_aler.Prelude.{
  ℕ, zero, suc, ◌+◌, ◌-◌, Bool, true, false, ◌||◌, Result, ok, err, ◌>>=◌, ◌>>◌, List, [], ◌∷◌, map,
  min, ltb, leb, ◌==◌, length, take, drop, if◌then◌else◌,
}
use hyperliquid_trading_aler.Prelude.Int.{ℤ, pos, negsuc, ◌+ℤ◌, ◌-ℤ◌, ltb_ℤ, leb_ℤ}
use hyperliquid_trading_aler.Prelude.Slices.{
  negative, slice_to, slice_from, range_from, map_result, zip_with,
}
use hyperliquid_trading_aler.Numerics.{Numerics, fdiv, fmax, lit}

module _ (num : Numerics) where
  open num use {F, of_int, add, sub, mul, div, neg, lt, le, eq, sum, square, sqrt}

  -- The loop of `calculate_ema`; `last` is `ema_values[-1]`.
  unfoldable pub ema_loop : F → F → List F → List F
  ema_loop multiplier last [] = []
  ema_loop multiplier last (price ∷ rest) =
      let ema = add (mul (sub price last) multiplier) last in ema ∷ ema_loop multiplier ema rest

  unfoldable pub calculate_ema : List F → ℤ → Result (List F)
  calculate_ema prices period = if ltb_ℤ (pos (length prices)) period then ok [] else do
    multiplier ← fdiv num (lit num 2) (of_int (period +ℤ pos 1))
    sma ← fdiv num (sum (slice_to period prices)) (of_int period)
    ok (sma ∷ ema_loop multiplier sma (slice_from period prices))

  -- The three lists that `calculate_macd` returns.
  pub record Macd : Type 0 where
    pub macd_line : List F
    pub signal_line : List F
    pub histogram : List F

  abbrev pub no_macd : Macd
  no_macd = record { macd_line = []; signal_line = []; histogram = [] }

  -- `[x - y for x, y in zip(xs[-n:], ys[-n:])]` with n the shorter length
  unfoldable pub aligned_difference : List F → List F → List F
  aligned_difference xs ys =
      let min_len = min (length xs) (length ys) in
      zip_with sub (slice_from (negative min_len) xs) (slice_from (negative min_len) ys)

  unfoldable pub calculate_macd : List F → ℤ → ℤ → ℤ → Result Macd
  calculate_macd prices fast_period slow_period signal_period =
      if ltb_ℤ (pos (length prices)) (slow_period +ℤ signal_period) then ok no_macd else do
        fast_ema ← calculate_ema prices fast_period
        slow_ema ← calculate_ema prices slow_period
        if ltb_ℤ (pos (length fast_ema)) slow_period || length slow_ema == 0 then ok no_macd else do
          let macd_line = aligned_difference fast_ema slow_ema
          if ltb_ℤ (pos (length macd_line)) signal_period then ok no_macd else do
            signal_line ← calculate_ema macd_line signal_period
            if length signal_line == 0
                then ok no_macd
                else ok (record {
                  macd_line = macd_line;
                  signal_line = signal_line;
                  histogram = aligned_difference macd_line signal_line;
                })

  unfoldable pub rsi_from_avgs : F → F → Result F
  rsi_from_avgs avg_gain avg_loss = if eq avg_loss (lit num 0) then ok (lit num 100) else do
    rs ← fdiv num avg_gain avg_loss
    ratio ← fdiv num (lit num 100) (add (lit num 1) rs)
    ok (sub (lit num 100) ratio)

  -- `prices[i] - prices[i - 1]` for i from 1
  unfoldable pub changes : List F → List F
  changes [] = []
  changes (p ∷ []) = []
  changes (p ∷ q ∷ rest) = sub q p ∷ changes (q ∷ rest)

  -- One smoothing step of Wilder's average.
  unfoldable pub smooth : ℤ → F → F → Result F
  smooth period average value =
      fdiv num (add (mul average (of_int (period -ℤ pos 1))) value) (of_int period)

  -- The second loop of `calculate_rsi`, over the gains and losses from index `period` on.
  unfoldable pub rsi_loop : ℤ → F → F → List F → List F → Result (List F)
  rsi_loop period avg_gain avg_loss (gain ∷ gains) (loss ∷ losses) =
      smooth period avg_gain gain >>= λ next_gain. smooth period avg_loss loss >>= λ next_loss.
      rsi_from_avgs next_gain next_loss >>= λ value.
      rsi_loop period next_gain next_loss gains losses >>= λ rest. ok (value ∷ rest)
  rsi_loop period avg_gain avg_loss _ _ = ok []

  unfoldable pub gains_of : List F → List F
  gains_of prices = map (λ change. fmax num change (lit num 0)) (changes prices)

  unfoldable pub losses_of : List F → List F
  losses_of prices = map (λ change. fmax num (neg change) (lit num 0)) (changes prices)

  unfoldable pub calculate_rsi : List F → ℤ → Result (List F)
  calculate_rsi prices period = if leb_ℤ (pos (length prices)) period then ok [] else do
    let gains = gains_of prices
    let losses = losses_of prices
    avg_gain ← fdiv num (sum (slice_to period gains)) (of_int period)
    avg_loss ← fdiv num (sum (slice_to period losses)) (of_int period)
    first ← rsi_from_avgs avg_gain avg_loss
    later_gains ← range_from period gains
    later_losses ← range_from period losses
    rest ← rsi_loop period avg_gain avg_loss later_gains later_losses
    ok (first ∷ rest)

  -- The bands of one window: upper, middle, lower.
  pub record Band : Type 0 where
    pub upper : F
    pub middle : F
    pub lower : F

  unfoldable pub window_band : ℕ → F → List F → Result Band
  window_band period std_dev window = do
    mean ← fdiv num (sum window) (lit num period)
    squares ← map_result (λ p. square (sub p mean)) window
    variance ← fdiv num (sum squares) (lit num period)
    sd ← sqrt variance
    ok (record {
      upper = add mean (mul std_dev sd);
      middle = mean;
      lower = sub mean (mul std_dev sd);
    })

  -- `rounds` windows, the first of them at `prices[start : start + period]`.
  unfoldable pub bands_loop : List F → ℕ → F → ℕ → ℕ → Result (List Band)
  bands_loop prices period std_dev start zero = ok []
  bands_loop prices period std_dev start (suc rounds) =
      window_band period std_dev (take period (drop start prices)) >>= λ band.
      bands_loop prices period std_dev (start + 1) rounds >>= λ rest. ok (band ∷ rest)

  -- The three lists are returned as one list of bands.
  unfoldable pub calculate_bollinger_bands : List F → ℤ → F → Result (List Band)
  calculate_bollinger_bands prices (negsuc n) std_dev = ok []
  calculate_bollinger_bands prices (pos period) std_dev =
      if ltb (length prices) period || period == 0
      then ok []
      else bands_loop prices period std_dev 0 (length prices - (period - 1))
