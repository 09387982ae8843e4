-- ===== src/Evaluate/Indicators/MacdShape.antt =====
-- `calculate_macd` (worker/evaluate/indicators.py): when it has values, and how many.
use hyperliquid_trading_aler.Prelude.{
  ℕ, ◌+◌, ◌≤◌, ◌<◌, ◌≡◌, refl, true, false, ok, List, arith, length, inl, inr, dec_lt, ◌⊎◌,
}
use hyperliquid_trading_aler.Prelude.Int.{pos, ◌+ℤ◌, ltb_ℤ}
use hyperliquid_trading_aler.Numerics.{Numerics, Laws}
use hyperliquid_trading_aler.Evaluate.Indicators.{Macd, no_macd, aligned_difference, calculate_macd}
use hyperliquid_trading_aler.Evaluate.Indicators.Shape.{
  ema_values, ema_eq, length-ema_values, length-aligned_difference,
}

module _ (num : Numerics) (laws : Laws num) (prices : List num.F) (fast slow signal : ℕ) where
  open num use {F}

  abbrev macd_values : List F
  macd_values =
      aligned_difference num (ema_values num laws prices fast) (ema_values num laws prices slow)

  abbrev long_macd : Macd num
  long_macd = record {
    macd_line = macd_values;
    signal_line = ema_values num laws macd_values signal;
    histogram = aligned_difference num macd_values (ema_values num laws macd_values signal);
  }

  module _ (fast_pos : 0 < fast) (order : fast ≤ slow) (signal_pos : 0 < signal) where
    length-macd_values : slow ≤ length prices → length macd_values + slow ≡ length prices + 1
    length-macd_values k = omega (
      arith,
      length-ema_values num laws prices fast,
      length-ema_values num laws prices slow,
      length-aligned_difference num (ema_values num laws prices fast)
          (ema_values num laws prices slow),
    )

    macd_few :
        length prices < slow + signal
        → calculate_macd num prices (pos fast) (pos slow) (pos signal) ≡ ok (no_macd num)
    unfolding calculate_macd
    macd_few h =
        let few : ltb_ℤ (pos (length prices)) (pos slow +ℤ pos signal) ≡ true = ground arith in
        rw few

    macd_gap :
        slow + signal ≤ length prices
        → length prices + 1 < slow + fast
        → calculate_macd num prices (pos fast) (pos slow) (pos signal) ≡ ok (no_macd num)
    unfolding calculate_macd
    macd_gap enough gap =
        let not_few : ltb_ℤ (pos (length prices)) (pos slow +ℤ pos signal) ≡ false = ground arith in
        let short : ltb_ℤ (pos (length (ema_values num laws prices fast))) (pos slow) ≡ true =
          ground (arith, length-ema_values num laws prices fast) in
        rw (
          not_few,
          ema_eq num laws prices fast (omega arith) fast_pos,
          ema_eq num laws prices slow (omega arith) (omega arith),
          short,
        )

    macd_long :
        slow + signal ≤ length prices
        → slow + fast ≤ length prices + 1
        → calculate_macd num prices (pos fast) (pos slow) (pos signal) ≡ ok long_macd
    unfolding calculate_macd
    macd_long enough room =
        let not_few : ltb_ℤ (pos (length prices)) (pos slow +ℤ pos signal) ≡ false = ground arith in
        let fits : ltb_ℤ (pos (length (ema_values num laws prices fast))) (pos slow) ≡ false =
          ground (arith, length-ema_values num laws prices fast) in
        let signal_fits : ltb_ℤ (pos (length macd_values)) (pos signal) ≡ false =
          ground (arith, length-macd_values) in
        rw
          (
            not_few,
            ema_eq num laws prices fast (omega arith) fast_pos,
            ema_eq num laws prices slow (omega arith) (omega arith),
            fits,
            signal_fits,
            ema_eq num laws macd_values signal (omega (arith, length-macd_values)) signal_pos,
          )
          (ground arith)

    -- For periods from 1 on with fast ≤ slow, `calculate_macd` raises nothing, given that no
    -- positive whole number is zero as a float and the other laws of float arithmetic. It has no
    -- values when there are fewer prices than slow + signal, or fewer than slow + fast - 1.
    -- Otherwise the MACD line has one value for each window of the slow average, the signal line
    -- one for each window of the MACD line, and the histogram as many as the signal line.
    pub macd_shape :
        (m : Macd num) × (calculate_macd num prices (pos fast) (pos slow) (pos signal) ≡ ok m)
        × ((((length prices < slow + signal) ⊎ (length prices + 1 < slow + fast))
              × (m ≡ no_macd num))
            ⊎ ((slow + signal ≤ length prices)
                × (slow + fast ≤ length prices + 1)
                × (length m.macd_line + slow ≡ length prices + 1)
                × (length m.signal_line + signal ≡ length m.macd_line + 1)
                × (length m.histogram ≡ length m.signal_line)))
    macd_shape = elim (dec_lt (length prices) (slow + signal)) [
      | yes few ↦ (no_macd num, macd_few few, inl (inl few, refl))
      | no many ↦ elim (dec_lt (length prices + 1) (slow + fast)) [
        | yes gap ↦ (no_macd num, macd_gap (omega arith) gap, inl (inr gap, refl))
        | no room ↦ (
          long_macd,
          macd_long (omega arith) (omega arith),
          inr (
            omega arith,
            omega arith,
            length-macd_values (omega arith),
            length-ema_values num laws macd_values signal (omega (arith, length-macd_values)),
            omega (
              arith,
              length-macd_values,
              length-ema_values num laws macd_values signal,
              length-aligned_difference num macd_values (ema_values num laws macd_values signal),
            ),
          ),
        )
      ]
    ]
