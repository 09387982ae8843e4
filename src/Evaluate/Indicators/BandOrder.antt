-- ===== src/Evaluate/Indicators/BandOrder.antt =====
-- `calculate_bollinger_bands` (worker/evaluate/indicators.py): the number and the order of the bands.
use hyperliquid_trading_aler.Prelude.{
  ℕ, zero, suc, ◌+◌, ◌-◌, ◌≤◌, ◌<◌, ◌≡◌, refl, ap, true, false, ◌||◌, ok, List, [], ◌∷◌, arith,
  length, take, drop, All, ltb, ◌==◌,
}
use hyperliquid_trading_aler.Prelude.Int.{pos}
use hyperliquid_trading_aler.Prelude.Slices.{map_result}
use hyperliquid_trading_aler.Numerics.{Numerics, Laws, lit, IsNonneg}
use hyperliquid_trading_aler.Evaluate.Indicators.{
  Band, window_band, bands_loop, calculate_bollinger_bands,
}

module _ (num : Numerics) (laws : Laws num) where
  open num use {F, le}

  -- lower ≤ middle ≤ upper
  abbrev pub IsOrdered : Band num → Type 0
  IsOrdered b = (le b.lower b.middle ≡ true) × (le b.middle b.upper ≡ true)

  squares-IsNonneg :
      (mean : F) (xs : List F)
      → (ys : List F) × (map_result (λ p. num.square (num.sub p mean)) xs ≡ ok ys)
        × All (IsNonneg num) ys
  squares-IsNonneg mean [] = ([], refl, tt)
  squares-IsNonneg mean (x ∷ xs) =
      let (y, ey, ny) = laws.square_nonneg (num.sub x mean) in
      let (ys, eys, nys) = squares-IsNonneg mean xs in (y ∷ ys, rw (ey, eys), (ny, nys))

  module _ (std_dev : F) (n : ℕ) (spread : IsNonneg num std_dev) where
    band-IsOrdered :
        (window : List F)
        → (b : Band num) × (window_band num (suc n) std_dev window ≡ ok b) × IsOrdered b
    unfolding window_band
    band-IsOrdered window =
        let mean = num.div (num.sum window) (lit num (suc n)) in
        let (ys, eys, nys) = squares-IsNonneg mean window in
        let variance = num.div (num.sum ys) (lit num (suc n)) in
        let (sd, esd, nsd) = laws.sqrt_nonneg variance (
          laws.div_nonneg (num.sum ys) (lit num (suc n)) (laws.sum_nonneg ys nys)
            (laws.lit_nonneg (suc n)) (laws.lit_nonzero n)) in
        let reach = laws.mul_nonneg std_dev sd spread nsd in
        (
          record {
            upper = num.add mean (num.mul std_dev sd);
            middle = mean;
            lower = num.sub mean (num.mul std_dev sd);
          },
          rw (laws.lit_nonzero n, eys, esd),
          (
            laws.sub_le mean (num.mul std_dev sd) reach,
            laws.le_add mean (num.mul std_dev sd) reach,
          ),
        )

    bands-IsOrdered :
        (prices : List F) (start rounds : ℕ)
        → (bs : List (Band num)) × (bands_loop num prices (suc n) std_dev start rounds ≡ ok bs)
          × (length bs ≡ rounds)
          × All IsOrdered bs
    unfolding bands_loop
    bands-IsOrdered prices start zero = ([], refl, refl, tt)
    bands-IsOrdered prices start (suc rounds) =
        let (b, eb, ob) = band-IsOrdered (take (suc n) (drop start prices)) in
        let (bs, ebs, lbs, obs) = bands-IsOrdered prices (start + 1) rounds in
        (b ∷ bs, rw (eb, ebs), ap suc lbs, (ob, obs))

  -- With a period from 1 on, no more periods than prices and a deviation factor of 0 or more,
  -- `calculate_bollinger_bands` raises nothing and returns one band for each window of the prices,
  -- each with its lower line at most the mean and the mean at most its upper line, given the order
  -- laws of float arithmetic.
  pub bands_shape :
      (prices : List F) (n : ℕ) (std_dev : F)
      → 0 < n
      → n ≤ length prices
      → IsNonneg num std_dev
      → (bs : List (Band num)) × (calculate_bollinger_bands num prices (pos n) std_dev ≡ ok bs)
        × (length bs + n ≡ length prices + 1)
        × All IsOrdered bs
  unfolding calculate_bollinger_bands
  bands_shape prices zero std_dev h k spread = absurd (omega arith)
  bands_shape prices (suc n) std_dev h k spread =
      let (bs, ebs, lbs, obs) =
        bands-IsOrdered std_dev n spread prices 0 (length prices - (suc n - 1)) in
      let enough : (ltb (length prices) (suc n) || suc n == 0) ≡ false = ground arith in
      (bs, rw enough ebs, omega (arith, lbs), obs)
