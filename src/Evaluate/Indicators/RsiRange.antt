-- ===== src/Evaluate/Indicators/RsiRange.antt =====
-- `calculate_rsi` (worker/evaluate/indicators.py): its values are percentages.
use hyperliquid_trading_aler.Prelude.{
  ℕ, zero, suc, ◌+◌, ◌<◌, ◌≡◌, refl, ap, true, false, ok, List, [], ◌∷◌, map, arith, length, take,
  drop, length-drop, All, Bool-cases, inl, inr, All-take, All-drop,
}
use hyperliquid_trading_aler.Prelude.Int.{pos, ◌-ℤ◌, leb_ℤ}
use hyperliquid_trading_aler.Numerics.{Numerics, Laws, fmax, lit, IsNonneg}
use hyperliquid_trading_aler.Evaluate.Indicators.{
  rsi_from_avgs, changes, smooth, rsi_loop, gains_of, losses_of, calculate_rsi,
}

pub length-map : {A B : Type 0} (f : A → B) (xs : List A) → length (map f xs) ≡ length xs
length-map f [] = refl
length-map f (x ∷ xs) = ap suc (length-map f xs)

All-map :
    {A B : Type 0} (P : B → Type 0) (f : A → B) (xs : List A)
    → ((x : A) → P (f x))
    → All P (map f xs)
All-map P f [] h = tt
All-map P f (x ∷ xs) h = (h x, All-map P f xs h)

module _ (num : Numerics) where
  open num use {F, le}

  -- Between 0 and 100.
  abbrev pub IsPercentage : F → Type 0
  IsPercentage x = IsNonneg num x × (le x (lit num 100) ≡ true)

  length-changes : (p : F) (rest : List F) → length (changes num (p ∷ rest)) ≡ length rest
  unfolding changes
  length-changes p [] = refl
  length-changes p (q ∷ rest) = ap suc (length-changes q rest)

  length-gains :
      (prices : List F) → 0 < length prices → length (gains_of num prices) + 1 ≡ length prices
  unfolding gains_of
  length-gains [] h = absurd (omega arith)
  length-gains (p ∷ rest) h = omega (
    arith,
    length-changes p rest,
    length-map (λ c. fmax num c (lit num 0)) (changes num (p ∷ rest)),
  )

  length-losses :
      (prices : List F) → 0 < length prices → length (losses_of num prices) + 1 ≡ length prices
  unfolding losses_of
  length-losses [] h = absurd (omega arith)
  length-losses (p ∷ rest) h = omega (
    arith,
    length-changes p rest,
    length-map (λ c. fmax num (num.neg c) (lit num 0)) (changes num (p ∷ rest)),
  )

  module _ (laws : Laws num) where
    gains-IsNonneg : (prices : List F) → All (IsNonneg num) (gains_of num prices)
    unfolding gains_of
    gains-IsNonneg prices = All-map (IsNonneg num) _ (changes num prices) (λ c. laws.max_nonneg c)

    losses-IsNonneg : (prices : List F) → All (IsNonneg num) (losses_of num prices)
    unfolding losses_of
    losses-IsNonneg prices =
        All-map (IsNonneg num) _ (changes num prices) (λ c. laws.max_nonneg (num.neg c))

    rsi_from_avgs_range :
        (gain loss : F)
        → IsNonneg num gain
        → IsNonneg num loss
        → (v : F) × (rsi_from_avgs num gain loss ≡ ok v) × IsPercentage v
    unfolding rsi_from_avgs
    rsi_from_avgs_range gain loss hg hl = elim (Bool-cases (num.eq loss (lit num 0))) [
      | inl none_lost ↦ (lit num 100, rw none_lost, (laws.lit_nonneg 100, laws.le_refl 100))
      | inr lost ↦
          (let rs = num.div gain loss in
            let rs_nonneg = laws.div_nonneg gain loss hg hl lost in
            let ratio = num.div (lit num 100) (num.add (lit num 1) rs) in
            let small = laws.div_le (lit num 100) rs (laws.lit_nonneg 100) rs_nonneg in
            let whole = laws.add_nonneg (lit num 1) rs (laws.lit_nonneg 1) rs_nonneg in
            let positive =
              laws.div_nonneg (lit num 100) (num.add (lit num 1) rs) (laws.lit_nonneg 100) whole
                (laws.add_one_nonzero rs rs_nonneg) in
            (
              num.sub (lit num 100) ratio,
              rw (lost, laws.add_one_nonzero rs rs_nonneg),
              (laws.sub_nonneg (lit num 100) ratio small, laws.sub_le (lit num 100) ratio positive),
            ))
    ]

    smooth-IsNonneg :
        (n : ℕ) (average value : F)
        → IsNonneg num average
        → IsNonneg num value
        → (v : F) × (smooth num (pos (suc n)) average value ≡ ok v) × IsNonneg num v
    unfolding smooth
    smooth-IsNonneg n average value ha hv =
        let before : pos (suc n) -ℤ pos 1 ≡ pos n = ground arith in
        let total = num.add (num.mul average (lit num n)) value in
        let total_nonneg =
          laws.add_nonneg (num.mul average (lit num n)) value
            (laws.mul_nonneg average (lit num n) ha (laws.lit_nonneg n)) hv in
        (
          num.div total (lit num (suc n)),
          rw (before, laws.lit_nonzero n),
          laws.div_nonneg total (lit num (suc n)) total_nonneg (laws.lit_nonneg (suc n))
              (laws.lit_nonzero n),
        )

    rsi_loop_range :
        (n : ℕ) (gain loss : F) (gains losses : List F)
        → IsNonneg num gain
        → IsNonneg num loss
        → All (IsNonneg num) gains
        → All (IsNonneg num) losses
        → length gains ≡ length losses
        → (vs : List F) × (rsi_loop num (pos (suc n)) gain loss gains losses ≡ ok vs)
          × (length vs ≡ length gains)
          × All IsPercentage vs
    unfolding rsi_loop
    rsi_loop_range n gain loss [] [] hg hl ag al same = ([], refl, refl, tt)
    rsi_loop_range n gain loss [] (l ∷ ls) hg hl ag al same = absurd (omega arith)
    rsi_loop_range n gain loss (g ∷ gs) [] hg hl ag al same = absurd (omega arith)
    rsi_loop_range n gain loss (g ∷ gs) (l ∷ ls) hg hl ag al same =
        let (g', eg, ng) = smooth-IsNonneg n gain g hg ag.0 in
        let (l', el, nl) = smooth-IsNonneg n loss l hl al.0 in
        let (v, ev, pv) = rsi_from_avgs_range g' l' ng nl in
        let (vs, evs, lvs, pvs) = rsi_loop_range n g' l' gs ls ng nl ag.1 al.1 (omega arith) in
        (v ∷ vs, rw (eg, el, ev, evs), ap suc lvs, (pv, pvs))

    -- With a period from 1 on and more prices than the period, `calculate_rsi` raises nothing and
    -- returns one value for each price from index `period` on, each between 0 and 100, given
    -- the order laws of float arithmetic.
    pub rsi_range :
        (prices : List F) (n : ℕ)
        → 0 < n
        → n < length prices
        → (vs : List F) × (calculate_rsi num prices (pos n) ≡ ok vs)
          × (length vs + n ≡ length prices)
          × All IsPercentage vs
    unfolding calculate_rsi
    rsi_range prices zero h k = absurd (omega arith)
    rsi_range prices (suc n) h k =
        let enough : leb_ℤ (pos (length prices)) (pos (suc n)) ≡ false = ground arith in
        let gains = gains_of num prices in
        let losses = losses_of num prices in
        let average = λ (xs : List F). num.div (num.sum (take (suc n) xs)) (lit num (suc n)) in
        let nonneg : (xs : List F) → All (IsNonneg num) xs → IsNonneg num (average xs) = λ xs hx.
          laws.div_nonneg (num.sum (take (suc n) xs)) (lit num (suc n))
            (laws.sum_nonneg (take (suc n) xs) (All-take (IsNonneg num) (suc n) xs hx))
            (laws.lit_nonneg (suc n)) (laws.lit_nonzero n) in
        let ng = nonneg gains (gains-IsNonneg prices) in
        let nl = nonneg losses (losses-IsNonneg prices) in
        let (v, ev, pv) = rsi_from_avgs_range (average gains) (average losses) ng nl in
        let (vs, evs, lvs, pvs) =
          rsi_loop_range n (average gains) (average losses) (drop (suc n) gains)
            (drop (suc n) losses) ng nl
            (All-drop (IsNonneg num) (suc n) gains (gains-IsNonneg prices))
            (All-drop (IsNonneg num) (suc n) losses (losses-IsNonneg prices))
            (omega (
              arith,
              length-drop (suc n) gains,
              length-drop (suc n) losses,
              length-gains prices,
              length-losses prices,
            )) in
        (
          v ∷ vs,
          rw (enough, laws.lit_nonzero n, ev, evs),
          omega (arith, lvs, length-drop (suc n) gains, length-gains prices),
          (pv, pvs),
        )
