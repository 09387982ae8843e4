-- ===== src/Evaluate/Rules/Crossing.antt =====
-- The RSI rule (worker/evaluate/rules/rsi.py): it fires on the bar that crosses the threshold.
use mathlib.Core.List.{reverse-append}
use hyperliquid_trading_aler.Prelude.{
  ℕ, zero, suc, ◌-◌, ◌≤◌, ◌<◌, ◌≡◌, refl, ap, true, false, ◌&&◌, ◌||◌, Option, none, some, ok, List,
  [], ◌∷◌, reverse, arith, length, length-append, All, ltb, Bool-cases, inl, inr, if◌then◌else◌,
  ◌∙◌, ◌⊎◌, ◌*◌, ◌==◌, String, max, map, take, select, sort_desc, str_eq,
}
use hyperliquid_trading_aler.Prelude.Int.{pos, leb_ℤ}
use hyperliquid_trading_aler.Prelude.Slices.{item, from_end}
use hyperliquid_trading_aler.Numerics.{Numerics, Laws, lit}
use hyperliquid_trading_aler.Db.{Database}
use hyperliquid_trading_aler.Db.Rows.{Dict, Value, CandleModel}
use hyperliquid_trading_aler.Ingest.Market.{Candle}
use hyperliquid_trading_aler.Evaluate.Indicators.{calculate_rsi}
use hyperliquid_trading_aler.Evaluate.Indicators.RsiRange.{IsPercentage, rsi_range, length-map}
use hyperliquid_trading_aler.Evaluate.Rules.{rsi, rsi_verdict, recent_candles, closes, lookback}
use hyperliquid_trading_aler.Evaluate.Rules.Config.{get_item, is_text, int_or, float_or}

length-reverse : {A : Type 0} (xs : List A) → length (reverse xs) ≡ length xs
length-reverse [] = refl
length-reverse (x ∷ xs) =
    ap length (reverse-append (x ∷ []) xs)
    ∙ omega (arith, length-append (reverse xs) (x ∷ []), length-reverse xs)

module _ {A : Type 0} (P : A → Type 0) where
  item-All : (n : ℕ) (xs : List A) → n < length xs → All P xs → (x : A) × (item n xs ≡ ok x) × P x
  item-All n [] h ps = absurd (omega arith)
  item-All zero (x ∷ xs) h ps = (x, refl, ps.0)
  item-All (suc n) (x ∷ xs) h ps = item-All n xs (omega arith) ps.1

  pub from_end-All :
      (n : ℕ) (xs : List A)
      → 0 < n
      → n ≤ length xs
      → All P xs
      → (x : A) × (from_end n xs ≡ ok x) × P x
  unfolding from_end
  from_end-All n xs h k ps =
      let (x, ex, px) = item-All (length xs - n) xs (omega arith) ps in
      let inside : ltb (length xs) n ≡ false = ground arith in (x, rw inside ex, px)

module _ (num : Numerics) (laws : Laws num) where
  open num use {F, lt, le}

  -- What a result of the rule says, when `vs` are the RSI values: with a value, the last of them
  -- is that value, and crossed the threshold from the one before.
  abbrev pub Crossed : Value → F → List F → Option F → Type 0
  Crossed direction threshold vs none = Unit
  Crossed direction threshold vs (some v) =
      IsPercentage num v
      × (from_end 1 vs ≡ ok v)
      × ((previous : F) × IsPercentage num previous
          × (from_end 2 vs ≡ ok previous)
          × ((if is_text direction "overbought"
                then lt previous threshold && le threshold v
                else lt threshold previous && le v threshold)
              ≡ true))

  length-closes : (cs : List CandleModel) → length (closes num cs) ≡ length cs
  unfolding closes
  length-closes cs = length-map _ (reverse cs) ∙ length-reverse cs

  -- The closes that the rule reads, oldest first: those of the newest quarter-hour candles of the
  -- symbol, five times the period of them and at least 100.
  abbrev pub past_closes : Database → String → ℕ → List F
  past_closes db symbol n =
      map (λ (c : CandleModel). num.float_of_numeric c.close)
        (reverse (
          take (max (n * 5) 100) (
            sort_desc (λ (c : CandleModel). c.timestamp)
              (select (λ (c : CandleModel). str_eq c.symbol symbol && c.interval_seconds == 900)
                db.candles))))

  verdict-Crossed :
      (direction : Value) (threshold v previous : F) (vs : List F)
      → IsPercentage num v
      → IsPercentage num previous
      → from_end 1 vs ≡ ok v
      → from_end 2 vs ≡ ok previous
      → Crossed direction threshold vs (
          if is_text direction "overbought"
          then (if lt previous threshold && le threshold v then some v else none)
          else if lt threshold previous && le v threshold
          then some v
          else none)
  verdict-Crossed direction threshold v previous vs pv pp ev ep =
      elim (Bool-cases (is_text direction "overbought")) [
        | inl over ↦ elim (Bool-cases (lt previous threshold && le threshold v)) [
          | inl crossed ↦ rw (over, crossed) (pv, ev, (previous, pp, ep, rw over crossed))
          | inr stayed ↦ rw (over, stayed) tt
        ]
        | inr under ↦ elim (Bool-cases (lt threshold previous && le v threshold)) [
          | inl crossed ↦ rw (under, crossed) (pv, ev, (previous, pp, ep, rw under crossed))
          | inr stayed ↦ rw (under, stayed) tt
        ]
      ]

  rsi_verdict-Crossed :
      (direction : Value) (threshold : F) (vs : List F)
      → All (IsPercentage num) vs
      → (r : Option F) × (rsi_verdict num direction threshold vs ≡ ok r)
        × Crossed direction threshold vs r
  unfolding rsi_verdict
  rsi_verdict-Crossed direction threshold vs pvs = elim (Bool-cases (ltb (length vs) 2)) [
    | inl short ↦ (none, rw short, tt)
    | inr long ↦
        (let (v, ev, pv) = from_end-All (IsPercentage num) 1 vs (omega arith) (ground arith) pvs in
          let (p, ep, pp) = from_end-All (IsPercentage num) 2 vs (omega arith) (ground arith) pvs in
          (
            if is_text direction "overbought"
                then (if lt p threshold && le threshold v then some v else none)
                else if lt threshold p && le v threshold
                then some v
                else none,
            rw (long, ev, ep),
            verdict-Crossed direction threshold v p vs pv pp ev ep,
          ))
  ]

  -- With a period from 1 on, a known direction and readable settings the RSI rule raises nothing,
  -- given the order laws of float arithmetic. It does not fire on as many closes as the period or
  -- fewer. On more, if it fires, the value that it reports is the last RSI value of the closes,
  -- oldest first, between 0 and 100, and the RSI of the bar before lay on the other side of the
  -- threshold: below it for overbought, with the current one at or above, and the other way round
  -- for oversold.
  pub rsi_crossing :
      (config : Dict Value) (candle : Candle num) (db : Database) (n : ℕ) (direction : Value)
      (threshold : F)
      → 0 < n
      → int_or num "period" 14 config ≡ ok (pos n)
      → get_item "direction" config ≡ ok direction
      → (is_text direction "overbought" || is_text direction "oversold") ≡ true
      → float_or num "threshold"
          (lit num (if is_text direction "overbought" then 70 else 30))
          config
        ≡ ok threshold
      → let prices = past_closes db candle.symbol n in
        (r : Option F) × (rsi num config candle db ≡ ok r)
        × (((length prices ≤ n) × (r ≡ none))
            ⊎ ((vs : List F) × (calculate_rsi num prices (pos n) ≡ ok vs)
                × Crossed direction threshold vs r))
  unfolding rsi recent_candles closes
  rsi_crossing config candle db n direction threshold h period_ok direction_ok known threshold_ok =
      let cs = recent_candles db candle.symbol (lookback (pos n) 5 100) in
      elim (Bool-cases (leb_ℤ (pos (length cs)) (pos n))) [
        | inl few ↦ (
          none,
          rw (period_ok, direction_ok, known, threshold_ok, few),
          inl (ground (arith, length-closes cs), refl),
        )
        | inr many ↦
            (let (vs, evs, lvs, pvs) =
                rsi_range num laws (closes num cs) n h (ground (arith, length-closes cs)) in
              let (r, er, cr) = rsi_verdict-Crossed direction threshold vs pvs in
              (
                r,
                rw (period_ok, direction_ok, known, threshold_ok, many, evs) er,
                inr (vs, evs, cr),
              ))
      ]
