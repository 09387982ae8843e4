-- ===== src/Evaluate/Rules.antt =====
-- worker/evaluate/rules/: the six rule classes. A rule reads its config dict, the candle and, for
-- four of them, the stored candles; it returns the trigger value, or None, or raises.
pub mod Config
pub mod Crossing
pub mod MacdLimit
use hyperliquid_trading_aler.Prelude.{
  ℕ, ◌+◌, ◌-◌, ◌*◌, String, Bool, true, false, not, ◌&&◌, ◌||◌, Option, none, some, Result, ok, err,
  ◌>>=◌, ◌>>◌, List, [], ◌∷◌, map, reverse, max, ltb, leb, ◌==◌, length, take, select, sort_by,
  sort_desc, str_eq, if◌then◌else◌, overflow_error,
}
use hyperliquid_trading_aler.Prelude.Int.{ℤ, pos, negsuc, ◌+ℤ◌, ltb_ℤ, leb_ℤ}
use hyperliquid_trading_aler.Prelude.Slices.{from_end}
use hyperliquid_trading_aler.Numerics.{Numerics, fdiv, lit}
use hyperliquid_trading_aler.Db.{Database}
use hyperliquid_trading_aler.Db.Rows.{Dict, Value, CandleModel}
use hyperliquid_trading_aler.Ingest.Market.{Candle}
use hyperliquid_trading_aler.Evaluate.Indicators.{
  Macd, calculate_macd, calculate_rsi, Band, calculate_bollinger_bands,
}
use Config.{get_item, get, is_text, float_or, int_or}

-- `candle.timestamp - timedelta(seconds=n)`. Before the epoch it stops at 0, which selects the same
-- candles.
unfoldable pub seconds_before : ℕ → ℤ → Result ℕ
seconds_before t (pos n) =
    if ltb (t + 62135596800000000) (n * 1000000) then err overflow_error else ok (t - n * 1000000)
seconds_before t (negsuc n) =
    if ltb 253402300799999999 (t + (n + 1) * 1000000)
    then err overflow_error
    else ok (t + (n + 1) * 1000000)

-- The candles of the symbol from a time on, the oldest first.
unfoldable pub candles_since : Database → String → ℕ → List CandleModel
candles_since db symbol start =
    sort_by (λ (c : CandleModel). c.timestamp)
      (select (λ (c : CandleModel). str_eq c.symbol symbol && leb start c.timestamp) db.candles)

-- The last `limit` 15-minute candles of the symbol, the newest first.
unfoldable pub recent_candles : Database → String → ℕ → List CandleModel
recent_candles db symbol limit = take limit (
    sort_desc (λ (c : CandleModel). c.timestamp)
      (select (λ (c : CandleModel). str_eq c.symbol symbol && c.interval_seconds == 900)
        db.candles))

-- `max(period * 5, 100)` and `max(period * 3, 60)`
abbrev pub lookback : ℤ → ℕ → ℕ → ℕ
lookback (pos n) factor least = max (n * factor) least
lookback (negsuc n) factor least = least

module _ (num : Numerics) where
  open num use {F, lt, le, eq, sub, mul, abs, float_of, int_of, float_of_decimal, float_of_numeric}

  -- The comparison that two of the rules share: the price, if it compares with the level as asked.
  unfoldable pub compare_price : F → Value → F → Option F
  compare_price price operator level =
      if is_text operator ">="
      then (if le level price then some price else none)
      else if is_text operator "<="
      then (if le price level then some price else none)
      else none

  unfoldable pub price_threshold : Dict Value → Candle num → Result (Option F)
  price_threshold config candle = do
    threshold ← get_item "threshold" config >>= float_of
    operator ← get_item "operator" config
    ok (compare_price (float_of_decimal candle.close) operator threshold)

  unfoldable pub candle_close : Dict Value → Candle num → Result (Option F)
  candle_close config candle = do
    value ← get_item "value" config >>= float_of
    operator ← get_item "operator" config
    ok (compare_price (float_of_decimal candle.close) operator value)

  -- The move from the oldest candle of the window, if there is one.
  unfoldable pub move_since : F → Candle num → List CandleModel → Result (Option F)
  move_since percent_threshold candle [] = ok none
  move_since percent_threshold candle (old ∷ _) = do
    let old_price = float_of_numeric old.close
    let new_price = float_of_decimal candle.close
    if eq old_price (lit num 0) then ok none else do
      ratio ← fdiv num (sub new_price old_price) old_price
      let percent_change = abs (mul ratio (lit num 100))
      ok (if le percent_threshold percent_change then some new_price else none)

  unfoldable pub percent_move : Dict Value → Candle num → Database → Result (Option F)
  percent_move config candle db = do
    percent_threshold ← get_item "percent_threshold" config >>= float_of
    window_seconds ← get_item "window_seconds" config >>= int_of
    start_time ← seconds_before candle.timestamp window_seconds
    move_since percent_threshold candle (take 1 (candles_since db candle.symbol start_time))

  -- `[float(c.close) for c in reversed(candles)]`
  unfoldable pub closes : List CandleModel → List F
  closes candles = map (λ (c : CandleModel). float_of_numeric c.close) (reverse candles)

  -- The crossover test on the last two values of each line.
  unfoldable pub crosses : Value → F → F → F → F → Bool
  crosses crossover_type macd_current macd_previous signal_current signal_previous =
      if is_text crossover_type "bullish"
      then lt signal_current macd_current && le macd_previous signal_previous
      else if is_text crossover_type "bearish"
      then lt macd_current signal_current && le signal_previous macd_previous
      else false

  unfoldable pub macd_cross : Dict Value → Candle num → Database → Result (Option F)
  macd_cross config candle db = do
    fast_period ← int_or num "fast_period" 12 config
    slow_period ← int_or num "slow_period" 26 config
    signal_period ← int_or num "signal_period" 9 config
    crossover_type ← get_item "crossover_type" config
    let candles = recent_candles db candle.symbol 50
    if ltb_ℤ (pos (length candles)) (slow_period +ℤ signal_period) then ok none else do
      lines ← calculate_macd num (closes candles) fast_period slow_period signal_period
      if ltb (length lines.macd_line) 2 || ltb (length lines.signal_line) 2 then ok none else do
        macd_current ← from_end 1 lines.macd_line
        macd_previous ← from_end 2 lines.macd_line
        signal_current ← from_end 1 lines.signal_line
        signal_previous ← from_end 2 lines.signal_line
        ok (
            if crosses crossover_type macd_current macd_previous signal_current signal_previous
            then some (float_of_decimal candle.close)
            else none)

  -- The last lines of the RSI rule: the crossing test on the last two values.
  unfoldable pub rsi_verdict : Value → F → List F → Result (Option F)
  rsi_verdict direction threshold rsi_values = if ltb (length rsi_values) 2 then ok none else do
    current ← from_end 1 rsi_values
    previous ← from_end 2 rsi_values
    ok (
        if is_text direction "overbought"
        then (if lt previous threshold && le threshold current then some current else none)
        else if lt threshold previous && le current threshold
        then some current
        else none)

  unfoldable pub rsi : Dict Value → Candle num → Database → Result (Option F)
  rsi config candle db = do
    period ← int_or num "period" 14 config
    direction ← get_item "direction" config
    if not (is_text direction "overbought" || is_text direction "oversold") then ok none else do
      threshold ←
          float_or num "threshold" (lit num (if is_text direction "overbought" then 70 else 30))
            config
      let candles = recent_candles db candle.symbol (lookback period 5 100)
      if leb_ℤ (pos (length candles)) period then ok none else do
        rsi_values ← calculate_rsi num (closes candles) period
        rsi_verdict direction threshold rsi_values

  -- The test of the last bar against the bands now and one bar before.
  unfoldable pub hits : Value → Value → F → F → Band num → Band num → Bool
  hits band event current_close prev_close now before =
      if is_text band "upper"
      then (if is_text event "break"
          then lt now.upper current_close
          else le prev_close before.upper && le now.upper current_close)
      else if is_text event "break"
      then lt current_close now.lower
      else le before.lower prev_close && le current_close now.lower

  unfoldable pub bollinger_bands : Dict Value → Candle num → Database → Result (Option F)
  bollinger_bands config candle db = do
    period ← int_or num "period" 20 config
    std_dev ← float_or num "std_dev" (lit num 2) config
    band ← get_item "band" config
    event ← get_item "event" config
    if not (is_text band "upper" || is_text band "lower")
          || not (is_text event "touch" || is_text event "break")
        then ok none
        else do
          let candles = recent_candles db candle.symbol (lookback period 3 60)
          if ltb_ℤ (pos (length candles)) (period +ℤ pos 1) then ok none else do
            let prices = closes candles
            bands ← calculate_bollinger_bands num prices period std_dev
            if ltb (length bands) 2 then ok none else do
              let current_close = float_of_decimal candle.close
              prev_close ← from_end 2 prices
              now ← from_end 1 bands
              before ← from_end 2 bands
              ok (
                  if hits band event current_close prev_close now before
                  then some current_close
                  else none)

  -- `rule_classes.get(rule_type)` with the call of its `evaluate`; `none` for an unknown type.
  unfoldable pub evaluate_rule :
      String → Dict Value → Candle num → Database → Option (Result (Option F))
  evaluate_rule rule_type config candle db =
      if str_eq rule_type "price_threshold"
      then some (price_threshold config candle)
      else if str_eq rule_type "percent_move"
      then some (percent_move config candle db)
      else if str_eq rule_type "candle_close"
      then some (candle_close config candle)
      else if str_eq rule_type "macd_cross"
      then some (macd_cross config candle db)
      else if str_eq rule_type "rsi"
      then some (rsi config candle db)
      else if str_eq rule_type "bollinger_bands"
      then some (bollinger_bands config candle db)
      else none
