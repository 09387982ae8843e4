-- ===== src/Api/Rules/Validated.antt =====
-- A configuration that the API accepts (api/models/rule.py), and the rule that reads it
-- (worker/evaluate/rules/).
use hyperliquid_trading_aler.Prelude.Int.{ℤ, pos, negsuc}
use hyperliquid_trading_aler.Prelude.{
  ◌≡◌, refl, String, Bool, true, false, ◌&&◌, ◌||◌, not, Option, none, some, Result, ok, List, [],
  ◌∷◌, arith, Bool-cases, inl, inr, ltb, length, str_eq, ℕ, err, overflow_error,
}
use hyperliquid_trading_aler.Numerics.{Numerics}
use hyperliquid_trading_aler.Db.{Database}
use hyperliquid_trading_aler.Db.Rows.{Dict, Value, CandleModel}
use hyperliquid_trading_aler.Ingest.Market.{Candle}
use hyperliquid_trading_aler.Evaluate.Rules.Config.{get_item, is_text}
use hyperliquid_trading_aler.Evaluate.Rules.{
  price_threshold, candle_close, percent_move, move_since, macd_cross, rsi, rsi_verdict,
  bollinger_bands, evaluate_rule, seconds_before,
}
use hyperliquid_trading_aler.Api.Rules.{validate_config, has, is_one_of}
use hyperliquid_trading_aler.Api.Rules.Safe.{
  IsSafe, bind-IsSafe, if-IsSafe, ok-IsSafe, from_end-IsSafe, Raises, fdiv-IsSafe, macd-IsSafe,
  calculate_rsi-IsSafe, int_or-IsSafe, float_or-IsSafe, bands-IsSafe,
}

has-get_item : (k : String) (d : Dict Value) → has k d ≡ true → IsSafe (get_item k d)
has-get_item k d h = ground arith

is_one_of-get_item :
    (k a b : String) (d : Dict Value) → is_one_of k a b d ≡ true → IsSafe (get_item k d)
is_one_of-get_item k a b d h = ground arith

and-both : (a b : Bool) → (a && b) ≡ true → (a ≡ true) × (b ≡ true)
and-both true b h = (refl, h)
and-both false b h = cc

and-last : (a b c d : Bool) → (a && (b && (c && d))) ≡ true → d ≡ true
and-last a b c d h = ground arith

module _ (num : Numerics) (raises : Raises num) where
  price_threshold-IsSafe :
      (config : Dict Value) (candle : Candle num)
      → (has "threshold" config && is_one_of "operator" ">=" "<=" config) ≡ true
      → IsSafe (price_threshold num config candle)
  unfolding price_threshold
  price_threshold-IsSafe config candle accepted =
      let (h, k) =
        and-both (has "threshold" config) (is_one_of "operator" ">=" "<=" config) accepted in
      let level = has-get_item "threshold" config h in
      let operator = is_one_of-get_item "operator" ">=" "<=" config k in
      bind-IsSafe _ _ (bind-IsSafe _ _ level raises.float_of)
        (λ t. bind-IsSafe _ _ operator (λ o. ok-IsSafe _))

  candle_close-IsSafe :
      (config : Dict Value) (candle : Candle num)
      → (has "value" config && is_one_of "operator" ">=" "<=" config) ≡ true
      → IsSafe (candle_close num config candle)
  unfolding candle_close
  candle_close-IsSafe config candle accepted =
      let (h, k) = and-both (has "value" config) (is_one_of "operator" ">=" "<=" config) accepted in
      let level = has-get_item "value" config h in
      let operator = is_one_of-get_item "operator" ">=" "<=" config k in
      bind-IsSafe _ _ (bind-IsSafe _ _ level raises.float_of)
        (λ t. bind-IsSafe _ _ operator (λ o. ok-IsSafe _))

  move_since-IsSafe :
      (t : num.F) (candle : Candle num) (cs : List CandleModel)
      → IsSafe (move_since num t candle cs)
  unfolding move_since
  move_since-IsSafe t candle [] = ok-IsSafe _
  move_since-IsSafe t candle (old ∷ cs) =
      if-IsSafe _ _ _ (ok-IsSafe _) (bind-IsSafe _ _ (fdiv-IsSafe num _ _) (λ r. ok-IsSafe _))

  overflow-IsSafe : (r : Result ℕ) → r ≡ err overflow_error → IsSafe r
  overflow-IsSafe r h raised = absurd (cc)

  seconds_before-IsSafe : (t : ℕ) (s : ℤ) → IsSafe (seconds_before t s)
  unfolding seconds_before
  seconds_before-IsSafe t (pos n) =
      if-IsSafe _ _ _ (overflow-IsSafe (err overflow_error) refl) (ok-IsSafe _)
  seconds_before-IsSafe t (negsuc n) =
      if-IsSafe _ _ _ (overflow-IsSafe (err overflow_error) refl) (ok-IsSafe _)

  percent_move-IsSafe :
      (config : Dict Value) (candle : Candle num) (db : Database)
      → (has "percent_threshold" config && has "window_seconds" config) ≡ true
      → IsSafe (percent_move num config candle db)
  unfolding percent_move
  percent_move-IsSafe config candle db accepted =
      let (h, k) =
        and-both (has "percent_threshold" config) (has "window_seconds" config) accepted in
      let level = has-get_item "percent_threshold" config h in
      let window = has-get_item "window_seconds" config k in
      bind-IsSafe _ _ (bind-IsSafe _ _ level raises.float_of) (λ t.
        bind-IsSafe _ _ (bind-IsSafe _ _ window raises.int_of) (λ s.
          bind-IsSafe _ _ (seconds_before-IsSafe candle.timestamp s)
            (λ start. move_since-IsSafe t candle _)))

  macd_cross-IsSafe :
      (config : Dict Value) (candle : Candle num) (db : Database)
      → (has "fast_period" config
          && (has "slow_period" config
              && (has "signal_period" config
                  && is_one_of "crossover_type" "bullish" "bearish" config)))
        ≡ true
      → IsSafe (macd_cross num config candle db)
  unfolding macd_cross
  macd_cross-IsSafe config candle db accepted =
      let crossover = is_one_of-get_item "crossover_type" "bullish" "bearish" config (
        and-last (has "fast_period" config) (has "slow_period" config) (has "signal_period" config)
          (is_one_of "crossover_type" "bullish" "bearish" config) accepted) in
      bind-IsSafe _ _ (int_or-IsSafe num raises "fast_period" 12 config) (λ f.
        bind-IsSafe _ _ (int_or-IsSafe num raises "slow_period" 26 config) (λ s.
          bind-IsSafe _ _ (int_or-IsSafe num raises "signal_period" 9 config) (λ g.
            bind-IsSafe _ _ crossover (λ c. if-IsSafe _ _ _ (ok-IsSafe _) (
              bind-IsSafe _ _ (macd-IsSafe num _ _ _ _) (λ lines.
                if-IsSafe (ltb (length lines.macd_line) 2 || ltb (length lines.signal_line) 2)
                  (ok none) _ (ok-IsSafe _)
                  (bind-IsSafe _ _ (from_end-IsSafe 1 lines.macd_line) (λ a.
                    bind-IsSafe _ _ (from_end-IsSafe 2 lines.macd_line) (λ b.
                      bind-IsSafe _ _ (from_end-IsSafe 1 lines.signal_line) (λ d.
                        bind-IsSafe _ _ (from_end-IsSafe 2 lines.signal_line)
                          (λ e. ok-IsSafe _)))))))))))

  verdict-IsSafe :
      (direction : Value) (threshold : num.F) (vs : List num.F)
      → IsSafe (rsi_verdict num direction threshold vs)
  unfolding rsi_verdict
  verdict-IsSafe direction threshold vs = if-IsSafe _ _ _ (ok-IsSafe _) (
      bind-IsSafe _ _ (from_end-IsSafe 1 vs)
        (λ a. bind-IsSafe _ _ (from_end-IsSafe 2 vs) (λ b. ok-IsSafe _)))

  rsi-IsSafe :
      (config : Dict Value) (candle : Candle num) (db : Database)
      → is_one_of "direction" "overbought" "oversold" config ≡ true
      → IsSafe (rsi num config candle db)
  unfolding rsi
  rsi-IsSafe config candle db accepted =
      let direction = is_one_of-get_item "direction" "overbought" "oversold" config accepted in
      bind-IsSafe _ _ (int_or-IsSafe num raises "period" 14 config) (λ p.
        bind-IsSafe _ _ direction (λ d.
          if-IsSafe (not (is_text d "overbought" || is_text d "oversold")) (ok none) _ (ok-IsSafe _)
            (bind-IsSafe _ _ (float_or-IsSafe num raises "threshold" _ config) (λ t.
              if-IsSafe _ (ok none) _ (ok-IsSafe _)
                (bind-IsSafe _ _ (calculate_rsi-IsSafe num _ _) (λ vs. verdict-IsSafe d t vs))))))

  bollinger-IsSafe :
      (config : Dict Value) (candle : Candle num) (db : Database)
      → (is_one_of "band" "upper" "lower" config && is_one_of "event" "touch" "break" config) ≡ true
      → IsSafe (bollinger_bands num config candle db)
  unfolding bollinger_bands
  bollinger-IsSafe config candle db accepted =
      let (h, k) =
        and-both (is_one_of "band" "upper" "lower" config)
          (is_one_of "event" "touch" "break" config) accepted in
      let band = is_one_of-get_item "band" "upper" "lower" config h in
      let event = is_one_of-get_item "event" "touch" "break" config k in
      bind-IsSafe _ _ (int_or-IsSafe num raises "period" 20 config) (λ p.
        bind-IsSafe _ _ (float_or-IsSafe num raises "std_dev" _ config) (λ s.
          bind-IsSafe _ _ band (λ b. bind-IsSafe _ _ event (λ e.
            if-IsSafe
              (not (is_text b "upper" || is_text b "lower")
                || not (is_text e "touch" || is_text e "break"))
              (ok none) _ (ok-IsSafe _)
              (if-IsSafe _ (ok none) _ (ok-IsSafe _) (
                bind-IsSafe _ _ (bands-IsSafe num raises _ p s) (λ bs.
                  if-IsSafe (ltb (length bs) 2) (ok none) _ (ok-IsSafe _) (
                    bind-IsSafe _ _ (from_end-IsSafe 2 _) (λ prev.
                      bind-IsSafe _ _ (from_end-IsSafe 1 bs) (λ now.
                        bind-IsSafe _ _ (from_end-IsSafe 2 bs) (λ before. ok-IsSafe _)))))))))))

  -- A rule whose configuration passed the API's validation has one of the six types, and evaluating
  -- it raises no KeyError, whatever the candle and the database are, when the conversions of
  -- numbers raise none.
  pub validated_config :
      (rule_type : String) (config : Dict Value) (candle : Candle num) (db : Database)
      → validate_config rule_type config ≡ true
      → (r : Result (Option num.F)) × (evaluate_rule num rule_type config candle db ≡ some r)
        × IsSafe r
  unfolding validate_config evaluate_rule
  validated_config rule_type config candle db valid =
      elim (Bool-cases (str_eq rule_type "price_threshold")) [
        | inl e0 ↦ (_, rw e0 refl, price_threshold-IsSafe config candle (rw e0 at valid))
        | inr n0 ↦ elim (Bool-cases (str_eq rule_type "percent_move")) [
          | inl e1 ↦
              (_, rw (n0, e1) refl, percent_move-IsSafe config candle db (rw (n0, e1) at valid))
          | inr n1 ↦ elim (Bool-cases (str_eq rule_type "candle_close")) [
            | inl e2 ↦ (
              _,
              rw (n0, n1, e2) refl,
              candle_close-IsSafe config candle (rw (n0, n1, e2) at valid),
            )
            | inr n2 ↦ elim (Bool-cases (str_eq rule_type "macd_cross")) [
              | inl e3 ↦ (
                _,
                rw (n0, n1, n2, e3) refl,
                macd_cross-IsSafe config candle db (rw (n0, n1, n2, e3) at valid),
              )
              | inr n3 ↦ elim (Bool-cases (str_eq rule_type "rsi")) [
                | inl e4 ↦ (
                  _,
                  rw (n0, n1, n2, n3, e4) refl,
                  rsi-IsSafe config candle db (rw (n0, n1, n2, n3, e4) at valid),
                )
                | inr n4 ↦ elim (Bool-cases (str_eq rule_type "bollinger_bands")) [
                  | inl e5 ↦ (
                    _,
                    rw (n0, n1, n2, n3, n4, e5) refl,
                    bollinger-IsSafe config candle db (rw (n0, n1, n2, n3, n4, e5) at valid),
                  )
                  | inr n5 ↦ absurd (let v = rw (n0, n1, n2, n3, n4, n5) at valid in cc)
                ]
              ]
            ]
          ]
        ]
      ]
