-- ===== src/Tests/Rules.antt =====
-- Examples of the indicators, the rules and the evaluator.
use hyperliquid_trading_aler.Prelude.{
  ℕ, ◌+◌, ◌≤◌, ◌<◌, ◌≡◌, ◌⊎◌, refl, false, Option, none, List, [], ◌∷◌, arith, ok, length, All, err,
  type_error,
}
use hyperliquid_trading_aler.Prelude.Int.{pos}
use hyperliquid_trading_aler.Numerics.Naturals.{naturals, naturals-Laws}
use hyperliquid_trading_aler.Db.{Database}
use hyperliquid_trading_aler.Db.Rows.{CandleModel, Dict, Value, text, integer}
use hyperliquid_trading_aler.Evaluate.Indicators.{
  Macd, no_macd, Band, calculate_macd, calculate_rsi, calculate_bollinger_bands,
}
use hyperliquid_trading_aler.Evaluate.Indicators.MacdShape.{macd_shape}
use hyperliquid_trading_aler.Evaluate.Indicators.RsiRange.{rsi_range, IsPercentage}
use hyperliquid_trading_aler.Evaluate.Indicators.BandOrder.{bands_shape, IsOrdered}
use hyperliquid_trading_aler.Evaluate.Rules.{rsi}
use hyperliquid_trading_aler.Evaluate.Rules.Crossing.{rsi_crossing, Crossed, past_closes}
use hyperliquid_trading_aler.Evaluate.Engine.{
  get_idempotency_window, is_in_cooldown, last_alerts, evaluate,
}
use hyperliquid_trading_aler.Evaluate.Engine.Outcome.{
  evaluate_outcome, evaluate_again, Quiet, Fired, stores, Broken,
}
use hyperliquid_trading_aler.Evaluate.Engine.Cooldown.{short_cooldown}
use hyperliquid_trading_aler.Tests.Fixtures.{env, rule, alert, candle_at, db, world}

abbrev prices : List ℕ
prices = 100 ∷ 104 ∷ 103 ∷ 108 ∷ 99 ∷ 112 ∷ []

macd_shape_example :
    (m : Macd naturals) × (calculate_macd naturals prices (pos 1) (pos 2) (pos 2) ≡ ok m)
    × ((((6 < 2 + 2) ⊎ (6 + 1 < 2 + 1)) × (m ≡ no_macd naturals))
        ⊎ ((2 + 2 ≤ 6)
            × (2 + 1 ≤ 6 + 1)
            × (length m.macd_line + 2 ≡ 6 + 1)
            × (length m.signal_line + 2 ≡ length m.macd_line + 1)
            × (length m.histogram ≡ length m.signal_line)))
macd_shape_example =
    macd_shape naturals naturals-Laws prices 1 2 2 (ground arith) (ground arith) (ground arith)

rsi_range_example :
    (vs : List ℕ) × (calculate_rsi naturals prices (pos 2) ≡ ok vs)
    × (length vs + 2 ≡ 6)
    × All (IsPercentage naturals) vs
rsi_range_example = rsi_range naturals naturals-Laws prices 2 (ground arith) (ground arith)

bands_shape_example :
    (bs : List (Band naturals)) × (calculate_bollinger_bands naturals prices (pos 3) 2 ≡ ok bs)
    × (length bs + 3 ≡ 6 + 1)
    × All (IsOrdered naturals naturals-Laws) bs
bands_shape_example =
    bands_shape naturals naturals-Laws prices 3 2 (ground arith) (ground arith) refl

abbrev candle_row_at : ℕ → ℕ → CandleModel
candle_row_at t price = record {
  id = t;
  symbol = "BTC";
  timestamp = t;
  open_ = pos price;
  high = pos price;
  low = pos price;
  close = pos price;
  volume = none;
  interval_seconds = 900;
  created_at = t;
}

abbrev traded : Database
traded = record db {
  candles =
      candle_row_at 1 100
      ∷ candle_row_at 2 120
      ∷ candle_row_at 3 90
      ∷ candle_row_at 4 140
      ∷ candle_row_at 5 180
      ∷ [];
}

abbrev rsi_config : Dict Value
rsi_config =
    ("direction", text "overbought")
    ∷ ("period", integer (pos 2))
    ∷ ("threshold", integer (pos 70))
    ∷ []

rsi_crossing_example :
    (r : Option ℕ) × (rsi naturals rsi_config (candle_at 5 180) traded ≡ ok r)
    × (((length (past_closes naturals naturals-Laws traded "BTC" 2) ≤ 2) × (r ≡ none))
        ⊎ ((vs : List ℕ) × (calculate_rsi naturals
                (past_closes naturals naturals-Laws traded "BTC" 2)
                (pos 2)
              ≡ ok vs)
            × Crossed naturals naturals-Laws (text "overbought") 70 vs r))
rsi_crossing_example =
    rsi_crossing naturals naturals-Laws rsi_config (candle_at 5 180) traded 2 (text "overbought") 70
      (ground arith) refl refl refl refl

abbrev macd_config : Dict Value
macd_config =
    ("crossover_type", text "bullish")
    ∷ ("slow_period", integer (pos 40))
    ∷ ("signal_period", integer (pos 15))
    ∷ []

evaluate_outcome_example :
    let out = evaluate env naturals rule (candle_at 1699999060000000 150) world in
    Quiet env naturals rule (candle_at 1699999060000000 150) (stores world) out
    ⊎ (Fired env naturals rule (candle_at 1699999060000000 150) (stores world) out
        ⊎ Broken env naturals rule (candle_at 1699999060000000 150) (stores world) out)
evaluate_outcome_example = evaluate_outcome env naturals rule (candle_at 1699999060000000 150) world

evaluate_again_example :
    let (result, w') = evaluate env naturals rule (candle_at 1699999000000000 150) world in
    ((result ≡ ok none) ⊎ ((result ≡ err type_error) × (rule.cooldown_seconds ≡ none)))
    × (w'.db ≡ world.db)
    × (w'.committed ≡ world.committed)
unfolding get_idempotency_window
evaluate_again_example =
    evaluate_again env naturals rule (candle_at 1699999000000000 150) world alert refl refl refl
      (λ e. cc)

short_cooldown_example : (is_in_cooldown env rule "BTC" world).0 ≡ ok false
short_cooldown_example =
    short_cooldown env rule "BTC" world 60 refl (ground arith) (ground arith, tt)

-- With a cooldown of null the stored alert makes `evaluate` raise.
null_cooldown_raises :
    (evaluate env naturals
      (record rule { cooldown_seconds = none })
      (candle_at 1699999060000000 150)
      world).0
    ≡ err type_error
unfolding evaluate is_in_cooldown last_alerts
null_cooldown_raises = refl
