-- ===== src/Tests/Validation.antt =====
-- An accepted configuration, evaluated.
use hyperliquid_trading_aler.Prelude.{◌≡◌, refl, Option, some, Result, ◌∷◌, []}
use hyperliquid_trading_aler.Prelude.Int.{pos, negsuc}
use hyperliquid_trading_aler.Numerics.Naturals.{naturals}
use hyperliquid_trading_aler.Db.Rows.{
  Dict, Value, null, boolean, integer, real, text, array, object,
}
use hyperliquid_trading_aler.Evaluate.Rules.{evaluate_rule}
use hyperliquid_trading_aler.Api.Rules.{validate_config}
use hyperliquid_trading_aler.Api.Rules.Safe.{IsSafe, Raises}
use hyperliquid_trading_aler.Api.Rules.Validated.{validated_config}
use hyperliquid_trading_aler.Tests.Fixtures.{candle_at, db}

float_of-IsSafe : (v : Value) → IsSafe (naturals.float_of v)
float_of-IsSafe null = λ raised. cc
float_of-IsSafe (boolean b) = λ raised. cc
float_of-IsSafe (integer (pos n)) = λ raised. cc
float_of-IsSafe (integer (negsuc n)) = λ raised. cc
float_of-IsSafe (real s) = λ raised. cc
float_of-IsSafe (text s) = λ raised. cc
float_of-IsSafe (array b) = λ raised. cc
float_of-IsSafe (object b) = λ raised. cc

int_of-IsSafe : (v : Value) → IsSafe (naturals.int_of v)
int_of-IsSafe null = λ raised. cc
int_of-IsSafe (boolean b) = λ raised. cc
int_of-IsSafe (integer n) = λ raised. cc
int_of-IsSafe (real s) = λ raised. cc
int_of-IsSafe (text s) = λ raised. cc
int_of-IsSafe (array b) = λ raised. cc
int_of-IsSafe (object b) = λ raised. cc

naturals-Raises : Raises naturals
naturals-Raises = record {
  float_of = float_of-IsSafe;
  int_of = int_of-IsSafe;
  square = λ x raised. cc;
  sqrt = λ x raised. cc;
}

abbrev config : Dict Value
config = ("operator", text ">=") ∷ ("value", integer (pos 100)) ∷ []

validated_config_example :
    (r : Result (Option naturals.F)) × (evaluate_rule naturals "candle_close" config
        (candle_at 5 150)
        db
      ≡ some r)
    × IsSafe r
unfolding validate_config
validated_config_example =
    validated_config naturals naturals-Raises "candle_close" config (candle_at 5 150) db refl
