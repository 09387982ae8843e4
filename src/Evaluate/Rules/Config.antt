-- ===== src/Evaluate/Rules/Config.antt =====
-- Reading a rule's config dict: `config[k]`, `config.get(k, default)`, and comparison with a text.
use hyperliquid_trading_aler.Prelude.{
  ℕ, String, Bool, false, Option, none, some, Result, ok, err, key_error, [], ◌∷◌, str_eq,
  if◌then◌else◌,
}
use hyperliquid_trading_aler.Prelude.Int.{ℤ, pos}
use hyperliquid_trading_aler.Numerics.{Numerics}
use hyperliquid_trading_aler.Db.Rows.{Dict, Value, text}

abbrev pub get : String → Dict Value → Option Value
get k [] = none
get k ((j, v) ∷ d) = if str_eq j k then some v else get k d

abbrev pub require : Option Value → Result Value
require none = err key_error
require (some v) = ok v

-- `config[k]`
abbrev pub get_item : String → Dict Value → Result Value
get_item k d = require (get k d)

-- `v == s`
abbrev pub is_text : Value → String → Bool
is_text (text t) s = str_eq t s
is_text _ s = false

module _ (num : Numerics) where
  -- `int(config.get(k, n))`
  abbrev pub int_or : String → ℕ → Dict Value → Result ℤ
  int_or k n d = elim (get k d) [ none ↦ ok (pos n) | some v ↦ num.int_of v ]

  -- `float(config.get(k, x))`
  abbrev pub float_or : String → num.F → Dict Value → Result num.F
  float_or k x d = elim (get k d) [ none ↦ ok x | some v ↦ num.float_of v ]
