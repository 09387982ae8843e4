-- ===== src/Numerics.antt =====
-- Python's float and Decimal: the types and the operations that the program uses, as a parameter.
-- There are no floats in the logic, so they are an interface; `Laws` names the facts of float
-- arithmetic that a theorem about values rests on. Prices and indicators are floats, the columns of
-- the tables scaled integers, and the fields of a candle Decimals.
pub mod Naturals
use hyperliquid_trading_aler.Prelude.{
  ℕ, suc, ◌≡◌, Bool, true, false, Result, ok, err, zero_division_error, List, All, if◌then◌else◌,
  String,
}
use hyperliquid_trading_aler.Prelude.Int.{ℤ, pos}
use hyperliquid_trading_aler.Db.Rows.{Value}

pub record Numerics : Type 1 where
  -- `float`
  pub F : Type 0
  pub of_int : ℤ → F
  pub add : F → F → F
  pub sub : F → F → F
  pub mul : F → F → F
  pub div : F → F → F
  pub neg : F → F
  pub abs : F → F
  pub lt : F → F → Bool
  pub le : F → F → Bool
  pub eq : F → F → Bool
  -- the builtin `sum`, `x ** 2` and `math.sqrt`; the last two may raise
  pub sum : List F → F
  pub square : F → Result F
  pub sqrt : F → Result F
  -- `Decimal`
  pub D : Type 0
  pub is_nonzero : D → Bool
  -- `float(v)`, `int(v)` and `Decimal(str(v))` of a JSON value
  pub float_of : Value → Result F
  pub int_of : Value → Result ℤ
  pub decimal_of : Value → Result D
  -- to and from the scaled integers of the columns
  pub float_of_decimal : D → F
  pub float_of_numeric : ℤ → F
  pub numeric_of_decimal : D → ℤ
  pub numeric_of_float : F → ℤ
  -- `datetime.fromtimestamp(ms / 1000, tz=UTC)` in microseconds, which may raise
  pub fromtimestamp : F → Result ℕ
  -- `dt.timestamp()` of a UTC time, and `int(x)` of a float
  pub timestamp : ℕ → F
  pub truncate : F → ℤ
  -- the truth value of a JSON number with a fraction
  pub is_nonzero_real : String → Bool

module _ (num : Numerics) where
  open num use {F, of_int, add, sub, mul, div, lt, le, eq, sum, square, sqrt}

  -- `x / y`: division by zero raises.
  abbrev pub fdiv : F → F → Result F
  fdiv x y = if eq y (of_int (pos 0)) then err zero_division_error else ok (div x y)

  -- `max(x, y)`: the first argument, unless the second is larger.
  abbrev pub fmax : F → F → F
  fmax x y = if lt x y then y else x

  abbrev pub lit : ℕ → F
  lit n = of_int (pos n)

  abbrev pub IsNonneg : F → Type 0
  IsNonneg x = le (lit 0) x ≡ true

  -- Order facts of correctly rounded float arithmetic, in the range where no operation overflows
  -- and no NaN occurs.
  pub record Laws : Type 0 where
    pub lit_nonneg : (n : ℕ) → IsNonneg (lit n)
    pub lit_nonzero : (n : ℕ) → eq (lit (suc n)) (lit 0) ≡ false
    pub max_nonneg : (x : F) → IsNonneg (fmax x (lit 0))
    pub sum_nonneg : (xs : List F) → All IsNonneg xs → IsNonneg (sum xs)
    pub add_nonneg : (x y : F) → IsNonneg x → IsNonneg y → IsNonneg (add x y)
    pub mul_nonneg : (x y : F) → IsNonneg x → IsNonneg y → IsNonneg (mul x y)
    pub div_nonneg : (x y : F) → IsNonneg x → IsNonneg y → eq y (lit 0) ≡ false → IsNonneg (div x y)
    pub add_one_nonzero : (x : F) → IsNonneg x → eq (add (lit 1) x) (lit 0) ≡ false
    pub div_le : (x y : F) → IsNonneg x → IsNonneg y → le (div x (add (lit 1) y)) x ≡ true
    pub sub_nonneg : (x y : F) → le y x ≡ true → IsNonneg (sub x y)
    pub sub_le : (x y : F) → IsNonneg y → le (sub x y) x ≡ true
    pub le_add : (x y : F) → IsNonneg y → le x (add x y) ≡ true
    pub le_refl : (n : ℕ) → le (lit n) (lit n) ≡ true
    pub square_nonneg : (x : F) → (y : F) × (square x ≡ ok y) × IsNonneg y
    pub sqrt_nonneg : (x : F) → IsNonneg x → (y : F) × (sqrt x ≡ ok y) × IsNonneg y
