-- ===== src/Numerics/Naturals.antt =====
-- Whole numbers in the place of floats and decimals: an instance of the interface on which examples
-- compute, and in which the laws hold.
use native.Mathlib.Nat.{div-le_self}
use hyperliquid_trading_aler.Prelude.{
  ℕ, zero, suc, ◌+◌, ◌-◌, ◌*◌, ◌/◌, ◌≤◌, refl, false, not, Result, ok, err, type_error, value_error,
  invalid_operation, List, [], ◌∷◌, ltb, leb, ◌==◌, arith, if◌then◌else◌,
}
use hyperliquid_trading_aler.Prelude.Int.{ℤ, pos, negsuc, pos_part}
use hyperliquid_trading_aler.Db.Rows.{Value, boolean, integer, real, text}
use hyperliquid_trading_aler.Numerics.{Numerics, Laws}

abbrev total : List ℕ → ℕ
total [] = 0
total (x ∷ xs) = x + total xs

-- The largest root up to k.
abbrev root : ℕ → ℕ → ℕ
root zero n = 0
root (suc k) n = if leb (suc k * suc k) n then suc k else root k n

abbrev whole : Value → Result ℕ
whole (integer (pos n)) = ok n
whole (integer (negsuc n)) = ok 0
whole (real s) = ok 0
whole (boolean b) = ok (if b then 1 else 0)
whole (text s) = err value_error
whole _ = err type_error

abbrev decimal : Value → Result ℕ
decimal (integer (pos n)) = ok n
decimal (integer (negsuc n)) = ok 0
decimal (real s) = ok 0
decimal _ = err invalid_operation

abbrev signed : Value → Result ℤ
signed (integer n) = ok n
signed (real s) = ok (pos 0)
signed (boolean b) = ok (pos (if b then 1 else 0))
signed (text s) = err value_error
signed _ = err type_error

abbrev pub naturals : Numerics
naturals = record {
  F = ℕ;
  of_int = pos_part;
  add = λ x y. x + y;
  sub = λ x y. x - y;
  mul = λ x y. x * y;
  div = λ x y. x / y;
  neg = λ x. 0;
  abs = λ x. x;
  lt = ltb;
  le = leb;
  eq = λ x y. x == y;
  sum = total;
  square = λ x. ok (x * x);
  sqrt = λ x. ok (root x x);
  D = ℕ;
  is_nonzero = λ x. not (x == 0);
  float_of = whole;
  int_of = signed;
  decimal_of = decimal;
  float_of_decimal = λ x. x;
  float_of_numeric = pos_part;
  numeric_of_decimal = pos;
  numeric_of_float = pos;
  fromtimestamp = λ s. ok (s * 1000000);
  timestamp = λ t. t / 1000000;
  truncate = pos;
  is_nonzero_real = λ s. false;
}

div-le : (x y : ℕ) → x / (1 + y) ≤ x
div-le x y = div-le_self x (1 + y)

pub naturals-Laws : Laws naturals
naturals-Laws = record {
  lit_nonneg = λ n. ground arith;
  lit_nonzero = λ n. ground arith;
  max_nonneg = λ x. ground arith;
  sum_nonneg = λ xs h. ground arith;
  add_nonneg = λ x y h k. ground arith;
  mul_nonneg = λ x y h k. ground arith;
  div_nonneg = λ x y h k e. ground arith;
  add_one_nonzero = λ x h. ground arith;
  div_le = λ x y h k. ground (arith, div-le x y);
  sub_nonneg = λ x y h. ground arith;
  sub_le = λ x y h. ground arith;
  le_add = λ x y h. ground arith;
  le_refl = λ n. ground arith;
  square_nonneg = λ x. (x * x, refl, ground arith);
  sqrt_nonneg = λ x h. (root x x, refl, ground arith);
}
