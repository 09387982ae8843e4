-- ===== src/Prelude/Slices.antt =====
-- Python's slices and indices with signed bounds, and loops over computations that may raise.
use Prim.Native.Nat.{ℕ, zero, suc, ◌-◌}
use mathlib.Core.List.{List, [], ◌∷◌, ◌++◌}
use hyperliquid_trading_aler.Prelude.Tests.{ltb, if◌then◌else◌}
use hyperliquid_trading_aler.Prelude.Lists.{length, take, drop}
use hyperliquid_trading_aler.Prelude.Int.{ℤ, pos, negsuc}
use hyperliquid_trading_aler.Prelude.Results.{Result, ok, err, index_error, ◌>>=◌}

-- `-n`
abbrev pub negative : ℕ → ℤ
negative zero = pos 0
negative (suc n) = negsuc n

module _ {ℓ} {A : Type ℓ} where
  -- `xs[:i]`
  abbrev pub slice_to : ℤ → List A → List A
  slice_to (pos n) xs = take n xs
  slice_to (negsuc n) xs = take (length xs - suc n) xs

  -- `xs[i:]`
  abbrev pub slice_from : ℤ → List A → List A
  slice_from (pos n) xs = drop n xs
  slice_from (negsuc n) xs = drop (length xs - suc n) xs

  -- `[xs[i] for i in range(start, len(xs))]`: a negative index counts from the end.
  abbrev pub range_from : ℤ → List A → Result (List A)
  range_from (pos n) xs = ok (drop n xs)
  range_from (negsuc n) xs =
      if ltb (length xs) (suc n) then err index_error else ok (drop (length xs - suc n) xs ++ xs)

  abbrev pub item : ℕ → List A → Result A
  item n [] = err index_error
  item zero (x ∷ xs) = ok x
  item (suc n) (x ∷ xs) = item n xs

  -- `xs[-n]`
  unfoldable pub from_end : ℕ → List A → Result A
  from_end n xs = if ltb (length xs) n then err index_error else item (length xs - n) xs

module _ {ℓ κ} {A : Type ℓ} {B : Type κ} where
  -- A comprehension whose elements may raise.
  abbrev pub map_result : (A → Result B) → List A → Result (List B)
  map_result f [] = ok []
  map_result f (x ∷ xs) = f x >>= λ y. map_result f xs >>= λ ys. ok (y ∷ ys)

  -- `[f(x, y) for x, y in zip(xs, ys)]`
  abbrev pub zip_with {μ} : {C : Type μ} → (A → B → C) → List A → List B → List C
  zip_with f (x ∷ xs) (y ∷ ys) = f x y ∷ zip_with f xs ys
  zip_with f _ _ = []
