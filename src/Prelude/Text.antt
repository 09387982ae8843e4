-- ===== src/Prelude/Text.antt =====
-- Texts: equality, and the truth value of an optional text.
use Prim.Native.String.{String}
use mathlib.Core.Path.{◌≡◌}
use mathlib.Core.Bool.{Bool, true, false, not}
use mathlib.Core.Option.{Option, none, some}
use text.Mathlib.Text.{◌==◌ as text_eq}
use text.Mathlib.TextPositions.{eq_refl}

abbrev pub str_eq : String → String → Bool
str_eq = text_eq

pub str_eq_refl : (s : String) → str_eq s s ≡ true
str_eq_refl s = eq_refl s

-- Python's truth of `b` and SQL's of `b = true`: null is not true.
abbrev pub is_true : Option Bool → Bool
is_true none = false
is_true (some b) = b

-- `bool(s)` of a text that may be `None`: neither `None` nor the empty text counts.
abbrev pub is_given : Option String → Bool
is_given none = false
is_given (some s) = not (str_eq s "")
