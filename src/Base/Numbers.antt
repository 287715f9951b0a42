-- ===== src/Base/Numbers.antt =====
-- The numbers of JavaScript, as `Number(text)` gives them: every finite one is a whole number over a
-- power of two, with a sign.
use Prim.Native.Nat.{ℕ, ◌*◌, ◌/◌, ◌%◌, ◌^◌}
use mathlib.Core.Bool.{Bool, true, false, not, ◌&&◌}
use webhook_engine.Base.Tests.{◌==◌, ltb, leb}

pub data JsNumber : Type 0 where
  nan infinity minus_infinity : JsNumber
  -- `true` for a minus sign; numerator; the exponent of the denominator
  finite : Bool → ℕ → ℕ → JsNumber

abbrev pub whole : ℕ → JsNumber
whole n = finite false n 0

-- `Number.isFinite`
unfoldable pub is_finite : JsNumber → Bool
is_finite (finite negative n k) = true
is_finite _ = false

-- `Number.isInteger`
unfoldable pub is_integer : JsNumber → Bool
is_integer (finite negative n k) = n % 2 ^ k == 0
is_integer _ = false

-- `x > 0`
unfoldable pub is_positive : JsNumber → Bool
is_positive (finite negative n k) = not negative && ltb 0 n
is_positive infinity = true
is_positive _ = false

-- `x < 0`
unfoldable pub is_negative : JsNumber → Bool
is_negative (finite negative n k) = negative && ltb 0 n
is_negative minus_infinity = true
is_negative _ = false

-- `x === n`, `x >= n` and `x <= n` for a literal `n` above zero
unfoldable pub is_exactly : ℕ → JsNumber → Bool
is_exactly n (finite negative a k) = not negative && a == n * 2 ^ k
is_exactly n _ = false

unfoldable pub is_at_least : ℕ → JsNumber → Bool
is_at_least n (finite negative a k) = not negative && leb (n * 2 ^ k) a
is_at_least n infinity = true
is_at_least n _ = false

unfoldable pub is_at_most : ℕ → JsNumber → Bool
is_at_most n (finite true a k) = true
is_at_most n (finite false a k) = leb a (n * 2 ^ k)
is_at_most n minus_infinity = true
is_at_most n _ = false

-- The value of a whole number that is not below zero.
unfoldable pub to_natural : JsNumber → ℕ
to_natural (finite negative n k) = n / 2 ^ k
to_natural _ = 0

-- Numerator and denominator of a finite number above zero.
unfoldable pub to_fraction : JsNumber → ℕ × ℕ
to_fraction (finite negative n k) = (n, 2 ^ k)
to_fraction _ = (0, 1)
