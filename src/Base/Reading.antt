-- ===== src/Base/Reading.antt =====
-- Reading a number in decimal: what `Number` and `parseInt` give for a text of digits.
use Prim.Native.Nat.{ℕ, zero, suc, ◌+◌, ◌-◌, ◌*◌, ◌/◌, ◌%◌, ◌<◌}
use mathlib.Core.Path.{◌≡◌, ◌∙◌}
use mathlib.Core.Logic.{inl, inr}
use mathlib.Core.Bool.{◌&&◌}
use mathlib.Core.List.{[], ◌∷◌}
use native.Mathlib.Omega.{arith}
use webhook_engine.Base.Tests.{ltb, leb, if◌then◌else◌, Bool-cases}
use webhook_engine.Base.CodeUnits.{Text, digits_from, decimal}
use webhook_engine.Base.Numbers.{JsNumber, nan, whole}

digits_value : ℕ → Text → JsNumber
digits_value acc [] = whole acc
digits_value acc (c ∷ cs) =
    let rest = digits_value (acc * 10 + (c - b'0')) cs in
    if leb b'0' c && leb c b'9' then rest else nan

unfoldable pub read_digits : Text → JsNumber
unfolding digits_value
read_digits t = digits_value 0 t

digits_value-digits_from :
    (fuel n : ℕ) (rest : Text)
    → n < fuel
    → digits_value 0 (digits_from fuel n rest) ≡ digits_value n rest
unfolding digits_value digits_from
digits_value-digits_from zero n rest h = absurd omega (arith, h)
digits_value-digits_from (suc fuel) n rest h = elim (Bool-cases (ltb n 10)) [
  | inl small ↦ rw small (ground arith)
  | inr large ↦ rw large (
      digits_value-digits_from fuel (n / 10) ((b'0' + n % 10) ∷ rest) (ground arith) ∙ ground arith)
]

-- What is written in decimal is read again.
pub read_digits-decimal : (n : ℕ) → read_digits (decimal n) ≡ whole n
unfolding read_digits decimal digits_value
read_digits-decimal n = digits_value-digits_from (suc n) n [] (omega arith)
