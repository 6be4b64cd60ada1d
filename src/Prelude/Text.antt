-- ===== src/Prelude/Text.antt =====
-- Decimal text of a number (Python's `str(n)`), joining, and the order of texts.
use Prim.Native.Nat.{ℕ, zero, suc, ◌/◌, ◌%◌}
use Prim.Native.String.{String, ◌++◌, compare}
use mathlib.Core.Bool.{Bool}
use vision_app_creator.Prelude.Tests.{ltb, if◌then◌else◌}
use text.Mathlib.Text.{is_lt}

abbrev digit : ℕ → String
digit zero = "0"
digit (suc zero) = "1"
digit (suc (suc zero)) = "2"
digit (suc (suc (suc zero))) = "3"
digit (suc (suc (suc (suc zero)))) = "4"
digit (suc (suc (suc (suc (suc zero))))) = "5"
digit (suc (suc (suc (suc (suc (suc zero)))))) = "6"
digit (suc (suc (suc (suc (suc (suc (suc zero))))))) = "7"
digit (suc (suc (suc (suc (suc (suc (suc (suc zero)))))))) = "8"
digit (suc (suc (suc (suc (suc (suc (suc (suc (suc n))))))))) = "9"

-- A number has fewer digits than its successor has units, so the fuel is enough.
decimal_digits : ℕ → ℕ → String
decimal_digits zero n = ""
decimal_digits (suc fuel) n =
    let higher = decimal_digits fuel (n / 10) in
    if ltb n 10 then digit n else higher ++ digit (n % 10)

unfoldable pub decimal : ℕ → String
unfolding decimal_digits
decimal n = decimal_digits (suc n) n

-- Concatenation of texts.
infixr 66 ◌+++◌
abbrev pub ◌+++◌ : String → String → String
s +++ t = s ++ t

-- Python's `s < t`
abbrev pub str_ltb : String → String → Bool
str_ltb s t = is_lt (compare s t)
