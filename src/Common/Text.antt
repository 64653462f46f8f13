-- ===== src/Common/Text.antt =====
-- JavaScript's decimal text of a natural number, `String(n)`.
use Prim.Native.Nat.{ℕ, zero, suc, ◌/◌, ◌%◌}
use Prim.Native.String.{String}
use Prim.Native.String
use Prim.Native.Char.{code}
use mathlib.Core.Bool.{Bool, true, false, ◌&&◌}
use ocs_testbench.Common.Tests.{ltb, ◌==◌, if◌then◌else◌}

infixr 66 ◌⧺◌
-- `a + b` on texts.
abbrev pub ◌⧺◌ : String → String → String
a ⧺ b = String.◌++◌ a b

abbrev pub digit_text : ℕ → String
digit_text zero = "0"
digit_text (suc zero) = "1"
digit_text (suc (suc zero)) = "2"
digit_text (suc (suc (suc zero))) = "3"
digit_text (suc (suc (suc (suc zero)))) = "4"
digit_text (suc (suc (suc (suc (suc zero))))) = "5"
digit_text (suc (suc (suc (suc (suc (suc zero)))))) = "6"
digit_text (suc (suc (suc (suc (suc (suc (suc zero))))))) = "7"
digit_text (suc (suc (suc (suc (suc (suc (suc (suc zero)))))))) = "8"
digit_text (suc (suc (suc (suc (suc (suc (suc (suc (suc n))))))))) = "9"

-- One digit for each unit of fuel at most: the number itself is fuel enough.
unfoldable pub number_digits : ℕ → ℕ → String
number_digits zero n = digit_text (n % 10)
number_digits (suc f) n =
    let more = number_digits f (n / 10) ⧺ digit_text (n % 10) in
    if ltb n 10 then digit_text n else more

unfoldable pub number_text : ℕ → String
unfolding number_digits
number_text n = number_digits n n

-- `String.prototype.startsWith`, with the prefix first.
unfoldable pub has_prefix : String → String → Bool
has_prefix String.[] s = true
has_prefix (String.◌∷◌ p ps) String.[] = false
has_prefix (String.◌∷◌ p ps) (String.◌∷◌ c cs) = (code p == code c) && has_prefix ps cs
