-- ===== src/Examples/Cards.antt =====
-- An IMEI and an ICCID, as character codes.
use ocs_testbench.Common.{ℕ, ◌≢◌, refl, List, [], ◌∷◌, ◌++◌, arith}
use ocs_testbench.Identifiers.{luhn_check_digit}
use ocs_testbench.Identifiers.Detects.{luhn_check_digit_detects}

abbrev tac : List ℕ
tac = 51 ∷ 53 ∷ 50 ∷ 48 ∷ 57 ∷ 57 ∷ 48 ∷ 48 ∷ []

abbrev serial : List ℕ
serial = 49 ∷ 50 ∷ 51 ∷ 52 ∷ 53 ∷ 54 ∷ []

luhn_check_digit_detects_example :
    luhn_check_digit (tac ++ 49 ∷ []) ≢ luhn_check_digit (tac ++ 56 ∷ [])
luhn_check_digit_detects_example =
    luhn_check_digit_detects tac [] 49 56 refl refl (λ e. absurd (omega (arith, e)))
