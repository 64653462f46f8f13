-- ===== src/Identifiers.antt =====
-- web/src/api/imei.ts and iccid.ts: the identifiers of a device and of a card, with their check
-- digit. A text is the list of its character codes; the digits that `Math.random` gives where the
-- serial is left out are an argument.
pub mod Checked
pub mod Detects
use ocs_testbench.Common.{
  ℕ, zero, suc, ◌+◌, ◌-◌, ◌*◌, ◌%◌, Bool, true, false, not, ◌&&◌, ◌||◌, List, [], ◌∷◌, ◌++◌, Option,
  none, some, length, all, take, get_elem?, leb, ltb, ◌==◌, or_else, if◌then◌else◌,
}

abbrev pub is_digit : ℕ → Bool
is_digit c = leb 48 c && leb c 57

-- `/^[0-9]{n}$/`
abbrev pub is_digits : ℕ → List ℕ → Bool
is_digits n cs = (length cs == n) && all is_digit cs

-- What the digit `d` adds that has `i` digits to its right.
abbrev pub luhn_term : ℕ → ℕ → ℕ
luhn_term i d =
    let doubled = if (i % 2 == 0) then d * 2 else d in
    if ltb 9 doubled then doubled - 9 else doubled

unfoldable pub luhn_sum : List ℕ → ℕ
luhn_sum [] = 0
luhn_sum (c ∷ cs) = luhn_term (length cs) (c - 48) + luhn_sum cs

abbrev pub is_nonempty : List ℕ → Bool
is_nonempty [] = false
is_nonempty (c ∷ cs) = true

-- `none` stands for the result -1.
unfoldable pub luhn_check_digit : List ℕ → Option ℕ
unfolding luhn_sum
luhn_check_digit digits =
    if is_nonempty digits && all is_digit digits
    then some ((10 - luhn_sum digits % 10) % 10)
    else none

-- `check === Number(text[i])`, of a digit that is there.
abbrev pub checks : Option ℕ → Option ℕ → Bool
checks (some check) (some c) = check == c - 48
checks a b = false

unfoldable pub is_valid_imei : List ℕ → Bool
unfolding luhn_check_digit
is_valid_imei imei =
    if is_digits 15 imei
    then checks (luhn_check_digit (take 14 imei)) (get_elem? imei 14)
    else false

-- `base + luhnCheckDigit(base).toString()`: a digit, or the text "-1".
abbrev pub with_check : List ℕ → Option ℕ → List ℕ
with_check base (some d) = base ++ (48 + d) ∷ []
with_check base none = base ++ 45 ∷ 49 ∷ []

unfoldable pub build_imei : (rolled : List ℕ) → List ℕ → Option (List ℕ) → Option (List ℕ)
unfolding luhn_check_digit
build_imei rolled tac serial =
    let s = or_else serial rolled in
    let base = tac ++ s in
    if not (is_digits 8 tac)
    then none
    else if not (is_digits 6 s)
    then none
    else some (with_check base (luhn_check_digit base))

unfoldable pub is_valid_iccid : List ℕ → Bool
unfolding luhn_check_digit
is_valid_iccid iccid =
    if is_digits 19 iccid || is_digits 20 iccid
    then checks (luhn_check_digit (take (length iccid - 1) iccid))
        (get_elem? iccid (length iccid - 1))
    else false

unfoldable pub build_iccid : (rolled : List ℕ) → List ℕ → Option (List ℕ) → Option (List ℕ)
unfolding luhn_check_digit
build_iccid rolled mccmnc serial =
    let serial_len = 19 - 1 - 2 - length mccmnc in
    let s = or_else serial rolled in
    let base = 56 ∷ 57 ∷ mccmnc ++ s in
    if not (is_digits 5 mccmnc || is_digits 6 mccmnc)
    then none
    else if not (is_digits serial_len s)
    then none
    else some (with_check base (luhn_check_digit base))
