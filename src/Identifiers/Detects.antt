-- ===== src/Identifiers/Detects.antt =====
-- What the check digit detects.
use ocs_testbench.Common.{
  ℕ, suc, ◌+◌, ◌-◌, ◌%◌, ◌≤◌, ◌≡◌, ◌≢◌, refl, sym, ap, ◌∙◌, true, List, [], ◌∷◌, ◌++◌, some, length,
  all, arith,
}
use ocs_testbench.Identifiers.Checked.{and_split, luhn_check_digit_lem}
use ocs_testbench.Identifiers.{is_digit, luhn_term, luhn_sum, luhn_check_digit}

luhn_term_small : (i d : ℕ) → d ≤ 9 → luhn_term i d ≤ 9
luhn_term_small i d h = ground arith

luhn_term_injective : (i d e : ℕ) → d ≤ 9 → e ≤ 9 → luhn_term i d ≡ luhn_term i e → d ≡ e
luhn_term_injective i d e hd he h = ground arith

digit_low : (c : ℕ) → is_digit c ≡ true → 48 ≤ c
digit_low c h = ground arith

digit_high : (c : ℕ) → is_digit c ≡ true → c ≤ 57
digit_high c h = ground arith

cancel : (a b s : ℕ) → a ≤ 9 → b ≤ 9 → (a + s) % 10 ≡ (b + s) % 10 → a ≡ b
cancel a b s ha hb e = omega arith

same_rest : (t a b : ℕ) → (t + a) % 10 ≡ (t + b) % 10 → a % 10 ≡ b % 10
same_rest t a b e = omega arith

same_length : (xs ys : List ℕ) (c d : ℕ) → length (xs ++ d ∷ ys) ≡ length (xs ++ c ∷ ys)
same_length [] ys c d = refl
same_length (x ∷ xs) ys c d = ap suc (same_length xs ys c d)

some_injective : {a b : ℕ} → some a ≡ some b → a ≡ b
some_injective e = cc

complement : (a b : ℕ) → (10 - a % 10) % 10 ≡ (10 - b % 10) % 10 → a % 10 ≡ b % 10
complement a b e = omega arith

check_at :
    (xs ys : List ℕ) (c : ℕ)
    → all is_digit (xs ++ c ∷ ys) ≡ true
    → luhn_check_digit (xs ++ c ∷ ys) ≡ some ((10 - luhn_sum (xs ++ c ∷ ys) % 10) % 10)
check_at [] ys c h = luhn_check_digit_lem c ys h
check_at (x ∷ xs) ys c h = luhn_check_digit_lem x (xs ++ c ∷ ys) h

digit_at : (xs ys : List ℕ) (c : ℕ) → all is_digit (xs ++ c ∷ ys) ≡ true → is_digit c ≡ true
digit_at [] ys c h = (and_split (is_digit c) (all is_digit ys) h).0
digit_at (x ∷ xs) ys c h =
    digit_at xs ys c (and_split (is_digit x) (all is_digit (xs ++ c ∷ ys)) h).1

-- Two lists that differ in one digit.
luhn_sum_injective :
    (xs ys : List ℕ) (c d : ℕ)
    → is_digit c ≡ true
    → is_digit d ≡ true
    → luhn_sum (xs ++ c ∷ ys) % 10 ≡ luhn_sum (xs ++ d ∷ ys) % 10
    → c ≡ d
unfolding luhn_sum
luhn_sum_injective [] ys c d hc hd e =
    let bounds : (48 ≤ c) × (c ≤ 57) × (48 ≤ d) × (d ≤ 57) =
      (digit_low c hc, digit_high c hc, digit_low d hd, digit_high d hd) in
    let (cl, ch, dl, dh) = bounds in
    let p : luhn_term (length ys) (c - 48) ≤ 9 =
      luhn_term_small (length ys) (c - 48) (omega arith) in
    let q : luhn_term (length ys) (d - 48) ≤ 9 =
      luhn_term_small (length ys) (d - 48) (omega arith) in
    let same : c - 48 ≡ d - 48 =
      luhn_term_injective (length ys) (c - 48) (d - 48) (omega arith) (omega arith)
        (cancel _ _ (luhn_sum ys) p q e) in
    omega arith
luhn_sum_injective (x ∷ xs) ys c d hc hd e = luhn_sum_injective xs ys c d hc hd (
    same_rest (luhn_term (length (xs ++ c ∷ ys)) (x - 48)) _ _
      (e ∙ ap (λ n. (luhn_term n (x - 48) + luhn_sum (xs ++ d ∷ ys)) % 10) (same_length xs ys c d)))

-- Texts of digits that differ in exactly one place have different check digits.
pub luhn_check_digit_detects :
    (xs ys : List ℕ) (c d : ℕ)
    → all is_digit (xs ++ c ∷ ys) ≡ true
    → all is_digit (xs ++ d ∷ ys) ≡ true
    → c ≢ d
    → luhn_check_digit (xs ++ c ∷ ys) ≢ luhn_check_digit (xs ++ d ∷ ys)
unfolding luhn_check_digit
luhn_check_digit_detects xs ys c d hc hd ne e = ne (
    luhn_sum_injective xs ys c d (digit_at xs ys c hc) (digit_at xs ys d hd)
      (complement _ _ (some_injective (sym (check_at xs ys c hc) ∙ e ∙ check_at xs ys d hd))))
