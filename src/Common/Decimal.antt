-- ===== src/Common/Decimal.antt =====
-- A number is read back from its decimal text, so different numbers have different texts, padded
-- with zeros or not.
use Prim.Native.Nat.{ℕ, zero, suc, ◌+◌, ◌-◌, ◌*◌, ◌/◌, ◌%◌, ◌≤◌, ◌<◌}
use Prim.Native.String.{String}
use Prim.Native.Char.{code}
use mathlib.Core.Path.{◌≡◌, refl, sym, ap, ◌∙◌}
use mathlib.Core.Bool.{true, false}
use mathlib.Core.Logic.{inl, inr}
use native.Mathlib.Omega.{arith}
use text.Mathlib.TextLemmas.{append_cancel_left, nil-append, cons-append}
use ocs_testbench.Common.Tests.{ltb, if◌then◌else◌, Bool-cases}
use ocs_testbench.Common.Text.{◌⧺◌, digit_text, number_digits, number_text}

-- The number that the digits of a text stand for, after those read before.
pub read_digits : ℕ → String → ℕ
read_digits acc String.[] = acc
read_digits acc (String.◌∷◌ c s) = read_digits (acc * 10 + (code c - 48)) s

read_digits-append :
    (acc : ℕ) (s t : String) → read_digits acc (s ⧺ t) ≡ read_digits (read_digits acc s) t
unfolding read_digits
read_digits-append acc String.[] t = rw (nil-append t) refl
read_digits-append acc (String.◌∷◌ c s) t =
    rw (cons-append c s t) (read_digits-append (acc * 10 + (code c - 48)) s t)

read_digit : (acc d : ℕ) → d < 10 → read_digits acc (digit_text d) ≡ acc * 10 + d
unfolding read_digits
read_digit acc zero h = refl
read_digit acc (suc zero) h = refl
read_digit acc (suc (suc zero)) h = refl
read_digit acc (suc (suc (suc zero))) h = refl
read_digit acc (suc (suc (suc (suc zero)))) h = refl
read_digit acc (suc (suc (suc (suc (suc zero))))) h = refl
read_digit acc (suc (suc (suc (suc (suc (suc zero)))))) h = refl
read_digit acc (suc (suc (suc (suc (suc (suc (suc zero))))))) h = refl
read_digit acc (suc (suc (suc (suc (suc (suc (suc (suc zero)))))))) h = refl
read_digit acc (suc (suc (suc (suc (suc (suc (suc (suc (suc zero))))))))) h = refl
read_digit acc (suc (suc (suc (suc (suc (suc (suc (suc (suc (suc n)))))))))) h =
    absurd (omega arith)

ltb→lt : (a b : ℕ) → ltb a b ≡ true → a < b
ltb→lt a b h = ground arith

at_most : (f n : ℕ) → n ≤ suc f → ltb n 10 ≡ false → n / 10 ≤ f
at_most f n h e = ground arith

read_number_digits : (f n : ℕ) → n ≤ f → read_digits 0 (number_digits f n) ≡ n
unfolding number_digits
read_number_digits zero n h = rw (read_digit 0 (n % 10) (omega arith)) (omega arith)
read_number_digits (suc f) n h = elim (Bool-cases (ltb n 10)) [
  | inl e ↦ rw e (read_digit 0 n (ltb→lt n 10 e) ∙ omega arith)
  | inr e ↦ rw e (
      read_digits-append 0 (number_digits f (n / 10)) (digit_text (n % 10))
      ∙ rw (read_number_digits f (n / 10) (at_most f n h e))
          (read_digit (n / 10) (n % 10) (omega arith) ∙ omega arith))
]

pub read_number_text : (n : ℕ) → read_digits 0 (number_text n) ≡ n
unfolding number_text
read_number_text n = read_number_digits n n (omega arith)

-- `String(n).padStart(2, '0')`
unfoldable pub pad_two : ℕ → String
pad_two n = if ltb n 10 then "0" ⧺ number_text n else number_text n

-- `String(n).padStart(3, '0')`
unfoldable pub pad_three : ℕ → String
pad_three n =
    if ltb n 10
    then "00" ⧺ number_text n
    else if ltb n 100
    then "0" ⧺ number_text n
    else number_text n

read_zeros :
    (zeros : String) (n : ℕ) → read_digits 0 zeros ≡ 0 → read_digits 0 (zeros ⧺ number_text n) ≡ n
read_zeros zeros n h =
    read_digits-append 0 zeros (number_text n)
    ∙ ap (λ a. read_digits a (number_text n)) h
    ∙ read_number_text n

read_pad_two : (n : ℕ) → read_digits 0 (pad_two n) ≡ n
unfolding pad_two read_digits
read_pad_two n = elim (Bool-cases (ltb n 10)) [
  | inl e ↦ rw e (read_zeros "0" n refl)
  | inr e ↦ rw e (read_number_text n)
]

read_pad_three : (n : ℕ) → read_digits 0 (pad_three n) ≡ n
unfolding pad_three read_digits
read_pad_three n = elim (Bool-cases (ltb n 10)) [
  | inl e ↦ rw e (read_zeros "00" n refl)
  | inr e ↦ rw e (elim (Bool-cases (ltb n 100)) [
    | inl d ↦ rw d (read_zeros "0" n refl)
    | inr d ↦ rw d (read_number_text n)
  ])
]

-- A prefix and a padded number tell the number.
pub pad_two_inj : (name : String) (n m : ℕ) → (name ⧺ pad_two n) ≡ (name ⧺ pad_two m) → n ≡ m
pad_two_inj name n m h =
    sym (read_pad_two n)
    ∙ ap (read_digits 0) (append_cancel_left name (pad_two n) (pad_two m) h)
    ∙ read_pad_two m

pub pad_three_inj : (name : String) (n m : ℕ) → (name ⧺ pad_three n) ≡ (name ⧺ pad_three m) → n ≡ m
pad_three_inj name n m h =
    sym (read_pad_three n)
    ∙ ap (read_digits 0) (append_cancel_left name (pad_three n) (pad_three m) h)
    ∙ read_pad_three m
