-- ===== src/Identifiers/Checked.antt =====
-- imei.ts and iccid.ts: the check of what is built.
use ocs_testbench.Common.{
  ℕ, suc, ◌+◌, ◌-◌, ◌%◌, ◌≤◌, ◌≡◌, ◌↔◌, refl, sym, ap, ◌∙◌, subst, inl, inr, Bool, true, false, not,
  ◌&&◌, ◌||◌, List, [], ◌∷◌, ◌++◌, Option, none, some, length, all, take, get_elem?, length-append,
  ◌==◌, ==_iff, or_else, if◌then◌else◌, Bool-cases, arith,
}
use ocs_testbench.Identifiers.{
  is_digit, is_digits, luhn_sum, luhn_check_digit, checks, with_check, is_valid_imei, build_imei,
  is_valid_iccid, build_iccid,
}

and_assoc : (a b c : Bool) → (a && (b && c)) ≡ ((a && b) && c)
and_assoc true b c = refl
and_assoc false b c = refl

all-append : (p : ℕ → Bool) (xs ys : List ℕ) → all p (xs ++ ys) ≡ (all p xs && all p ys)
all-append p [] ys = refl
all-append p (x ∷ xs) ys =
    ap (λ b. p x && b) (all-append p xs ys) ∙ and_assoc (p x) (all p xs) (all p ys)

take-append : (xs ys : List ℕ) → take (length xs) (xs ++ ys) ≡ xs
take-append [] ys = refl
take-append (x ∷ xs) ys = ap (λ l. x ∷ l) (take-append xs ys)

get-append : (xs : List ℕ) (y : ℕ) → get_elem? (xs ++ y ∷ []) (length xs) ≡ some y
get-append [] y = refl
get-append (x ∷ xs) y = get-append xs y

pub luhn_check_digit_lem :
    (c : ℕ) (cs : List ℕ)
    → all is_digit (c ∷ cs) ≡ true
    → luhn_check_digit (c ∷ cs) ≡ some ((10 - luhn_sum (c ∷ cs) % 10) % 10)
unfolding luhn_check_digit
luhn_check_digit_lem c cs h =
    ap (λ b. if b then some ((10 - luhn_sum (c ∷ cs) % 10) % 10) else none) h

-- Both hold.
pub and_split : (a b : Bool) → (a && b) ≡ true → (a ≡ true) × (b ≡ true)
and_split true b h = (refl, h)
and_split false b h = cc

IsChecked : ℕ → List ℕ → Type 0
IsChecked n full =
    (length full ≡ n + 1)
    × (all is_digit full ≡ true)
    × (checks (luhn_check_digit (take n full)) (get_elem? full n) ≡ true)

digit_of : (d : ℕ) → d ≤ 9 → (is_digit (48 + d) && true) ≡ true
digit_of d h = ground arith

same_digit : (d : ℕ) → (d == 48 + d - 48) ≡ true
same_digit d = ground arith

append-IsChecked :
    (base : List ℕ) (d : ℕ)
    → d ≤ 9
    → all is_digit base ≡ true
    → luhn_check_digit base ≡ some d
    → IsChecked (length base) (base ++ (48 + d) ∷ [])
unfolding IsChecked
append-IsChecked base d small digits e = (
  length-append base ((48 + d) ∷ []),
  rw (all-append is_digit base ((48 + d) ∷ []), digits) (digit_of d small),
  rw (take-append base ((48 + d) ∷ []), get-append base (48 + d), e) (same_digit d),
)

-- A text of digits followed by its check digit.
with_check-IsChecked :
    (c : ℕ) (cs : List ℕ)
    → all is_digit (c ∷ cs) ≡ true
    → IsChecked (length (c ∷ cs)) (with_check (c ∷ cs) (luhn_check_digit (c ∷ cs)))
with_check-IsChecked c cs digits =
    let d : ℕ = (10 - luhn_sum (c ∷ cs) % 10) % 10 in
    let e : luhn_check_digit (c ∷ cs) ≡ some d = luhn_check_digit_lem c cs digits in
    subst (λ r. IsChecked (length (c ∷ cs)) (with_check (c ∷ cs) r)) (sym e)
      (append-IsChecked (c ∷ cs) d (omega arith) digits e)

-- The same of a text whose length is known.
sized-IsChecked :
    (n : ℕ) (base : List ℕ)
    → length base ≡ suc n
    → all is_digit base ≡ true
    → IsChecked (suc n) (with_check base (luhn_check_digit base))
sized-IsChecked n [] size digits = absurd (omega arith)
sized-IsChecked n (c ∷ cs) size digits =
    subst (λ m. IsChecked m (with_check (c ∷ cs) (luhn_check_digit (c ∷ cs)))) size
      (with_check-IsChecked c cs digits)

is_digits_iff :
    (n : ℕ) (cs : List ℕ) → (is_digits n cs ≡ true) ↔ ((length cs ≡ n) × (all is_digit cs ≡ true))
is_digits_iff n cs = (
  λ h. ((==_iff (length cs) n).0 (and_split _ _ h).0, (and_split _ _ h).1),
  λ h. rw ((==_iff (length cs) n).1 h.0, h.1) refl,
)

IsChecked-is_valid_imei : (imei : List ℕ) → IsChecked 14 imei → is_valid_imei imei ≡ true
unfolding IsChecked is_valid_imei
IsChecked-is_valid_imei imei (size, digits, check) =
    subst
      (λ b.
        (if b then checks (luhn_check_digit (take 14 imei)) (get_elem? imei 14) else false) ≡ true)
      (sym ((is_digits_iff 15 imei).1 (omega (arith, size), digits))) check

IsChecked-is_valid_iccid : (iccid : List ℕ) → IsChecked 18 iccid → is_valid_iccid iccid ≡ true
unfolding IsChecked is_valid_iccid
IsChecked-is_valid_iccid iccid (size, digits, check) =
    let both : (is_digits 19 iccid || is_digits 20 iccid) ≡ true =
      ap (λ b. b || is_digits 20 iccid)
        ((is_digits_iff 19 iccid).1 (omega (arith, size), digits)) in
    let last : 18 ≡ length iccid - 1 = omega (arith, size) in
    subst
      (λ b.
        (if b
          then checks (luhn_check_digit (take (length iccid - 1) iccid))
              (get_elem? iccid (length iccid - 1))
          else false)
        ≡ true)
      (sym both)
      (subst (λ n. checks (luhn_check_digit (take n iccid)) (get_elem? iccid n) ≡ true) last check)

code_of :
    (cs : List ℕ)
    → (is_digits 5 cs || is_digits 6 cs) ≡ true
    → (length cs ≤ 6) × (all is_digit cs ≡ true)
code_of cs h = elim (Bool-cases (is_digits 5 cs)) [
  | inl five ↦ let (size, digits) = (is_digits_iff 5 cs).0 five in (omega (arith, size), digits)
  | inr other ↦
      let (size, digits) =
        (is_digits_iff 6 cs).0 (subst (λ b. (b || is_digits 6 cs) ≡ true) other h) in
      (omega (arith, size), digits)
]

full_length : (n : ℕ) (full : List ℕ) → IsChecked n full → length full ≡ n + 1
unfolding IsChecked
full_length n full h = h.0

-- Both guards hold where there is a result.
guarded :
    (a b : Bool) (x y : List ℕ)
    → (if not a then none else if not b then none else some x) ≡ some y
    → (a ≡ true) × (b ≡ true) × (x ≡ y)
guarded true true x y e = (refl, refl, cc)
guarded true false x y e = cc
guarded false b x y e = cc

all_digits :
    (xs ys : List ℕ)
    → all is_digit xs ≡ true
    → all is_digit ys ≡ true
    → all is_digit (xs ++ ys) ≡ true
all_digits xs ys hx hy = rw (all-append is_digit xs ys, hx) hy

is_valid_imei-build_imei :
    (rolled tac : List ℕ) (serial : Option (List ℕ)) (imei : List ℕ)
    → build_imei rolled tac serial ≡ some imei
    → is_valid_imei imei ≡ true
unfolding build_imei
is_valid_imei-build_imei rolled tac serial imei e =
    let s = or_else serial rolled in
    let (tac_ok, serial_ok, same) = guarded (is_digits 8 tac) (is_digits 6 s) _ imei e in
    let (tac_size, tac_digits) = (is_digits_iff 8 tac).0 tac_ok in
    let (size, digits) = (is_digits_iff 6 s).0 serial_ok in
    subst (λ u. is_valid_imei u ≡ true) same
      (IsChecked-is_valid_imei (with_check (tac ++ s) (luhn_check_digit (tac ++ s))) (
        sized-IsChecked 13 (tac ++ s) (omega (arith, length-append tac s, tac_size, size))
          (all_digits tac s tac_digits digits)))

-- From eight digits of a type allocation code and six of a serial, given or rolled, an IMEI is
-- built that is valid.
pub build_imei-valid :
    (rolled tac : List ℕ) (serial : Option (List ℕ))
    → is_digits 8 tac ≡ true
    → is_digits 6 (or_else serial rolled) ≡ true
    → (imei : List ℕ) × (build_imei rolled tac serial ≡ some imei) × (is_valid_imei imei ≡ true)
unfolding build_imei
build_imei-valid rolled tac serial tac_ok serial_ok =
    let base = tac ++ or_else serial rolled in
    let imei = with_check base (luhn_check_digit base) in
    let built : build_imei rolled tac serial ≡ some imei = rw (tac_ok, serial_ok) refl in
    (imei, built, is_valid_imei-build_imei rolled tac serial imei built)

is_valid_iccid-build_iccid :
    (rolled mccmnc : List ℕ) (serial : Option (List ℕ)) (iccid : List ℕ)
    → build_iccid rolled mccmnc serial ≡ some iccid
    → (is_valid_iccid iccid ≡ true) × (length iccid ≡ 19)
unfolding build_iccid
is_valid_iccid-build_iccid rolled mccmnc serial iccid e =
    let s = or_else serial rolled in
    let base = 56 ∷ 57 ∷ mccmnc ++ s in
    let (code_ok, serial_ok, same) =
      guarded (is_digits 5 mccmnc || is_digits 6 mccmnc) (is_digits (19 - 1 - 2 - length mccmnc) s)
        _ iccid e in
    let (bound, code_digits) = code_of mccmnc code_ok in
    let (size, digits) = (is_digits_iff (19 - 1 - 2 - length mccmnc) s).0 serial_ok in
    let full =
      sized-IsChecked 17 base (omega (arith, length-append mccmnc s, bound, size))
        (all_digits mccmnc s code_digits digits) in
    subst (λ u. (is_valid_iccid u ≡ true) × (length u ≡ 19)) same
      (
        IsChecked-is_valid_iccid (with_check base (luhn_check_digit base)) full,
        omega (arith, full_length 18 (with_check base (luhn_check_digit base)) full),
      )

-- From five or six digits of a network code and a serial, given or rolled, of as many digits as
-- are missing, an ICCID is built that is valid and has 19 digits.
pub build_iccid-valid :
    (rolled mccmnc : List ℕ) (serial : Option (List ℕ))
    → (is_digits 5 mccmnc || is_digits 6 mccmnc) ≡ true
    → is_digits (16 - length mccmnc) (or_else serial rolled) ≡ true
    → (iccid : List ℕ) × (build_iccid rolled mccmnc serial ≡ some iccid)
      × (is_valid_iccid iccid ≡ true)
      × (length iccid ≡ 19)
unfolding build_iccid
build_iccid-valid rolled mccmnc serial code_ok serial_ok =
    let base = 56 ∷ 57 ∷ mccmnc ++ or_else serial rolled in
    let iccid = with_check base (luhn_check_digit base) in
    let built : build_iccid rolled mccmnc serial ≡ some iccid = rw (code_ok, serial_ok) refl in
    let (valid, size) = is_valid_iccid-build_iccid rolled mccmnc serial iccid built in
    (iccid, built, valid, size)
