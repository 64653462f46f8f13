-- ===== src/Subscribers/Device.antt =====
-- SubscriberForm.tsx: the IMEI that follows a picked device.
use ocs_testbench.Common.{
  ℕ, suc, ◌+◌, ◌≡◌, refl, sym, ap, ◌∙◌, subst, Bool, true, false, not, ◌&&◌, ◌||◌, [], ◌∷◌, ◌++◌,
  append_assoc, Option, none, some, length, all, arith, ◌==◌, ==_iff, or_else, leb, if◌then◌else◌,
}
use ocs_testbench.Identifiers.{
  is_digit, is_digits, is_valid_imei, build_imei, luhn_check_digit, with_check,
}
use ocs_testbench.Identifiers.Checked.{build_imei-valid, and_split}
use ocs_testbench.Assistant.Stream.{starts_with}
use ocs_testbench.Subscribers.{
  Codes, same_codes, SubscriberError, digits_between, is_blank, error_if, number_errors,
}
use ocs_testbench.Subscribers.Form.{synced}

pub number_errors-formed :
    (lo hi : ℕ) (cs : Codes) (used : Bool) (a b c : SubscriberError)
    → digits_between (suc lo) hi cs ≡ true
    → number_errors cs (digits_between (suc lo) hi cs) used a b c ≡ error_if used c
number_errors-formed lo hi [] used a b c h = ground arith
number_errors-formed lo hi (d ∷ cs) used a b c h = rw h refl

pub all_digits : (lo hi : ℕ) (cs : Codes) → digits_between lo hi cs ≡ true → all is_digit cs ≡ true
all_digits lo hi cs h = (and_split (leb lo (length cs) && leb (length cs) hi) (all is_digit cs) h).1

pub digits_all : (n : ℕ) (cs : Codes) → is_digits n cs ≡ true → all is_digit cs ≡ true
digits_all n cs h = (and_split (length cs == n) (all is_digit cs) h).1

pub not_blank : (n : ℕ) (cs : Codes) → is_digits (suc n) cs ≡ true → is_blank cs ≡ false
not_blank n [] h = ground arith
not_blank n (c ∷ cs) h = refl

pub same_codes_refl : (cs : Codes) → same_codes cs cs ≡ true
same_codes_refl [] = refl
same_codes_refl (c ∷ cs) = rw ((==_iff c c).1 refl) (same_codes_refl cs)

starts_with-append : (a b : Codes) → starts_with a (a ++ b) ≡ true
starts_with-append [] b = refl
starts_with-append (c ∷ a) b = rw ((==_iff c c).1 refl) (starts_with-append a b)

starts_with-with_check :
    (tac s : Codes) (d : Option ℕ) → starts_with tac (with_check (tac ++ s) d) ≡ true
starts_with-with_check tac s none =
    ap (starts_with tac) (append_assoc tac s (45 ∷ 49 ∷ []))
    ∙ starts_with-append tac (s ++ 45 ∷ 49 ∷ [])
starts_with-with_check tac s (some d) =
    ap (starts_with tac) (append_assoc tac s ((48 + d) ∷ []))
    ∙ starts_with-append tac (s ++ (48 + d) ∷ [])

pub fifteen : (imei : Codes) → is_valid_imei imei ≡ true → is_digits 15 imei ≡ true
unfolding is_valid_imei
fifteen imei h = ground arith

-- An IMEI that the server takes with the code.
abbrev pub Suits : Codes → Codes → Type 0
Suits tac imei = (is_valid_imei imei ≡ true) × (starts_with tac imei ≡ true)

built_is :
    (rolled tac : Codes)
    → is_digits 8 tac ≡ true
    → is_digits 6 rolled ≡ true
    → build_imei rolled tac none
      ≡ some (with_check (tac ++ rolled) (luhn_check_digit (tac ++ rolled)))
unfolding build_imei
built_is rolled tac t r = rw (t, r) refl

some-inj : (a b : Codes) → some a ≡ some b → a ≡ b
some-inj a b h = cc

built-Suits :
    (rolled tac : Codes)
    → is_digits 8 tac ≡ true
    → is_digits 6 rolled ≡ true
    → Suits tac (or_else (build_imei rolled tac none) [])
built-Suits rolled tac t r =
    let w = with_check (tac ++ rolled) (luhn_check_digit (tac ++ rolled)) in
    let (imei, built, valid) = build_imei-valid rolled tac none t r in
    let same : imei ≡ w = some-inj imei w (sym built ∙ built_is rolled tac t r) in
    rw (built_is rolled tac t r) (
      subst (λ i. is_valid_imei i ≡ true) same valid,
      starts_with-with_check tac rolled (luhn_check_digit (tac ++ rolled)),
    )

pub synced-Suits :
    (rolled tac imei : Codes)
    → is_digits 8 tac ≡ true
    → is_digits 6 rolled ≡ true
    → Suits tac (synced rolled (some tac) imei)
synced-Suits rolled tac imei t r =
    rw (not_blank 7 tac t)
      (kept_or_built (is_blank imei) (starts_with tac imei) (is_valid_imei imei) refl refl)
  where
    kept_or_built :
        (b s v : Bool)
        → starts_with tac imei ≡ s
        → is_valid_imei imei ≡ v
        → Suits tac
            (if b || (not s || not v) then or_else (build_imei rolled tac none) [] else imei)
    kept_or_built true s v p q = built-Suits rolled tac t r
    kept_or_built false false v p q = built-Suits rolled tac t r
    kept_or_built false true false p q = built-Suits rolled tac t r
    kept_or_built false true true p q = (q, p)
