-- ===== src/Peers/Accepted.antt =====
-- The rules of PeerForm.tsx and those of peersFakeApi.ts.
use ocs_testbench.Common.{
  ◌∙◌, sym, ℕ, ◌≡◌, refl, ap, ◌↔◌, String, Bool, true, false, not, ◌&&◌, ◌||◌, [], ◌∷◌, arith, ltb,
  leb, str_eq, if◌then◌else◌,
}
use ocs_testbench.Common.Objects.{insert}
use ocs_testbench.FakeApi.Checks.{FieldErrors, report_if}
use ocs_testbench.Peers.{
  NumberField, whole, fraction, blank, PeerInput, number_error, known_transport, is_empty,
  name_error, validate,
}
use ocs_testbench.Peers.Form.{within, is_valid}

abbrev pub is_whole : NumberField → Bool
is_whole (whole n) = true
is_whole n = false

-- What the server asks of a body and the form's rules do not.
abbrev pub server_rules :
    (lower : String → String) (text_length : String → ℕ) → String → PeerInput → Bool
server_rules lower text_length name input =
    not (ltb 64 (text_length name))
    && (not (str_eq (lower name) "reserved")
        && (is_whole input.port
            && (is_whole input.watchdog_interval_seconds && known_transport input.transport)))

abbrev is_nil : FieldErrors → Bool
is_nil [] = true
is_nil (e ∷ es) = false

is_nil-insert : (k m : String) (es : FieldErrors) → is_nil (insert k m es) ≡ false
unfolding insert
is_nil-insert k m [] = refl
is_nil-insert k m ((j, n) ∷ es) = ground arith

is_nil-report_if :
    (b : Bool) (k m : String) (es : FieldErrors)
    → is_nil (report_if b k m es) ≡ (not b && is_nil es)
is_nil-report_if true k m es = is_nil-insert k m es
is_nil-report_if false k m es = refl

in_range : (lo hi n : ℕ) → not (ltb n lo || ltb hi n) ≡ (leb lo n && leb n hi)
in_range lo hi n = ground arith

is_nil-number_error :
    (lo hi : ℕ) (key required range : String) (n : NumberField) (es : FieldErrors)
    → is_nil (number_error lo hi key required range n es)
      ≡ ((is_whole n && within lo hi n) && is_nil es)
is_nil-number_error lo hi key required range (whole n) es =
    is_nil-report_if (ltb n lo || ltb hi n) key range es
    ∙ ap (λ b. b && is_nil es) (in_range lo hi n)
is_nil-number_error lo hi key required range (fraction n) es = is_nil-insert key required es
is_nil-number_error lo hi key required range blank es = is_nil-insert key required es

is_nil_iff : (es : FieldErrors) → (es ≡ []) ↔ (is_nil es ≡ true)
is_nil_iff [] = (λ e. refl, λ e. refl)
is_nil_iff (e ∷ es) = (λ h. cc, λ h. cc)

regroup :
    (ww wi t r o pw pi h n l v : Bool)
    → ((ww && wi) && (not (not t) && (r && (o && ((pw && pi) && (h && (n && (l && v))))))))
      ≡ ((n && (h && (pi && (o && (r && wi))))) && (l && (v && (pw && (ww && t)))))
regroup ww wi t r o pw pi h n l v = ground arith

module _ (trim : String → String) (lower : String → String) (text_length : String → ℕ) where
  three_rules :
      (a b c : Bool) (x y z : String)
      → is_nil (
          if a
          then report_if true "/name" x []
          else if b
          then report_if true "/name" y []
          else report_if c "/name" z [])
        ≡ (not a && (not b && not c))
  unfolding insert
  three_rules true b c x y z = refl
  three_rules false true c x y z = refl
  three_rules false false true x y z = refl
  three_rules false false false x y z = refl

  is_nil-name_error :
      (name : String)
      → is_nil (name_error trim lower text_length name []) ≡ (
          not (is_empty name)
          && (not (ltb 64 (text_length name)) && not (str_eq (lower name) "reserved")))
  is_nil-name_error name =
      three_rules (is_empty name) (ltb 64 (text_length name)) (str_eq (lower name) "reserved")
        "Name is required" "Name must be 64 chars or less" "Name \"reserved\" is not allowed"

  is_nil-validate :
      (i : PeerInput)
      → is_nil (validate trim lower text_length i) ≡ (
          (is_whole i.watchdog_interval_seconds && within 5 3600 i.watchdog_interval_seconds)
          && (not (not (known_transport i.transport))
              && (not (is_empty (trim i.origin_realm))
                  && (not (is_empty (trim i.origin_host))
                      && ((is_whole i.port && within 1 65535 i.port)
                          && (not (is_empty (trim i.host))
                              && (not (is_empty (trim i.name))
                                  && (not (ltb 64 (text_length (trim i.name)))
                                      && not (str_eq (lower (trim i.name)) "reserved")))))))))
  unfolding validate
  is_nil-validate i = simp (is_nil-number_error, is_nil-report_if, is_nil-name_error)

  -- The server takes the body of a peer exactly if the form's rules hold of it and, besides, the
  -- trimmed name has 64 characters at most and is not reserved, both numbers are whole, and the
  -- transport is one of the two.
  pub validate-eq-nil_iff :
      (i : PeerInput)
      → (validate trim lower text_length i ≡ [])
        ↔ ((is_valid trim i && server_rules lower text_length (trim i.name) i) ≡ true)
  unfolding is_valid
  validate-eq-nil_iff i =
      let same =
        is_nil-validate i
        ∙ regroup (is_whole i.watchdog_interval_seconds) (within 5 3600 i.watchdog_interval_seconds)
            (known_transport i.transport) (not (is_empty (trim i.origin_realm)))
            (not (is_empty (trim i.origin_host))) (is_whole i.port) (within 1 65535 i.port)
            (not (is_empty (trim i.host))) (not (is_empty (trim i.name)))
            (not (ltb 64 (text_length (trim i.name))))
            (not (str_eq (lower (trim i.name)) "reserved")) in
      (
        λ h. sym same ∙ (is_nil_iff (validate trim lower text_length i)).0 h,
        λ h. (is_nil_iff (validate trim lower text_length i)).1 (same ∙ h),
      )
