-- ===== src/Subscribers/Submitted.antt =====
-- What SubscriberForm.tsx sends, as subscribersFakeApi.ts judges it.
use ocs_testbench.Common.{
  ◌≡◌, refl, ap, ◌∙◌, inl, inr, String, true, ◌&&◌, ◌||◌, List, [], ◌∷◌, ◌++◌, append-nil, Option,
  none, some, any, all, All, arith, str_eq, Bool-cases,
}
use ocs_testbench.Identifiers.{is_digit, is_digits}
use ocs_testbench.Identifiers.Checked.{and_split}
use ocs_testbench.Subscribers.{
  Codes, same_codes, Subscriber, SubscriberInput, TacEntry, msisdn_required, msisdn_malformed,
  msisdn_in_use, iccid_required, iccid_malformed, iccid_in_use, digits_between, msisdn_used,
  iccid_used, error_if, trimmed, in_catalog, tac_errors, imei_errors, validate,
}
use ocs_testbench.Subscribers.Form.{
  FormValues, find_device, picked_tac, synced, sync_imei, is_valid, sent_tac, sent_imei, submit,
}
use ocs_testbench.Subscribers.Device.{
  Suits, all_digits, digits_all, fifteen, not_blank, number_errors-formed, same_codes_refl,
  synced-Suits,
}

module _ (trim : Codes → Codes) (trim_digits : (cs : Codes) → all is_digit cs ≡ true → trim cs ≡ cs)
    (catalog : List TacEntry) where
  -- A code that the catalogue can give.
  abbrev IsDevice : Option Codes → Type 0
  IsDevice none = Unit {0}
  IsDevice (some tac) = (is_digits 8 tac ≡ true) × (in_catalog trim catalog tac ≡ true)

  suitable_errors :
      (tac imei : Codes)
      → is_digits 8 tac ≡ true
      → in_catalog trim catalog tac ≡ true
      → Suits tac imei
      → tac_errors trim catalog (trimmed trim catalog (sent_tac (some tac)))
          ++ imei_errors trim catalog
              (trimmed trim catalog (sent_tac (some tac)))
              (trimmed trim catalog (sent_imei (some tac) imei))
        ≡ []
  suitable_errors tac imei t c (valid, begins) =
      let digits = fifteen imei valid in
      rw
        (
          not_blank 7 tac t,
          not_blank 14 imei digits,
          trim_digits tac (digits_all 8 tac t),
          trim_digits imei (digits_all 15 imei digits),
          not_blank 7 tac t,
          not_blank 14 imei digits,
          t,
          c,
          digits,
          valid,
          begins,
        )
        refl

  device_errors :
      (rolled : Codes) (o : Option Codes) (imei : Codes)
      → IsDevice o
      → is_digits 6 rolled ≡ true
      → tac_errors trim catalog (trimmed trim catalog (sent_tac o))
          ++ imei_errors trim catalog
              (trimmed trim catalog (sent_tac o))
              (trimmed trim catalog (sent_imei o (synced rolled o imei)))
        ≡ []
  device_errors rolled none imei h r = refl
  device_errors rolled (some tac) imei (t, c) r =
      suitable_errors tac (synced rolled (some tac) imei) t c (synced-Suits rolled tac imei t r)

  abbrev pub AreCodes : List TacEntry → Type 0
  AreCodes es = All (λ e. is_digits 8 e.tac ≡ true) es

  FoundIn : List TacEntry → Option Codes → Type 0
  FoundIn es none = Unit {0}
  FoundIn es (some tac) = (is_digits 8 tac ≡ true) × (any (λ e. same_codes e.tac tac) es ≡ true)

  FoundIn-later :
      (e : TacEntry) (es : List TacEntry) (o : Option Codes) → FoundIn es o → FoundIn (e ∷ es) o
  unfolding FoundIn
  FoundIn-later e es none h = tt
  FoundIn-later e es (some tac) (t, c) = (t, ground arith)

  find_device-FoundIn :
      (m d : String) (es : List TacEntry) → AreCodes es → FoundIn es (find_device m d es)
  unfolding FoundIn find_device
  find_device-FoundIn m d [] h = tt
  find_device-FoundIn m d (e ∷ es) (t, h) =
      elim (Bool-cases (str_eq e.manufacturer m && str_eq e.model d)) [
        | inl y ↦ rw y (t, rw (same_codes_refl e.tac) refl)
        | inr n ↦ rw n (FoundIn-later e es (find_device m d es) (find_device-FoundIn m d es h))
      ]

  picked-FoundIn : (v : FormValues) → AreCodes catalog → FoundIn catalog (picked_tac catalog v)
  unfolding FoundIn picked_tac
  picked-FoundIn v h = elim (Bool-cases (str_eq v.manufacturer "" || str_eq v.model "")) [
    | inl y ↦ rw y tt
    | inr n ↦ rw n (find_device-FoundIn v.manufacturer v.model catalog h)
  ]

  FoundIn-IsDevice : (o : Option Codes) → FoundIn catalog o → IsDevice o
  unfolding FoundIn
  FoundIn-IsDevice none h = tt
  FoundIn-IsDevice (some tac) h = h

  validate_formed :
      (input : SubscriberInput) (existing : List Subscriber) (exclude : Option String)
      → digits_between 8 15 (trim input.msisdn) ≡ true
      → digits_between 19 20 (trim input.iccid) ≡ true
      → tac_errors trim catalog (trimmed trim catalog input.tac)
          ++ imei_errors trim catalog
              (trimmed trim catalog input.tac)
              (trimmed trim catalog input.imei)
        ≡ []
      → validate trim catalog input existing exclude
        ≡ error_if (msisdn_used existing exclude (trim input.msisdn)) msisdn_in_use
          ++ error_if (iccid_used existing exclude (trim input.iccid)) iccid_in_use
  unfolding validate
  validate_formed input existing exclude m i device =
      let m_errors =
        number_errors-formed 7 15 (trim input.msisdn)
          (msisdn_used existing exclude (trim input.msisdn)) msisdn_required msisdn_malformed
          msisdn_in_use m in
      let i_errors =
        number_errors-formed 18 20 (trim input.iccid)
          (iccid_used existing exclude (trim input.iccid)) iccid_required iccid_malformed
          iccid_in_use i in
      rw
        (
          m_errors,
          i_errors,
          device,
          append-nil (error_if (iccid_used existing exclude (trim input.iccid)) iccid_in_use),
        )
        refl

  -- A form whose rules hold, with the IMEI that follows the picked device, sends a body in which
  -- the server finds no fault but that the MSISDN or the ICCID is in use by another subscriber, if
  -- the codes of the catalogue have eight digits, six digits are rolled, and `trim` leaves digits
  -- alone.
  pub validate-submit :
      (rolled : Codes) (v : FormValues) (existing : List Subscriber) (exclude : Option String)
      → AreCodes catalog
      → is_digits 6 rolled ≡ true
      → is_valid trim v ≡ true
      → validate trim catalog (submit trim catalog (sync_imei rolled catalog v)) existing exclude
        ≡ error_if (msisdn_used existing exclude (trim v.msisdn)) msisdn_in_use
          ++ error_if (iccid_used existing exclude (trim v.iccid)) iccid_in_use
  unfolding submit sync_imei is_valid picked_tac
  validate-submit rolled v existing exclude codes r ok =
      let (m, rest) = and_split (digits_between 8 15 (trim v.msisdn)) _ ok in
      let (i, others) = and_split (digits_between 19 20 (trim v.iccid)) _ rest in
      let m_same = trim_digits (trim v.msisdn) (all_digits 8 15 (trim v.msisdn) m) in
      let i_same = trim_digits (trim v.iccid) (all_digits 19 20 (trim v.iccid) i) in
      let device =
        device_errors rolled (picked_tac catalog v) v.imei
          (FoundIn-IsDevice (picked_tac catalog v) (picked-FoundIn v codes)) r in
      validate_formed (submit trim catalog (sync_imei rolled catalog v)) existing exclude
        (ap (digits_between 8 15) m_same ∙ m) (ap (digits_between 19 20) i_same ∙ i) device
      ∙ ap
          (λ cs.
            error_if (msisdn_used existing exclude cs) msisdn_in_use
            ++ error_if (iccid_used existing exclude (trim (trim v.iccid))) iccid_in_use)
          m_same
      ∙ ap
          (λ cs.
            error_if (msisdn_used existing exclude (trim v.msisdn)) msisdn_in_use
            ++ error_if (iccid_used existing exclude cs) iccid_in_use)
          i_same
