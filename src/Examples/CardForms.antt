-- ===== src/Examples/CardForms.antt =====
-- A subscriber form with a picked device.
use ocs_testbench.Common.{◌≡◌, refl, true, List, [], ◌∷◌, ◌++◌, none}
use ocs_testbench.Subscribers.{
  Codes, Subscriber, TacEntry, validate, error_if, msisdn_used, iccid_used, msisdn_in_use,
  iccid_in_use,
}
use ocs_testbench.Subscribers.Form.{FormValues, submit, sync_imei, is_valid}
use ocs_testbench.Subscribers.Submitted.{validate-submit}

abbrev same : Codes → Codes
same cs = cs

-- "35332811", "447700900123", "8944101234567890123" and "123456"
abbrev tac : Codes
tac = 51 ∷ 53 ∷ 51 ∷ 51 ∷ 50 ∷ 56 ∷ 49 ∷ 49 ∷ []

abbrev msisdn : Codes
msisdn = 52 ∷ 52 ∷ 55 ∷ 55 ∷ 48 ∷ 48 ∷ 57 ∷ 48 ∷ 48 ∷ 49 ∷ 50 ∷ 51 ∷ []

abbrev iccid : Codes
iccid =
    56 ∷ 57 ∷ 52 ∷ 52 ∷ 49 ∷ 48 ∷ 49 ∷ 50 ∷ 51 ∷ 52 ∷ 53 ∷ 54 ∷ 55 ∷ 56 ∷ 57 ∷ 48 ∷ 49 ∷ 50 ∷ 51
    ∷ []

abbrev rolled : Codes
rolled = 49 ∷ 50 ∷ 51 ∷ 52 ∷ 53 ∷ 54 ∷ []

abbrev catalog : List TacEntry
catalog = record { tac = tac; manufacturer = "Acme"; model = "One" } ∷ []

abbrev form : FormValues
form = record { msisdn = msisdn; iccid = iccid; manufacturer = "Acme"; model = "One"; imei = [] }

abbrev registered : List Subscriber
registered = record { id = "sub-001"; msisdn = msisdn; iccid = []; tac = none; imei = none } ∷ []

validate-submit_example :
    validate same catalog (submit same catalog (sync_imei rolled catalog form)) registered none
    ≡ error_if (msisdn_used registered none msisdn) msisdn_in_use
      ++ error_if (iccid_used registered none iccid) iccid_in_use
unfolding is_valid
validate-submit_example =
    validate-submit same (λ cs h. refl) catalog rolled form registered none (refl, tt) refl refl

in_use : msisdn_used registered none msisdn ≡ true
in_use = refl
