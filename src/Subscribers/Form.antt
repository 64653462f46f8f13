-- ===== src/Subscribers/Form.antt =====
-- web/src/pages/subscribers/SubscriberForm.tsx: the values of the form, the device that they pick, the
-- IMEI that follows it, and the body that is sent. The digits that `Math.random` gives are an argument.
use ocs_testbench.Common.{
  String, Bool, not, ◌&&◌, ◌||◌, List, [], ◌∷◌, Option, none, some, or_else, str_eq, if◌then◌else◌,
}
use ocs_testbench.Identifiers.{is_valid_imei, build_imei}
use ocs_testbench.Assistant.Stream.{starts_with}
use ocs_testbench.Subscribers.{
  Codes, same_codes, Subscriber, SubscriberInput, TacEntry, digits_between, is_blank,
}

pub record FormValues : Type 0 where
  pub msisdn : Codes
  pub iccid : Codes
  pub manufacturer : String
  pub model : String
  pub imei : Codes

abbrev pub empty_values : FormValues
empty_values = record { msisdn = []; iccid = []; manufacturer = ""; model = ""; imei = [] }

abbrev find_tac : Codes → List TacEntry → Option TacEntry
find_tac tac [] = none
find_tac tac (e ∷ es) = let rest = find_tac tac es in if same_codes e.tac tac then some e else rest

abbrev entry_of : Option Codes → List TacEntry → Option TacEntry
entry_of none catalog = none
entry_of (some tac) catalog = if is_blank tac then none else find_tac tac catalog

abbrev maker : Option TacEntry → String
maker none = ""
maker (some e) = e.manufacturer

abbrev device : Option TacEntry → String
device none = ""
device (some e) = e.model

unfoldable pub from_subscriber : Subscriber → List TacEntry → FormValues
from_subscriber sub catalog = record {
  msisdn = sub.msisdn;
  iccid = sub.iccid;
  manufacturer = maker (entry_of sub.tac catalog);
  model = device (entry_of sub.tac catalog);
  imei = or_else sub.imei [];
}

-- `catalog.find(...)?.tac`
unfoldable pub find_device : String → String → List TacEntry → Option Codes
find_device manufacturer model [] = none
find_device manufacturer model (e ∷ es) =
    let rest = find_device manufacturer model es in
    if str_eq e.manufacturer manufacturer && str_eq e.model model then some e.tac else rest

unfoldable pub picked_tac : List TacEntry → FormValues → Option Codes
unfolding find_device
picked_tac catalog v =
    if str_eq v.manufacturer "" || str_eq v.model ""
    then none
    else find_device v.manufacturer v.model catalog

-- What the effect makes of the IMEI. A picked code of no characters counts as none.
abbrev pub synced : (rolled : Codes) → Option Codes → Codes → Codes
synced rolled none imei = []
synced rolled (some tac) imei =
    if is_blank tac
    then []
    else if is_blank imei || (not (starts_with tac imei) || not (is_valid_imei imei))
    then or_else (build_imei rolled tac none) []
    else imei

unfoldable pub sync_imei : (rolled : Codes) → List TacEntry → FormValues → FormValues
unfolding picked_tac
sync_imei rolled catalog v = record v { imei = synced rolled (picked_tac catalog v) v.imei }

-- The button beside the IMEI.
unfoldable pub regenerate : (rolled : Codes) → List TacEntry → FormValues → FormValues
unfolding picked_tac build_imei
regenerate rolled catalog v = record v {
  imei = elim (picked_tac catalog v) [
    | none ↦ v.imei
    | some tac ↦ (if is_blank tac then v.imei else or_else (build_imei rolled tac none) [])
  ];
}

-- `form.isValid()`
unfoldable pub is_valid : (trim : Codes → Codes) → FormValues → Bool
is_valid trim v =
    digits_between 8 15 (trim v.msisdn)
    && (digits_between 19 20 (trim v.iccid)
        && ((not (str_eq v.manufacturer "") || str_eq v.model "")
            && (not (str_eq v.model "") || str_eq v.manufacturer "")))

abbrev pub sent_tac : Option Codes → Option Codes
sent_tac none = none
sent_tac (some tac) = if is_blank tac then none else some tac

abbrev pub sent_imei : Option Codes → Codes → Option Codes
sent_imei none imei = none
sent_imei (some tac) imei = if is_blank tac || is_blank imei then none else some imei

-- The body that `handleSubmit` sends.
unfoldable pub submit : (trim : Codes → Codes) → List TacEntry → FormValues → SubscriberInput
unfolding picked_tac
submit trim catalog v = record {
  msisdn = trim v.msisdn;
  iccid = trim v.iccid;
  tac = sent_tac (picked_tac catalog v);
  imei = sent_imei (picked_tac catalog v) v.imei;
}
