-- ===== src/Subscribers.antt =====
-- The subscribers: the mock server of web/src/mocks/fakeApi/subscribersFakeApi.ts. Its state is the
-- array of subscribers; the catalogue of devices and the platform's `trim` are arguments. Numbers of
-- cards and devices are lists of character codes; an error's text is told by its constructor.
pub mod Form
pub mod Device
pub mod Submitted
use ocs_testbench.Common.{
  ℕ, ◌+◌, String, Bool, true, false, not, ◌&&◌, ◌||◌, List, [], ◌∷◌, ◌++◌, Option, none, some,
  length, any, all, leb, ◌==◌, str_eq, if◌then◌else◌,
}
use ocs_testbench.Common.Decimal.{pad_two}
use ocs_testbench.Common.Text.{◌⧺◌}
use ocs_testbench.Identifiers.{is_digit, is_digits, is_valid_imei}
use ocs_testbench.Assistant.Stream.{starts_with}

abbrev pub Codes : Type 0
Codes = List ℕ

abbrev pub same_codes : Codes → Codes → Bool
same_codes [] [] = true
same_codes [] (d ∷ ds) = false
same_codes (c ∷ cs) [] = false
same_codes (c ∷ cs) (d ∷ ds) = (c == d) && same_codes cs ds

pub record Subscriber : Type 0 where
  pub id : String
  pub msisdn : Codes
  pub iccid : Codes
  pub tac : Option Codes
  pub imei : Option Codes

pub record SubscriberInput : Type 0 where
  pub msisdn : Codes
  pub iccid : Codes
  pub tac : Option Codes
  pub imei : Option Codes

pub record TacEntry : Type 0 where
  pub tac : Codes
  pub manufacturer : String
  pub model : String

pub data SubscriberError : Type 0 where
  msisdn_required msisdn_malformed msisdn_in_use : SubscriberError
  iccid_required iccid_malformed iccid_in_use : SubscriberError
  tac_malformed tac_unknown : SubscriberError
  imei_malformed imei_bad_check imei_mismatch : SubscriberError

-- `/^[0-9]{lo,hi}$/`
abbrev pub digits_between : ℕ → ℕ → Codes → Bool
digits_between lo hi cs = (leb lo (length cs) && leb (length cs) hi) && all is_digit cs

abbrev pub is_blank : Codes → Bool
is_blank [] = true
is_blank (c ∷ cs) = false

-- Whether the id is left out of the search.
abbrev pub other_than : Option String → String → Bool
other_than none id = true
other_than (some exclude) id = not (str_eq id exclude)

abbrev pub msisdn_used : List Subscriber → Option String → Codes → Bool
msisdn_used existing exclude msisdn =
    any (λ s. other_than exclude s.id && same_codes s.msisdn msisdn) existing

abbrev pub iccid_used : List Subscriber → Option String → Codes → Bool
iccid_used existing exclude iccid =
    any (λ s. other_than exclude s.id && same_codes s.iccid iccid) existing

abbrev pub error_if : Bool → SubscriberError → List SubscriberError
error_if true e = e ∷ []
error_if false e = []

-- The rules of a required number: missing, not of the form, in use.
abbrev pub number_errors :
    Codes
    → (formed used : Bool) → (required malformed in_use : SubscriberError) → List SubscriberError
number_errors cs formed used required malformed in_use =
    if is_blank cs
    then required ∷ []
    else if not formed
    then malformed ∷ []
    else error_if used in_use

module _ (trim : Codes → Codes) (catalog : List TacEntry) where
  -- `s?.trim() || undefined`
  abbrev pub trimmed : Option Codes → Option Codes
  trimmed none = none
  trimmed (some cs) = if is_blank (trim cs) then none else some (trim cs)

  abbrev pub in_catalog : Codes → Bool
  in_catalog tac = any (λ e. same_codes e.tac tac) catalog

  abbrev pub tac_errors : Option Codes → List SubscriberError
  tac_errors none = []
  tac_errors (some tac) =
      if not (is_digits 8 tac)
      then tac_malformed ∷ []
      else error_if (not (in_catalog tac)) tac_unknown

  abbrev pub mismatches : Option Codes → Codes → Bool
  mismatches none imei = false
  mismatches (some tac) imei = not (starts_with tac imei)

  abbrev pub imei_errors : Option Codes → Option Codes → List SubscriberError
  imei_errors tac none = []
  imei_errors tac (some imei) =
      if not (is_digits 15 imei)
      then imei_malformed ∷ []
      else if not (is_valid_imei imei)
      then imei_bad_check ∷ []
      else error_if (mismatches tac imei) imei_mismatch

  -- No errors stand for the `null` of the source's `validate`.
  unfoldable pub validate : SubscriberInput → List Subscriber → Option String → List SubscriberError
  unfolding is_valid_imei
  validate input existing exclude =
      let msisdn = trim input.msisdn in
      let iccid = trim input.iccid in
      number_errors msisdn (digits_between 8 15 msisdn) (msisdn_used existing exclude msisdn)
        msisdn_required msisdn_malformed msisdn_in_use
      ++ (number_errors iccid (digits_between 19 20 iccid) (iccid_used existing exclude iccid)
            iccid_required iccid_malformed iccid_in_use
          ++ (tac_errors (trimmed input.tac)
              ++ imei_errors (trimmed input.tac) (trimmed input.imei)))

-- `v || undefined`
abbrev pub given_codes : Option Codes → Option Codes
given_codes none = none
given_codes (some cs) = if is_blank cs then none else some cs

unfoldable pub apply_input : String → SubscriberInput → Subscriber
apply_input id input = record {
  id = id;
  msisdn = input.msisdn;
  iccid = input.iccid;
  tac = given_codes input.tac;
  imei = given_codes input.imei;
}

unfoldable pub find_subscriber : String → List Subscriber → Option Subscriber
find_subscriber id [] = none
find_subscriber id (s ∷ ss) = if str_eq s.id id then some s else find_subscriber id ss

unfoldable pub put_subscriber : String → Subscriber → List Subscriber → List Subscriber
put_subscriber id next [] = []
put_subscriber id next (s ∷ ss) =
    if str_eq s.id id then next ∷ ss else s ∷ put_subscriber id next ss

unfoldable pub drop_subscriber : String → List Subscriber → List Subscriber
drop_subscriber id [] = []
drop_subscriber id (s ∷ ss) = if str_eq s.id id then ss else s ∷ drop_subscriber id ss

pub data SubscriberReply : Type 0 where
  listed : List Subscriber → SubscriberReply
  found : Subscriber → SubscriberReply
  created : Subscriber → SubscriberReply
  removed : SubscriberReply
  validation_problem : List SubscriberError → SubscriberReply
  not_found : (id : String) → SubscriberReply

pub data SubscriberRequest : Type 0 where
  list_subscribers : SubscriberRequest
  read_subscriber : (id : String) → SubscriberRequest
  create_subscriber : SubscriberInput → SubscriberRequest
  update_subscriber : (id : String) → SubscriberInput → SubscriberRequest
  delete_subscriber : (id : String) → SubscriberRequest

abbrev if_valid :
    List SubscriberError
    → List Subscriber
    → List Subscriber × SubscriberReply
    → List Subscriber × SubscriberReply
if_valid [] ss reply = reply
if_valid (e ∷ es) ss reply = (ss, validation_problem (e ∷ es))

abbrev with_subscriber :
    Option Subscriber
    → String
    → List Subscriber
    → (Subscriber → List Subscriber × SubscriberReply)
    → List Subscriber × SubscriberReply
with_subscriber none id ss reply = (ss, not_found id)
with_subscriber (some s) id ss reply = reply s

abbrev pub subscriber_id : ℕ → String
subscriber_id n = "sub-" ⧺ pad_two n

module _ (trim : Codes → Codes) (catalog : List TacEntry) where
  unfoldable pub handle : SubscriberRequest → List Subscriber → List Subscriber × SubscriberReply
  unfolding validate apply_input find_subscriber put_subscriber drop_subscriber
  handle list_subscribers ss = (ss, listed ss)
  handle (read_subscriber id) ss =
      with_subscriber (find_subscriber id ss) id ss (λ s. (ss, found s))
  handle (create_subscriber input) ss =
      let next = apply_input (subscriber_id (length ss + 1)) input in
      if_valid (validate trim catalog input ss none) ss (ss ++ next ∷ [], created next)
  handle (update_subscriber id input) ss = with_subscriber (find_subscriber id ss) id ss (λ s.
      let next = apply_input s.id input in
      if_valid (validate trim catalog input ss (some id)) ss
        (put_subscriber id next ss, found next))
  handle (delete_subscriber id) ss =
      with_subscriber (find_subscriber id ss) id ss (λ s. (drop_subscriber id ss, removed))
