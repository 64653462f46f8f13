-- ===== src/Scenario/Defaults/Variables.antt =====
-- defaults.ts: the variables of a service type, and how they are merged.
use ocs_testbench.Common.{
  String, Bool, true, false, List, [], ◌∷◌, ◌++◌, Option, some, map, filter_by, not, any, or_else,
  str_eq, if◌then◌else◌,
}
use ocs_testbench.Common.Objects.{lookup, spread}
use ocs_testbench.Scenario.{
  ServiceType, voice, ServiceProfile, huawei, VarValue, text, number, literal, once, generator,
  Variable,
}

-- A variable with a literal generator that runs once.
abbrev pub literal_variable : String → String → VarValue → Variable
literal_variable name description value = record {
  name = name;
  source = generator literal once (("value", value) ∷ []);
  description = some description;
}

abbrev is_huawei_profile : Option ServiceProfile → Bool
is_huawei_profile (some huawei) = true
is_huawei_profile _ = false

abbrev huawei_voice_variables : List Variable
huawei_voice_variables =
    literal_variable "CALLING_PARTY_ADDRESS" "Calling-party address (A-party, E.164 or SIP URI)."
      (text "27815107352")
    ∷ literal_variable "CALLED_PARTY_ADDRESS" "Called-party address (B-party, E.164 or SIP URI)."
        (text "27707900001")
    ∷ literal_variable "CHARGE_FLOW_TYPE" "Charge-Flow-Type AVP (0 = MO charge, 1 = MT charge)."
        (number 1)
    ∷ []

abbrev three_gpp_voice_variables : List Variable
three_gpp_voice_variables =
    literal_variable "ROLE_OF_NODE" "Role-Of-Node AVP (0 = Originating, 1 = Terminating)."
      (number 0)
    ∷ literal_variable "CALLING_PARTY_ADDRESS" "Calling-party address (A-party, E.164 or SIP URI)."
        (text "")
    ∷ literal_variable "CALLED_PARTY_ADDRESS"
        "Called-party address (E.164 with optional +, SIP URI, etc.)." (text "")
    ∷ []

-- An absent type takes the last `return`, as every type but VOICE does.
unfoldable pub default_variables_for_service_type :
    Option ServiceType → Option ServiceProfile → List Variable
default_variables_for_service_type (some voice) profile =
    if is_huawei_profile profile then huawei_voice_variables else three_gpp_voice_variables
default_variables_for_service_type _ profile = []

abbrev pub has_name : String → List Variable → Bool
has_name n vs = any (λ v. str_eq v.name n) vs

unfoldable pub merge_variables : List Variable → List Variable → List Variable
merge_variables existing additions =
    existing ++ filter_by (λ v. not (has_name v.name existing)) additions

-- `new Map(additions.map((v) => [v.name, v]))`
abbrev pub variable_map : List Variable → List (String × Variable)
variable_map additions = spread [] (map (λ v. (v.name, v)) additions)

unfoldable pub upsert_variables : List Variable → List Variable → List Variable
unfolding lookup spread
upsert_variables existing additions =
    map (λ v. or_else (lookup v.name (variable_map additions)) v) existing
    ++ filter_by (λ v. not (has_name v.name existing)) additions
