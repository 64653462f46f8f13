-- ===== src/Scenario/Options.antt =====
-- selectors.ts: the system variables and the options of every field that takes a variable.
pub mod Offered
use ocs_testbench.Common.{
  ℕ, ◌+◌, String, Bool, true, false, not, ◌&&◌, ◌||◌, List, [], ◌∷◌, ◌++◌, Option, none, some, map,
  any, filter_by, length, str_eq, ltb, if◌then◌else◌,
}
use ocs_testbench.Common.Text.{◌⧺◌, number_text}
use ocs_testbench.Scenario.{Variable, Service, ServiceModel, root, single_mscc, multi_mscc}

pub data SystemKind : Type 0 where
  generator bound : SystemKind

pub record SystemVariable : Type 0 where
  pub name : String
  pub kind : SystemKind
  pub description : String

-- The context of `listSystemVariables`.
pub record OptionsContext : Type 0 where
  pub services : List Service
  pub service_model : ServiceModel

abbrev system_variable : String → SystemKind → String → SystemVariable
system_variable name kind description = record {
  name = name;
  kind = kind;
  description = description;
}

-- `RG_SUFFIXES`: a suffix and its description.
abbrev rg_suffixes : List (String × String)
rg_suffixes =
    ("GRANTED", "Granted-Service-Unit (time, seconds) for this rating group — set from CCA.")
    ∷ ("GRANTED_UNITS", "Granted-Service-Unit (total octets) for this rating group — set from CCA.")
    ∷ ("VALIDITY", "Validity-Time (seconds) granted for this rating group — set from CCA.")
    ∷ ("RESULT_CODE", "Per-MSCC Result-Code for this rating group (0 = absent) — set from CCA.")
    ∷ (
      "FUI_ACTION",
      "Per-MSCC Final-Unit-Action for this rating group (-1 = absent, 0 = TERMINATE) — set from CCA.",
    )
    ∷ []

unfoldable pub rg_system_vars : (prefix service_id : String) → List SystemVariable
rg_system_vars prefix service_id =
    map (λ r. system_variable (prefix ⧺ r.0) generator ("[Service " ⧺ service_id ⧺ "] " ⧺ r.1))
      rg_suffixes

-- The variables that are there for every scenario.
abbrev pub base_system_variables : List SystemVariable
base_system_variables =
    system_variable "SESSION_ID" generator "Per-session monotonic UUID assigned by the engine."
    ∷ system_variable "CHARGING_ID" generator "Engine-assigned Diameter charging session id."
    ∷ system_variable "CC_REQUEST_NUMBER" generator
        "Auto-incrementing CCR sequence — engine-managed."
    ∷ system_variable "ORIGIN_HOST" bound "Engine origin-host from the bound peer."
    ∷ system_variable "ORIGIN_REALM" bound "Engine origin-realm from the bound peer."
    ∷ system_variable "DEST_REALM" bound "Destination-realm from the bound peer."
    ∷ system_variable "SERVICE_CONTEXT_ID" bound
        "Service-Context-Id (RFC 4006 §5.1.1.4) — defaults to 32251@3gpp.org."
    ∷ system_variable "AUTH_APP_ID" bound
        "Auth-Application-Id — always 4 for Diameter Credit-Control (Gy)."
    ∷ system_variable "SUB_ID_TYPE" generator "Subscription-Id-Type — 0 = END_USER_E164 (MSISDN)."
    ∷ system_variable "MSISDN" bound "Subscriber MSISDN from the bound subscriber."
    ∷ system_variable "TOTAL_USU" generator
        "Cumulative Used-Service-Unit total — sum across all UPDATE and TERMINATE steps."
    ∷ system_variable "RESULT_CODE" generator
        "Top-level Result-Code from the last CCA (e.g. 2001 = SUCCESS, 4012 = QUOTA_EXHAUSTED)."
    ∷ system_variable "FUI_ACTION" generator
        "Root-level Final-Unit-Action from the last CCA (-1 = absent, 0 = TERMINATE)."
    ∷ []

abbrev first_id : List Service → String
first_id [] = ""
first_id (s ∷ services) = s.id

-- The loop over the services, from position `i` on, counting from 1.
unfoldable pub numbered_vars : ℕ → List Service → List SystemVariable
unfolding rg_system_vars
numbered_vars i [] = []
numbered_vars i (s ∷ services) =
    rg_system_vars ("RG" ⧺ number_text i ⧺ "_") (number_text i) ++ numbered_vars (i + 1) services

unfoldable pub per_rg : ServiceModel → List Service → List SystemVariable
unfolding numbered_vars
per_rg root services = []
per_rg single_mscc services = rg_system_vars "RG_" (first_id services)
per_rg multi_mscc services = numbered_vars 1 services

unfoldable pub list_system_variables : Option OptionsContext → List SystemVariable
unfolding per_rg
list_system_variables none = base_system_variables
list_system_variables (some context) =
    base_system_variables ++ per_rg context.service_model context.services

pub record VariableOption : Type 0 where
  pub value : String
  pub label : String

pub record VariableOptionGroup : Type 0 where
  pub group : String
  pub items : List VariableOption

abbrev wrap : String → VariableOption
wrap name = record { value = name; label = "{{" ⧺ name ⧺ "}}" }

abbrev pub has_text : String → List String → Bool
has_text x xs = any (λ y. str_eq y x) xs

-- `options.push` of a group that has items.
abbrev pub push_group : String → List String → List VariableOptionGroup → List VariableOptionGroup
push_group group [] rest = rest
push_group group (n ∷ names) rest = record { group = group; items = map wrap (n ∷ names) } ∷ rest

abbrev pub names_of : List SystemVariable → List String
names_of vs = map (λ v. v.name) vs

unfoldable pub user_names : List Variable → Option OptionsContext → List String
unfolding list_system_variables
user_names user_variables context =
    filter_by (λ name. not (has_text name (names_of (list_system_variables context))))
      (map (λ v. v.name) user_variables)

-- The groups, and whether there is any option.
unfoldable pub build_variable_options :
    List Variable → Option OptionsContext → List VariableOptionGroup × Bool
unfolding user_names
build_variable_options user_variables context =
    let system_names = names_of (list_system_variables context) in
    let users = user_names user_variables context in
    (
      push_group "System" system_names (push_group "User" users []),
      ltb 0 (length system_names + length users),
    )
