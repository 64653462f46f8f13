-- ===== src/Scenario/Provision.antt =====
-- web/src/pages/scenarios/provisionVariables.ts: the variables that a scenario's services imply.
pub mod Fills
use ocs_testbench.Common.{
  ℕ, zero, suc, ◌+◌, ◌*◌, ◌-◌, String, Bool, true, false, ◌&&◌, List, [], ◌∷◌, ◌++◌, Option, none,
  some, truthy, leb, if◌then◌else◌,
}
use Prim.Native.Char.{code}
use Prim.Native.String
use ocs_testbench.Common.Text.{number_text, ◌⧺◌}
use ocs_testbench.Scenario.{
  ServiceModel, root, single_mscc, multi_mscc, VarValue, text, number, literal, random_int, once,
  per_send, generator, Variable, Service, Scenario,
}
use ocs_testbench.Scenario.Defaults.Variables.{has_name, literal_variable}

-- `Number(id) || 0` of a text of digits. Other numerals that `Number` reads (a fraction, a padded
-- or a hexadecimal one) are taken for 0.
number_from : ℕ → String → ℕ
number_from acc String.[] = acc
number_from acc (String.◌∷◌ c s) =
    let d = code c in
    let rest = number_from (acc * 10 + (d - b'0')) s in if leb b'0' d && leb d b'9' then rest else 0

unfoldable pub number_or_zero : String → ℕ
unfolding number_from
number_or_zero s = number_from 0 s

-- The factory's variable is appended only if no variable has the name.
unfoldable pub ensure_var : List Variable → String → Variable → List Variable
ensure_var vs name v = if has_name name vs then vs else vs ++ v ∷ []

abbrev pub rsu_total : Variable
rsu_total =
    literal_variable "RSU_TOTAL" "Auto-provisioned: requested service-units quantity." (number 0)

abbrev pub usu_total : Variable
usu_total = literal_variable "USU_TOTAL" "Auto-provisioned: used service-units quantity." (number 0)

-- Positions count from 1, and only `multi-mscc` prefixes them.
abbrev rg_prefix : Bool → ℕ → String
rg_prefix multi i = if multi then "RG" ⧺ number_text (i + 1) ⧺ "_" else ""

abbrev rating_group_variable : Bool → ℕ → Service → Variable
rating_group_variable multi i svc =
    literal_variable (rg_prefix multi i ⧺ "RATING_GROUP")
      ("Auto-provisioned rating-group for service " ⧺ number_text (i + 1) ⧺ ".")
      (number (number_or_zero svc.id))

abbrev units_req_variable : Bool → ℕ → Variable
units_req_variable multi i =
    literal_variable (rg_prefix multi i ⧺ "UNITS_REQ")
      ("Auto-provisioned requested service-units for service " ⧺ number_text (i + 1) ⧺ ".")
      (number 0)

abbrev granted_name : Bool → ℕ → String
granted_name multi i =
    if multi then "RG" ⧺ number_text (i + 1) ⧺ "_GRANTED_UNITS" else "RG_GRANTED_UNITS"

abbrev units_used_variable : Bool → ℕ → Variable
units_used_variable multi i = record {
  name = rg_prefix multi i ⧺ "UNITS_USED";
  source =
      generator random_int per_send
        (("min", number 1) ∷ ("max", text ("{{" ⧺ granted_name multi i ⧺ "}}")) ∷ []);
  description = some (
      "Auto-provisioned used service-units for service "
      ⧺ number_text (i + 1)
      ⧺ ". Randomised each send, capped to what the OCS granted.");
}

-- `if (wanted) next = ensureVar(next, v.name, () => v);`
abbrev pub ensure_if : Bool → Variable → List Variable → List Variable
ensure_if wanted v next = if wanted then ensure_var next v.name v else next

-- The body of the loop over the services, at index `i`.
unfoldable pub provision_service : Bool → ℕ → Service → List Variable → List Variable
provision_service multi i svc next =
    let next1 = ensure_if (truthy svc.rating_group) (rating_group_variable multi i svc) next in
    let next2 = ensure_if (truthy (some svc.requested_units)) (units_req_variable multi i) next1 in
    ensure_if (truthy svc.used_units) (units_used_variable multi i) next2

unfoldable pub provision_services : Bool → ℕ → List Service → List Variable → List Variable
provision_services multi i [] next = next
provision_services multi i (svc ∷ svcs) next =
    provision_services multi (i + 1) svcs (provision_service multi i svc next)

abbrev provision_for : ServiceModel → List Service → List Variable → List Variable
provision_for root svcs vs = ensure_var (ensure_var vs "RSU_TOTAL" rsu_total) "USU_TOTAL" usu_total
provision_for single_mscc svcs vs = provision_services false 0 svcs vs
provision_for multi_mscc svcs vs = provision_services true 0 svcs vs

unfoldable pub provision_variables : Scenario → List Variable
unfolding provision_services provision_service ensure_var
provision_variables s = provision_for s.service_model s.services s.variables
