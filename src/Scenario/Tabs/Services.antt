-- ===== src/Scenario/Tabs/Services.antt =====
-- tabs/ServicesTab.tsx: the segments of the service model and the services' editor.
pub mod Declared
use ocs_testbench.Common.{
  ℕ, zero, suc, ◌+◌, ◌*◌, ◌-◌, String, Bool, true, false, not, ◌&&◌, List, [], ◌∷◌, ◌++◌, Option,
  none, some, length, or_else, str_eq, truthy, ltb, if◌then◌else◌,
}
use ocs_testbench.Common.Text.{◌⧺◌, number_text}
use ocs_testbench.Scenario.{
  ServiceModel, root, single_mscc, multi_mscc, UnitType, Service, Scenario,
}
use ocs_testbench.Scenario.Draft.{Edit, set_services, set_variables, set_service_model}
use ocs_testbench.Scenario.Provision.{provision_variables}
use ocs_testbench.Scenario.Validators.{MatrixCell, matrix, derive_unit_type}

abbrev first_service : List Service → Option Service
first_service [] = none
first_service (s ∷ ss) = some s

abbrev requested : Option Service → String
requested none = "RSU_TOTAL"
requested (some s) = s.requested_units

abbrev used : Option Service → String
used none = "USU_TOTAL"
used (some s) = or_else s.used_units "USU_TOTAL"

abbrev rated : Option Service → String
rated none = "RATING_GROUP"
rated (some s) = or_else s.rating_group "RATING_GROUP"

abbrev identified : Option Service → Option String
identified none = none
identified (some s) = s.service_identifier

abbrev service_id : Option Service → String
service_id none = "100"
service_id (some s) = if truthy (some s.id) && not (str_eq s.id "root") then s.id else "100"

abbrev root_service : Option Service → Service
root_service first = record {
  id = "root";
  rating_group = none;
  service_identifier = none;
  requested_units = requested first;
  used_units = some (used first);
}

abbrev single_service : Option Service → Service
single_service first = record {
  id = service_id first;
  rating_group = some (rated first);
  service_identifier = identified first;
  requested_units = requested first;
  used_units = some (used first);
}

-- The service at a position, counting from 1.
abbrev pub positioned : ℕ → String → Service
positioned pos id = record {
  id = id;
  rating_group = some ("RG" ⧺ number_text pos ⧺ "_RATING_GROUP");
  service_identifier = none;
  requested_units = "RG" ⧺ number_text pos ⧺ "_UNITS_REQ";
  used_units = some ("RG" ⧺ number_text pos ⧺ "_UNITS_USED");
}

abbrev pub seeded : List Service
seeded = positioned 1 "100" ∷ positioned 2 "200" ∷ []

-- `services.length >= 1 && services[0].id !== 'root'`
abbrev pub keeps_services : List Service → Bool
keeps_services [] = false
keeps_services (s ∷ ss) = not (str_eq s.id "root")

-- The variables are provisioned from the draft that was rendered, with other services.
abbrev pub with_services : Scenario → List Service → Scenario
with_services d services = record d { services = services }

abbrev reshape : ServiceModel → Scenario → List Edit
unfolding provision_variables
reshape root d = set_services (root_service (first_service d.services) ∷ []) ∷ []
reshape single_mscc d = set_services (single_service (first_service d.services) ∷ []) ∷ []
reshape multi_mscc d =
    if keeps_services d.services
    then set_services d.services ∷ []
    else set_services seeded ∷ set_variables (provision_variables (with_services d seeded)) ∷ []

unfoldable pub handle_segment : ServiceModel → Scenario → List Edit
unfolding reshape
handle_segment next d = set_service_model next ∷ reshape next d

-- The segments that can be chosen.
unfoldable pub segment_enabled : Scenario → ServiceModel → Bool
unfolding matrix derive_unit_type
segment_enabled d m = (matrix (derive_unit_type d.service_type) m).allowed

abbrev pub new_service : List Service → Service
new_service services = positioned (length services + 1) (number_text ((length services + 1) * 100))

-- The button "Add service".
unfoldable pub add_service : Scenario → List Edit
unfolding provision_variables
add_service d =
    let next = d.services ++ new_service d.services ∷ [] in
    set_services next ∷ set_variables (provision_variables (with_services d next)) ∷ []

unfoldable pub replace_at : ℕ → Service → List Service → List Service
replace_at i next [] = []
replace_at zero next (s ∷ ss) = next ∷ ss
replace_at (suc i) next (s ∷ ss) = s ∷ replace_at i next ss

unfoldable pub remove_at : ℕ → List Service → List Service
remove_at i [] = []
remove_at zero (s ∷ ss) = ss
remove_at (suc i) (s ∷ ss) = s ∷ remove_at i ss

-- The editor of a service. The models `root` and `single-mscc` edit the first one.
unfoldable pub change_service : ServiceModel → ℕ → Service → Scenario → List Edit
unfolding replace_at
change_service multi_mscc i next d = set_services (replace_at i next d.services) ∷ []
change_service m i next d = set_services (next ∷ []) ∷ []

-- There is a button to remove a service if there is another one.
unfoldable pub remove_service : ℕ → Scenario → List Edit
unfolding remove_at
remove_service i d =
    if ltb 1 (length d.services) then set_services (remove_at i d.services) ∷ [] else []
