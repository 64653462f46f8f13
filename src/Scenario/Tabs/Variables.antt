-- ===== src/Scenario/Tabs/Variables.antt =====
-- tabs/VariablesTab.tsx: the lists of variables, the definition pane and the removal of a variable.
-- `trim` of the platform is an argument.
pub mod Names
pub mod Distinct
pub mod Removal
use Prim.Native.Char.{code}
use Prim.Native.String
use ocs_testbench.Common.{
  ℕ, ◌+◌, String, Bool, true, false, not, ◌&&◌, ◌||◌, List, [], ◌∷◌, ◌++◌, Option, none, some, map,
  length, filter_by, ◌==◌, str_eq, or_else, if◌then◌else◌,
}
use ocs_testbench.Common.Objects.{insert}
use ocs_testbench.Common.Text.{◌⧺◌, number_text}
use ocs_testbench.Scenario.{
  VarValue, number, text, GeneratorStrategy, literal, GeneratorRefresh, once, BoundFrom, subscriber,
  VariableSource, generator, bound, extracted, Variable, Scenario,
}
use ocs_testbench.Scenario.Defaults.Variables.{has_name}
use ocs_testbench.Scenario.Draft.{Edit, set_variables, update_variable, remove_variable}
use ocs_testbench.Scenario.Options.{list_system_variables, names_of, has_text}
use ocs_testbench.Scenario.Provision.{provision_variables}
use ocs_testbench.Scenario.Selectors.{UsageRef, find_usages}

-- The tab's `selected`: a text `system:<name>` or `user:<name>`, or the empty text.
pub data Selection : Type 0 where
  system_variable user_variable : (name : String) → Selection
  nothing : Selection

-- What `split(':')` leaves of a name.
unfoldable pub before_colon : String → String
before_colon String.[] = ""
before_colon (String.◌∷◌ c s) =
    let rest = String.◌∷◌ c (before_colon s) in if code c == 58 then "" else rest

abbrev pub system_names : Scenario → List String
unfolding list_system_variables
system_names d = names_of (
    list_system_variables
      (some (record { services = d.services; service_model = d.service_model })))

-- The user's variables: those whose name is not a system variable's.
unfoldable pub user_variables : Scenario → List Variable
unfolding list_system_variables
user_variables d = filter_by (λ v. not (has_text v.name (system_names d))) d.variables

abbrev pub find_variable : String → List Variable → Option Variable
find_variable name [] = none
find_variable name (v ∷ vs) =
    let rest = find_variable name vs in if str_eq v.name name then some v else rest

abbrev chosen : Selection → List Variable → Option Variable
unfolding before_colon
chosen (user_variable name) user = find_variable (before_colon name) user
chosen s user = none

unfoldable pub selected_user : Selection → Scenario → Option Variable
unfolding chosen user_variables
selected_user selected d = chosen selected (user_variables d)

abbrev pub first_of : List Variable → Selection
first_of [] = nothing
first_of (v ∷ vs) = user_variable v.name

abbrev first_system : List String → Selection
first_system [] = nothing
first_system (n ∷ ns) = system_variable n

-- The selection at first.
unfoldable pub initial_selection : Scenario → Selection
unfolding user_variables list_system_variables
initial_selection d = elim (user_variables d) [
  | [] ↦ first_system (system_names d)
  | v ∷ vs ↦ user_variable v.name
]

pub record PendingDelete : Type 0 where
  pub name : String
  pub usages : List UsageRef

pub data Problem : Type 0 where
  name_empty name_taken : Problem

pub record VariablesView : Type 0 where
  pub selected : Selection
  pub pending_delete : Option PendingDelete
  pub problem : Option Problem

abbrev pub added_name : Scenario → String
unfolding user_variables
added_name d = "VAR_" ⧺ number_text (length (user_variables d) + 1)

abbrev pub added_variable : Scenario → Variable
unfolding added_name
added_variable d = record {
  name = added_name d;
  source = generator literal once (("value", number 0) ∷ []);
  description = some "";
}

pub data VariablesAction : Type 0 where
  select : Selection → VariablesAction
  add : VariablesAction
  provision : VariablesAction
  change : Variable → VariablesAction
  request_remove : (name : String) → VariablesAction
  cancel_remove : VariablesAction
  confirm_remove : VariablesAction

abbrev pub is_none_left : List UsageRef → Bool
is_none_left [] = true
is_none_left (u ∷ us) = false

abbrev pub Outcome : Type 0
Outcome = List Edit × VariablesView

module _ (trim : String → String) where
  -- `handleChange`, of the variable that is selected.
  abbrev pub change_selected : Option Variable → Variable → Scenario → VariablesView → Outcome
  unfolding user_variables list_system_variables
  change_selected none updated d v = ([], v)
  change_selected (some u) updated d v =
      let trimmed = trim updated.name in
      let edit = update_variable u.name (record updated { name = trimmed }) in
      if str_eq trimmed u.name
      then (edit ∷ [], record v { problem = none })
      else if str_eq trimmed ""
      then ([], record v { problem = some name_empty })
      else if has_text trimmed (system_names d) || has_name trimmed (user_variables d)
      then ([], record v { problem = some name_taken })
      else (edit ∷ [], record v { selected = user_variable trimmed; problem = none })

  abbrev pub confirm : Option PendingDelete → Scenario → VariablesView → Outcome
  unfolding user_variables
  confirm none d v = ([], v)
  confirm (some p) d v =
      if is_none_left p.usages
      then (
        remove_variable p.name ∷ [],
        record v {
          selected = first_of (filter_by (λ u. not (str_eq u.name p.name)) (user_variables d));
          pending_delete = none;
        },
      )
      else ([], v)

  -- What a control does with the draft that is shown.
  unfoldable pub act : VariablesAction → Scenario → VariablesView → Outcome
  unfolding selected_user change_selected confirm added_variable provision_variables
  act (select s) d v = ([], record v { selected = s })
  act add d v = (
    set_variables (user_variables d ++ added_variable d ∷ []) ∷ [],
    record v { selected = user_variable (added_name d) },
  )
  act provision d v = (set_variables (provision_variables d) ∷ [], v)
  act (change updated) d v = change_selected (selected_user v.selected d) updated d v
  act (request_remove name) d v =
      ([], record v { pending_delete = some (record { name = name; usages = find_usages d name }) })
  act cancel_remove d v = ([], record v { pending_delete = none })
  act confirm_remove d v = confirm v.pending_delete d v

-- The fields of a variable's source. Choosing a kind or a strategy starts it anew.
pub data SourceKind : Type 0 where
  generator_kind bound_kind extracted_kind : SourceKind

unfoldable pub new_source : SourceKind → VariableSource
new_source generator_kind = generator literal once (("value", number 0) ∷ [])
new_source bound_kind = bound subscriber "msisdn"
new_source extracted_kind = extracted "" none

unfoldable pub set_param : String → VarValue → VariableSource → VariableSource
unfolding insert
set_param key value (generator strategy refresh params) =
    generator strategy refresh (insert key value params)
set_param key value source = source

unfoldable pub set_strategy : GeneratorStrategy → VariableSource → VariableSource
set_strategy strategy (generator old refresh params) = generator strategy refresh []
set_strategy strategy source = source

unfoldable pub set_refresh : GeneratorRefresh → VariableSource → VariableSource
set_refresh refresh (generator strategy old params) = generator strategy refresh params
set_refresh refresh source = source

unfoldable pub set_bound_from : BoundFrom → VariableSource → VariableSource
set_bound_from from (bound old field) = bound from field
set_bound_from from source = source

unfoldable pub set_bound_field : String → VariableSource → VariableSource
set_bound_field field (bound from old) = bound from field
set_bound_field field source = source

unfoldable pub set_path : String → VariableSource → VariableSource
set_path path (extracted old transform) = extracted path transform
set_path path source = source

unfoldable pub set_transform : String → VariableSource → VariableSource
set_transform transform (extracted path old) = extracted path (some transform)
set_transform transform source = source
