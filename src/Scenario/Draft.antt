-- ===== src/Scenario/Draft.antt =====
-- web/src/pages/scenarios/scenarioDraftStore.ts: the edited scenario, its dirty flag and its
-- history. `get` and `set` are the state that an action takes and gives back.

pub mod Timeline
pub mod Bounded
pub mod Modes
use ocs_testbench.Common.{
  String, Bool, true, false, not, List, [], ◌∷◌, Option, none, some, map, filter_by, or_else,
  str_eq, if◌then◌else◌, ◌||◌,
}
use ocs_testbench.Scenario.{
  SessionMode, ServiceModel, ServiceType, ServiceProfile, Variable, AvpNode, AvpTree, nil, cons,
  Service, ScenarioStep, Scenario,
}
use ocs_testbench.Scenario.History.{
  HistoryStacks, create_history, record_snapshot, undo, redo, can_undo, can_redo,
}
use ocs_testbench.Scenario.Defaults.{default_session_mode, default_steps_for_mode, or_undefined}
use ocs_testbench.Scenario.Defaults.Tree.{replace_service_info_node, is_service_info}
use ocs_testbench.Scenario.Defaults.Variables.{default_variables_for_service_type, upsert_variables}
use ocs_testbench.Scenario.Selectors.{rename_usages}

pub record ScenarioDraftState : Type 0 where
  pub draft : Option Scenario
  pub dirty : Bool
  pub history : HistoryStacks Scenario

unfoldable pub initial_state : ScenarioDraftState
unfolding create_history
initial_state = record { draft = none; dirty = false; history = create_history }

-- The dispatchers that go through `commit`.
pub data Edit : Type 0 where
  set_name : String → Edit
  set_description : String → Edit
  set_service_type : Option ServiceType → Edit
  set_service_profile : Option ServiceProfile → Edit
  set_session_mode : SessionMode → Edit
  set_service_model : ServiceModel → Edit
  set_subscriber_id : Option String → Edit
  set_peer_id : Option String → Edit
  set_service_context_id : Option String → Edit
  set_favourite : Bool → Edit
  set_steps : List ScenarioStep → Edit
  set_avp_tree : AvpTree → Edit
  set_services : List Service → Edit
  set_variables : List Variable → Edit
  update_variable : (old_name : String) → (updated : Variable) → Edit
  remove_variable : String → Edit

abbrev pub replace_variable : String → Variable → List Variable → List Variable
replace_variable old_name updated vs = map (λ v. if str_eq v.name old_name then updated else v) vs

-- What each of them does to the draft.
unfoldable pub mutate : Edit → Scenario → Scenario
mutate (set_name name) d = record d { name = name }
mutate (set_description description) d = record d { description = some description }
mutate (set_service_type type) d = record d {
  service_type = type;
  session_mode = default_session_mode type;
  avp_tree = replace_service_info_node d.avp_tree type d.service_profile;
  variables =
      upsert_variables d.variables (default_variables_for_service_type type d.service_profile);
}
mutate (set_service_profile profile) d = record d {
  service_profile = profile;
  avp_tree = replace_service_info_node d.avp_tree d.service_type profile;
  variables =
      upsert_variables d.variables (default_variables_for_service_type d.service_type profile);
}
mutate (set_session_mode mode) d = record d {
  session_mode = mode;
  steps = default_steps_for_mode mode;
}
mutate (set_service_model model) d = record d { service_model = model }
mutate (set_subscriber_id id) d = record d { subscriber_id = some (or_else id "") }
mutate (set_peer_id id) d = record d { peer_id = some (or_else id "") }
mutate (set_service_context_id id) d = record d { service_context_id = or_undefined id }
mutate (set_favourite favourite) d = record d { favourite = some favourite }
mutate (set_steps steps) d = record d { steps = steps }
mutate (set_avp_tree tree) d = record d { avp_tree = tree }
mutate (set_services services) d = record d { services = services }
mutate (set_variables variables) d = record d { variables = variables }
mutate (update_variable old_name updated) d =
    let propagated =
      if not (str_eq old_name updated.name) then rename_usages d old_name updated.name else d in
    record propagated { variables = replace_variable old_name updated propagated.variables }
mutate (remove_variable name) d = record d {
  variables = filter_by (λ v. not (str_eq v.name name)) d.variables;
}

-- `commit`: the previous draft goes on the undo stack. Nothing happens where no draft is loaded.
abbrev commit_draft :
    Option Scenario → (Scenario → Scenario) → ScenarioDraftState → ScenarioDraftState
commit_draft none change s = s
commit_draft (some d) change s = record {
  draft = some (change d);
  dirty = true;
  history = record_snapshot d s.history;
}

unfoldable pub commit : (Scenario → Scenario) → ScenarioDraftState → ScenarioDraftState
unfolding record_snapshot
commit change s = commit_draft s.draft change s

unfoldable pub has_service_info : AvpTree → Bool
has_service_info nil = false
has_service_info (cons n ns) = is_service_info n || has_service_info ns

-- A stored tree with no Service-Information node is given one.
unfoldable pub back_fill : Scenario → Scenario
unfolding has_service_info
back_fill s =
    if not (has_service_info s.avp_tree)
    then record s {
      avp_tree = replace_service_info_node s.avp_tree s.service_type s.service_profile;
    }
    else s

unfoldable pub load : Scenario → ScenarioDraftState → ScenarioDraftState
unfolding create_history
load scenario s = record {
  draft = some (back_fill scenario);
  dirty = false;
  history = create_history;
}

unfoldable pub reset : ScenarioDraftState → ScenarioDraftState
unfolding create_history
reset s = record { draft = none; dirty = false; history = create_history }

unfoldable pub mark_saved : Scenario → ScenarioDraftState → ScenarioDraftState
unfolding create_history
mark_saved scenario s = record { draft = some scenario; dirty = false; history = create_history }

abbrev after_undo :
    Option (Scenario × HistoryStacks Scenario) → ScenarioDraftState → ScenarioDraftState
after_undo none s = s
after_undo (some (prev, h)) s = record { draft = some prev; dirty = can_undo h; history = h }

abbrev undo_draft : Option Scenario → ScenarioDraftState → ScenarioDraftState
undo_draft none s = s
undo_draft (some d) s = after_undo (undo d s.history) s

unfoldable pub undo_action : ScenarioDraftState → ScenarioDraftState
undo_action s = undo_draft s.draft s

abbrev after_redo :
    Option (Scenario × HistoryStacks Scenario) → ScenarioDraftState → ScenarioDraftState
after_redo none s = s
after_redo (some (next, h)) s = record { draft = some next; dirty = true; history = h }

abbrev redo_draft : Option Scenario → ScenarioDraftState → ScenarioDraftState
redo_draft none s = s
redo_draft (some d) s = after_redo (redo d s.history) s

unfoldable pub redo_action : ScenarioDraftState → ScenarioDraftState
redo_action s = redo_draft s.draft s

-- The store's `canUndo` and `canRedo`.
unfoldable pub can_undo_action : ScenarioDraftState → Bool
can_undo_action s = can_undo s.history

unfoldable pub can_redo_action : ScenarioDraftState → Bool
can_redo_action s = can_redo s.history

-- Every action of the store that changes state.
pub data Action : Type 0 where
  load_scenario : Scenario → Action
  reset_store : Action
  saved : Scenario → Action
  edit : Edit → Action
  undo_last : Action
  redo_last : Action

unfoldable pub dispatch : Action → ScenarioDraftState → ScenarioDraftState
unfolding commit load reset mark_saved undo_action redo_action
dispatch (load_scenario scenario) s = load scenario s
dispatch reset_store s = reset s
dispatch (saved scenario) s = mark_saved scenario s
dispatch (edit e) s = commit (mutate e) s
dispatch undo_last s = undo_action s
dispatch redo_last s = redo_action s

unfoldable pub dispatch_all : List Action → ScenarioDraftState → ScenarioDraftState
dispatch_all [] s = s
dispatch_all (a ∷ rest) s = dispatch_all rest (dispatch a s)
