-- ===== src/Scenario/Tabs/Steps.antt =====
-- tabs/StepsTab.tsx: the list of steps with its selection, and the fields of one step. `arrayMove` of
-- the drag-and-drop library is an argument. The numbers of a step that the data model leaves out
-- (repetition and delay) are edited alone and are not followed.
pub mod Moved
pub mod Savable
use ocs_testbench.Common.{
  ℕ, zero, suc, ◌+◌, ◌-◌, min, max, String, Bool, true, false, not, ◌&&◌, ◌||◌, List, [], ◌∷◌, ◌++◌,
  Option, none, some, map, any, filter_by, length, get_elem?, leb, ltb, ◌==◌, str_eq, or_else,
  truthy, if◌then◌else◌,
}
use ocs_testbench.Common.Objects.{insert, has_key}
use ocs_testbench.Scenario.{
  SessionMode, session, event, RequestType, update, event_request, StepKind, request, ScenarioStep,
  VarValue, text, Scenario,
}
use ocs_testbench.Scenario.Draft.{Edit, set_steps}
use ocs_testbench.Scenario.Validators.{is_legal_request_type}

abbrev default_request : SessionMode → RequestType
default_request session = update
default_request event = event_request

-- `defaultStep`
unfoldable pub default_step : SessionMode → ScenarioStep
default_step mode = record {
  kind = request;
  label = none;
  request_type = default_request mode;
  services = none;
  overrides = none;
  repeat_until = none;
}

-- The selection that is shown.
unfoldable pub clamped : List ScenarioStep → ℕ → ℕ
clamped steps selected = if length steps == 0 then 0 else min selected (max 0 (length steps - 1))

unfoldable pub remove_step_at : ℕ → List ScenarioStep → List ScenarioStep
remove_step_at i [] = []
remove_step_at zero (s ∷ ss) = ss
remove_step_at (suc i) (s ∷ ss) = s ∷ remove_step_at i ss

unfoldable pub update_step_at : ℕ → ScenarioStep → List ScenarioStep → List ScenarioStep
update_step_at i step [] = []
update_step_at zero step (s ∷ ss) = step ∷ ss
update_step_at (suc i) step (s ∷ ss) = s ∷ update_step_at i step ss

-- The fields of a step that its editor changes.
unfoldable pub set_label : String → ScenarioStep → ScenarioStep
set_label label step = record step { label = if truthy (some label) then some label else none }

-- The request types that are offered are the legal ones.
unfoldable pub set_request_type : SessionMode → RequestType → ScenarioStep → ScenarioStep
unfolding is_legal_request_type
set_request_type mode t step =
    if is_legal_request_type mode t then record step { request_type = t } else step

abbrev pub overrides_of : ScenarioStep → List (String × VarValue)
overrides_of step = or_else step.overrides []

unfoldable pub set_override : String → String → ScenarioStep → ScenarioStep
unfolding insert
set_override name value step = record step {
  overrides = some (insert name (text value) (overrides_of step));
}

unfoldable pub remove_override : String → ScenarioStep → ScenarioStep
remove_override name step = record step {
  overrides = some (filter_by (λ entry. not (str_eq entry.0 name)) (overrides_of step));
}

-- The variables that can still be overridden, and the choice of one.
unfoldable pub remaining : List String → ScenarioStep → List String
unfolding has_key
remaining names step = filter_by (λ n. not (has_key n (overrides_of step))) names

unfoldable pub add_override : String → ScenarioStep → ScenarioStep
unfolding insert
add_override name step = record step {
  overrides = some (insert name (text "") (overrides_of step));
}

-- The checkbox "Repeat until condition", and the condition's text.
unfoldable pub set_repeats_until : Bool → ScenarioStep → ScenarioStep
set_repeats_until checked step = record step { repeat_until = if checked then some "" else none }

unfoldable pub set_condition : String → ScenarioStep → ScenarioStep
set_condition expression step = record step { repeat_until = some expression }

-- What the fields of the step that is shown do.
pub data StepEdit : Type 0 where
  type_label : String → StepEdit
  choose_type : RequestType → StepEdit
  check_repeats : Bool → StepEdit
  type_condition : String → StepEdit
  type_override : (name value : String) → StepEdit
  drop_override : (name : String) → StepEdit
  choose_override : (name : String) → StepEdit

unfoldable pub edit_step : SessionMode → StepEdit → ScenarioStep → ScenarioStep
unfolding set_label set_request_type set_repeats_until set_condition set_override remove_override
    add_override
edit_step mode (type_label label) step = set_label label step
edit_step mode (choose_type t) step = set_request_type mode t step
edit_step mode (check_repeats checked) step = set_repeats_until checked step
edit_step mode (type_condition expression) step = set_condition expression step
edit_step mode (type_override name value) step = set_override name value step
edit_step mode (drop_override name) step = remove_override name step
edit_step mode (choose_override name) step = add_override name step

-- The steps of the draft and the tab's `selectedIndex`.
pub record StepsView : Type 0 where
  pub steps : List ScenarioStep
  pub selected : ℕ

pub data StepsAction : Type 0 where
  select : ℕ → StepsAction
  -- A drag, or an arrow. A position above the first is `none`.
  move_to : (from : ℕ) (to : Option ℕ) → StepsAction
  add_step : StepsAction
  remove_step : ℕ → StepsAction
  change_step : StepEdit → StepsAction

module _ (array_move : List ScenarioStep → ℕ → ℕ → List ScenarioStep) (mode : SessionMode) where
  abbrev moved : ℕ → Option ℕ → StepsView → StepsView
  unfolding clamped
  moved from none v = v
  moved from (some to) v = if (from == to) || leb (length v.steps) to then v else record {
    steps = array_move v.steps from to;
    selected = if clamped v.steps v.selected == from then to else v.selected;
  }

  -- There is an editor if a step is selected.
  abbrev pub edited_at : ℕ → StepEdit → Option ScenarioStep → List ScenarioStep → List ScenarioStep
  unfolding edit_step update_step_at
  edited_at i e none steps = steps
  edited_at i e (some step) steps = update_step_at i (edit_step mode e step) steps

  unfoldable pub act : StepsAction → StepsView → StepsView
  unfolding clamped remove_step_at edited_at default_step moved
  act (select i) v = record v { selected = i }
  act (move_to from to) v = moved from to v
  act add_step v = record {
    steps = v.steps ++ default_step mode ∷ [];
    selected = length (v.steps ++ default_step mode ∷ []) - 1;
  }
  act (remove_step i) v =
      let next = remove_step_at i v.steps in
      record {
        steps = next;
        selected =
            if leb (length next) (clamped v.steps v.selected)
            then max 0 (length next - 1)
            else v.selected;
      }
  act (change_step e) v =
      let i = clamped v.steps v.selected in
      record v { steps = edited_at i e (get_elem? v.steps i) v.steps }

  unfoldable pub act_all : List StepsAction → StepsView → StepsView
  unfolding act
  act_all [] v = v
  act_all (a ∷ actions) v = act_all actions (act a v)

-- What the tab hands to the store for new steps.
unfoldable pub steps_edit : StepsView → Edit
steps_edit v = set_steps v.steps
