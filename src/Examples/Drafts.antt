-- ===== src/Examples/Drafts.antt =====
-- Sessions on the scenario builder page.
use ocs_testbench.Common.{
  ◌≡◌, ◌≢◌, ◌-◌, ◌↔◌, refl, String, false, List, [], ◌∷◌, some, arith, ltb, min, str_eq, eq_iff,
}
use ocs_testbench.Scenario.{Scenario, Variable}
use ocs_testbench.Scenario.Defaults.Variables.{literal_variable}
use ocs_testbench.Scenario.{text}
use ocs_testbench.Scenario.Defaults.{make_new_scenario_draft}
use ocs_testbench.Scenario.History.{HistoryStacks, trim, can_undo, history_capacity}
use ocs_testbench.Scenario.History.Bounds.{IsBounded}
use ocs_testbench.Scenario.Validators.{validate_scenario}
use ocs_testbench.Scenario.Validators.Legal.{IsSavable, validate_scenario-eq-nil_iff}
use ocs_testbench.Scenario.Selectors.{
  find_usages, rename_usages, tree_usages, service_usages, step_usages,
}
use ocs_testbench.Scenario.Selectors.Fresh.{find_usages-rename_new}
use ocs_testbench.Scenario.Draft.{
  ScenarioDraftState, initial_state, set_name, edit, undo_last, redo_last, load_scenario, mutate,
  back_fill, dispatch, dispatch_all,
}
use ocs_testbench.Scenario.Draft.Timeline.{edit_all, mutate_all, undo_times, undo_times-edit_all}
use ocs_testbench.Scenario.Draft.Bounded.{dispatch_all-IsBounded, redo-undo_action}
use ocs_testbench.Common.{some}
use ocs_testbench.Scenario.Draft.Modes.{validate_input}

abbrev pub new_draft : Scenario
unfolding make_new_scenario_draft
new_draft = make_new_scenario_draft "2026-01-01T00:00:00Z"

distinct : (a b : String) → str_eq a b ≡ false → a ≢ b
distinct a b h e = ground (arith, eq_iff a b)

abbrev two_words : HistoryStacks String
two_words = record { undo = "b" ∷ "a" ∷ []; redo = [] }

abbrev one_word : HistoryStacks String
one_word = record { undo = "a" ∷ []; redo = "c" ∷ [] }

validate_scenario-eq-nil_iff_example :
    (validate_scenario (validate_input new_draft) ≡ []) ↔ IsSavable (validate_input new_draft)
validate_scenario-eq-nil_iff_example = validate_scenario-eq-nil_iff (validate_input new_draft)

find_usages-rename_new_example :
    find_usages (rename_usages new_draft "MSISDN" "CALLER") "CALLER"
    ≡ find_usages new_draft "MSISDN"
unfolding find_usages tree_usages service_usages step_usages make_new_scenario_draft
find_usages-rename_new_example =
    find_usages-rename_new "MSISDN" "CALLER" (distinct "MSISDN" "CALLER" refl) new_draft refl

abbrev edited_twice : ScenarioDraftState
edited_twice =
    edit_all (set_name "b" ∷ [])
      (edit_all (set_name "a" ∷ []) (dispatch (load_scenario new_draft) initial_state))

undo_times-edit_all_example :
    ((undo_times 1 edited_twice).draft
      ≡ some (mutate_all (set_name "a" ∷ []) (back_fill new_draft)))
    × ((undo_times 1 edited_twice).dirty ≡ ltb 0 (min 1 (history_capacity - 1)))
undo_times-edit_all_example =
    undo_times-edit_all new_draft initial_state (set_name "a" ∷ []) (set_name "b") [] (omega arith)

dispatch_all-IsBounded_example :
    IsBounded
      (dispatch_all
        (load_scenario new_draft ∷ edit (set_name "a") ∷ undo_last ∷ [])
        initial_state).history
dispatch_all-IsBounded_example =
    dispatch_all-IsBounded (load_scenario new_draft ∷ edit (set_name "a") ∷ undo_last ∷ [])

abbrev renamed : ScenarioDraftState
renamed = dispatch_all (load_scenario new_draft ∷ edit (set_name "a") ∷ []) initial_state

redo-undo_action_example :
    ((dispatch redo_last (dispatch undo_last renamed)).draft
      ≡ some (mutate (set_name "a") (back_fill new_draft)))
    × ((dispatch redo_last (dispatch undo_last renamed)).history ≡ renamed.history)
unfolding dispatch_all dispatch can_undo trim
redo-undo_action_example =
    redo-undo_action (load_scenario new_draft ∷ edit (set_name "a") ∷ [])
      (mutate (set_name "a") (back_fill new_draft)) refl refl

abbrev call_variables : List Variable
call_variables =
    literal_variable "MSISDN" "Caller" (text "27820000000")
    ∷ literal_variable "CALLED" "Called party" (text "27821111111")
    ∷ []
