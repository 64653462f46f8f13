-- ===== src/Examples/BuilderTabs.antt =====
-- The tabs of the scenario builder, on a new scenario.
use ocs_testbench.Common.{
  ℕ, ◌≡◌, refl, String, true, false, List, [], ◌∷◌, Option, none, some, All, get_elem?, map, ◌++◌,
  inl, inr, ◌++◌,
}
use ocs_testbench.Common.Text.{number_text, has_prefix}
use ocs_testbench.Scenario.{
  Scenario, ScenarioStep, Variable, Service, nil, voice, three_gpp, user, text, root, multi_mscc,
  session, terminate,
}
use ocs_testbench.Scenario.History.{create_history}
use ocs_testbench.Scenario.Defaults.Variables.{has_name, literal_variable}
use ocs_testbench.Scenario.Draft.{ScenarioDraftState, mutate, set_steps}
use ocs_testbench.Scenario.Draft.Modes.{validate_input}
use ocs_testbench.Scenario.Selectors.{find_usages, tree_usages, service_usages, step_usages}
use ocs_testbench.Scenario.Tabs.{apply_edits}
use ocs_testbench.Scenario.Tabs.Services.{add_service, handle_segment, positioned, seeded}
use ocs_testbench.Scenario.Tabs.Services.Declared.{add_service-declared, handle_segment-undeclared}
use ocs_testbench.Scenario.Tabs.Steps.{
  remove_step_at, default_step, StepsAction, add_step, remove_step, move_to, change_step,
  choose_type, act, act_all,
}
use ocs_testbench.Scenario.Tabs.Steps.Moved.{put_in, MovesItems}
use ocs_testbench.Scenario.Tabs.Steps.Savable.{view_of, act_all-savable}
use ocs_testbench.Scenario.Tabs.Variables.{
  VariablesView, nothing, user_variable, add, change, request_remove, confirm_remove, selected_user,
}
use ocs_testbench.Scenario.Tabs.Variables.Names.{AreDistinct}
use ocs_testbench.Scenario.Tabs.Variables.Distinct.{AllFit, Fits, run, run-AreDistinct}
use ocs_testbench.Scenario.Selectors.Free.{IsFree, find_usages-eq-nil_iff}
use ocs_testbench.Scenario.Tabs.Variables.Removal.{Removed, run-remove, run-change_renames}
use ocs_testbench.Scenario.Validators.{validate_scenario}
use ocs_testbench.Scenario.Server.{ServerState, scenario_id, is_taken, find_scenario}
use ocs_testbench.Scenario.Page.{PageState, PageAction, edited, undo_pressed}
use ocs_testbench.Scenario.Page.Saved.{
  HasSaved, as_saved, saved_after, IsEditing, save-update, save-create,
}

abbrev same : String → String
same s = s

abbrev caller : Variable
caller = literal_variable "CALLER" "The caller" (text "1")

abbrev callee : Variable
callee = literal_variable "CALLEE" "The callee" (text "2")

abbrev own_service : Service
own_service = record {
  id = "root";
  rating_group = none;
  service_identifier = none;
  requested_units = "CALLER";
  used_units = none;
}

abbrev small : Scenario
small = record {
  id = "s1";
  name = "small";
  description = none;
  service_type = some voice;
  service_profile = some three_gpp;
  session_mode = session;
  service_model = root;
  origin = user;
  favourite = none;
  subscriber_id = none;
  peer_id = none;
  service_context_id = none;
  step_count = 1;
  updated_at = "";
  avp_tree = nil;
  services = own_service ∷ [];
  variables = caller ∷ callee ∷ [];
  steps = default_step session ∷ [];
}

abbrev page : ScenarioDraftState
page = record { draft = some small; dirty = false; history = create_history }

-- The same draft with the model `multi-mscc`, in the store.
abbrev multi : Scenario
multi = record small { service_model = multi_mscc; services = positioned 1 "100" ∷ [] }

add_service-declared_example :
    (t : Scenario) × ((apply_edits (add_service multi) (record page { draft = some multi })).draft
      ≡ some t)
    × (svc : Service) × (t.services ≡ multi.services ++ svc ∷ [])
    × (group : String) × (svc.rating_group ≡ some group)
    × (used : String) × (svc.used_units ≡ some used)
    × All (λ n. has_name n t.variables ≡ true) (group ∷ svc.requested_units ∷ used ∷ [])
    × (extra : List Variable) × (t.variables ≡ multi.variables ++ extra)
add_service-declared_example =
    add_service-declared multi (record page { draft = some multi }) refl refl

handle_segment-undeclared_example :
    (t : Scenario) × ((apply_edits (handle_segment multi_mscc small) page).draft ≡ some t)
    × (t.service_model ≡ multi_mscc)
    × (t.services ≡ seeded)
    × (has_name "RG1_RSU" t.variables ≡ has_name "RG1_RSU" small.variables)
handle_segment-undeclared_example =
    handle_segment-undeclared small page "RG1_RSU" refl refl refl refl refl

abbrev array_move : List ScenarioStep → ℕ → ℕ → List ScenarioStep
array_move xs from to = insert_found (get_elem? xs from) xs from to
  where
    insert_found : Option ScenarioStep → List ScenarioStep → ℕ → ℕ → List ScenarioStep
    insert_found none xs from to = xs
    insert_found (some x) xs from to = put_in to x (remove_step_at from xs)

array_move-MovesItems : MovesItems array_move
array_move-MovesItems xs from to x at inside = rw at refl

abbrev steps_session : List StepsAction
steps_session =
    add_step ∷ move_to 1 (some 0) ∷ change_step (choose_type terminate) ∷ remove_step 0 ∷ []

act_all-savable_example :
    validate_scenario (
      validate_input (
        mutate
          (set_steps (act_all array_move session steps_session (view_of small 0)).steps)
          small))
    ≡ []
unfolding act validate_scenario
act_all-savable_example =
    act_all-savable array_move array_move-MovesItems small 0 steps_session
      (tt, ((default_step session, refl), (tt, (tt, tt)))) refl

abbrev view : VariablesView
view = record { selected = nothing; pending_delete = none; problem = none }

abbrev on_caller : VariablesView
on_caller = record view { selected = user_variable "CALLER" }

run-AreDistinct_example :
    AreDistinct
      (run same (add ∷ request_remove "CALLEE" ∷ confirm_remove ∷ []) small view).0.variables
unfolding AllFit Fits number_text
run-AreDistinct_example =
    run-AreDistinct same (add ∷ request_remove "CALLEE" ∷ confirm_remove ∷ []) small view
      (refl, (tt, (tt, tt))) (refl, (refl, tt))

run-remove_example :
    Removed same "CALLEE" small
      (run same (request_remove "CALLEE" ∷ confirm_remove ∷ []) small view).0
run-remove_example = run-remove same "CALLEE" small view

abbrev renamed : Variable
renamed = literal_variable "CALLING" "The caller" (text "1")

run-change_renames_example :
    let t = (run same (change renamed ∷ []) small on_caller).0 in
    (find_usages t "CALLING" ≡ find_usages small "CALLER")
    × IsFree "CALLER" t
    × (map (λ s. s.repeat_until) t.steps ≡ map (λ s. s.repeat_until) small.steps)
unfolding selected_user find_usages tree_usages service_usages step_usages default_step
run-change_renames_example =
    run-change_renames same renamed caller small on_caller refl refl refl refl
      ((find_usages-eq-nil_iff "CALLING" small).0 refl)

-- The page of the scenario "s1", which the mock server has.
abbrev server : ServerState
server = record { scenarios = small ∷ []; next_id = 1 }

abbrev builder : Option String → PageState
builder id = record {
  route_id = id;
  store = page;
  server = server;
  field_errors = [];
  discard_open = false;
  delete_open = false;
  closing_programmatically = false;
  saving = none;
  deleting = none;
  left = false;
  notices = [];
}

-- While the save is under way the steps are taken away and put back.
abbrev typed : List PageAction
typed = edited (set_steps []) ∷ undo_pressed ∷ []

typed-IsEditing : All IsEditing typed
typed-IsEditing = (inl (set_steps [], refl), (inr (inl refl), tt))

save-update_example :
    HasSaved (as_saved "s1" "now" small) (saved_after "now" typed (builder (some "s1")))
unfolding validate_scenario find_scenario default_step has_prefix
save-update_example =
    save-update "now" "s1" typed small small (builder (some "s1")) typed-IsEditing refl refl refl
      refl refl refl

save-create_example :
    (n : ℕ) × (is_taken n server.scenarios ≡ false)
    × HasSaved (as_saved (scenario_id n) "now" small) (saved_after "now" typed (builder none))
unfolding validate_scenario default_step
save-create_example =
    save-create "now" typed small (builder none) typed-IsEditing refl refl refl refl refl
