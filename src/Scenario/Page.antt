-- ===== src/Scenario/Page.antt =====
-- web/src/pages/scenarios/ScenarioBuilderPage.tsx: how the builder saves, discards, deletes and closes,
-- together with the draft store and the mock server. The server acts on a request when its answer is
-- handled. What another page does to the shared store after this one was left is not modelled, nor
-- is the footer's test that the draft has changed and has a name, a peer and a subscriber.
pub mod Saved
pub mod Refused
use ocs_testbench.Common.{
  String, Bool, true, false, List, [], ◌∷◌, ◌++◌, Option, none, some, or_else, if◌then◌else◌,
}
use ocs_testbench.Common.Objects.{lookup, insert}
use ocs_testbench.Common.Text.{◌⧺◌}
use ocs_testbench.Scenario.{user, Scenario}
use ocs_testbench.Scenario.Defaults.{ScenarioInput, to_scenario_input}
use ocs_testbench.Scenario.Draft.{
  ScenarioDraftState, Edit, mutate, commit, mark_saved, undo_action, redo_action,
}
use ocs_testbench.Scenario.Draft.Modes.{validate_input}
use ocs_testbench.Scenario.Validators.{ValidationIssue, validate_scenario}
use ocs_testbench.Scenario.Server.{
  ServerState, ServerReply, Answer, listed, answered, removed, name_missing, unparsable,
  forced_failure, not_found, out_of_fuel, post_scenario, put_request, delete_request,
}

abbrev pub make_duplicate_draft : (now : String) → Scenario → Scenario
make_duplicate_draft now source = record source {
  id = "";
  name = source.name ⧺ " (copy)";
  origin = user;
  favourite = some false;
  updated_at = now;
}

abbrev pub FieldErrors : Type 0
FieldErrors = List (String × List String)

-- The issues by their path.
unfoldable pub errors_from : FieldErrors → List ValidationIssue → FieldErrors
unfolding lookup insert
errors_from errors [] = errors
errors_from errors (i ∷ is) =
    errors_from (insert i.path (or_else (lookup i.path errors) [] ++ i.message ∷ []) errors) is

pub data Notice : Type 0 where
  scenario_saved : (name : String) → Notice
  save_failed : (message : String) → Notice
  scenario_deleted : (name : String) → Notice
  delete_failed : (message : String) → Notice

pub record PageState : Type 0 where
  -- `none` where the route names no scenario
  pub route_id : Option String
  pub store : ScenarioDraftState
  pub server : ServerState
  pub field_errors : FieldErrors
  pub discard_open : Bool
  pub delete_open : Bool
  pub closing_programmatically : Bool
  -- the input of the save that is not yet answered
  pub saving : Option ScenarioInput
  -- the name to report, of the deletion that is not yet answered
  pub deleting : Option String
  -- whether the page has navigated away
  pub left : Bool
  pub notices : List Notice

abbrev pub told : Notice → PageState → PageState
told notice p = record p { notices = p.notices ++ notice ∷ [] }

abbrev pub leave : PageState → PageState
leave p = record p { closing_programmatically = true; left = true }

-- The title of a refusal, which is the message of the error that the client throws.
abbrev pub title : ServerReply → String
title (listed rows) = ""
title (answered s) = ""
title removed = ""
title name_missing = "Validation failed"
title unparsable = "Validation failed"
title forced_failure = "Forced failure"
title (not_found id) = "Scenario not found"
title out_of_fuel = ""

abbrev pub fields_message : String
fields_message = "Validation errors — see fields below."

abbrev pub save_refused : ServerReply → PageState → PageState
save_refused reply p = told (save_failed (title reply)) p

-- What `handleSave` does with the answer.
abbrev pub after_save : ServerReply → PageState → PageState
after_save (answered saved) p =
    leave (told (scenario_saved saved.name) (record p { store = mark_saved saved p.store }))
after_save name_missing p =
    told (save_failed fields_message)
      (record p { field_errors = ("/name", "Name is required" ∷ []) ∷ [] })
after_save reply p = save_refused reply p

abbrev pub save_request : (now : String) → Option String → ScenarioInput → ServerState → Answer
save_request now none input server = post_scenario now (some input) server
save_request now (some id) input server = put_request now id (some input) server

abbrev pub receive : Answer → PageState → PageState
receive (server, reply) p = after_save reply (record p { server = server; saving = none })

abbrev pub save_checked : List ValidationIssue → Scenario → PageState → PageState
unfolding errors_from
save_checked [] d p = record p { saving = some (to_scenario_input d); field_errors = [] }
save_checked (i ∷ is) d p =
    told (save_failed fields_message) (record p { field_errors = errors_from [] (i ∷ is) })

abbrev pub save_draft : Option Scenario → PageState → PageState
save_draft none p = p
save_draft (some d) p = save_checked (validate_scenario (validate_input d)) d p

-- The button shows a save under way and takes no click then.
abbrev pub save_clicked : Option ScenarioInput → PageState → PageState
save_clicked (some input) p = p
save_clicked none p = save_draft p.store.draft p

abbrev pub save_answer : (now : String) → Option ScenarioInput → PageState → PageState
save_answer now none p = p
save_answer now (some input) p = receive (save_request now p.route_id input p.server) p

abbrev pub name_or : Option Scenario → String → String
name_or none id = id
name_or (some d) id = d.name

abbrev pub after_delete : (name : String) → ServerReply → PageState → PageState
after_delete name removed p =
    leave (record (told (scenario_deleted name) p) { delete_open = false })
after_delete name reply p = told (delete_failed (title reply)) p

-- The button shows a deletion under way and takes no click then.
abbrev pub delete_confirmed : Option String → Option String → PageState → PageState
delete_confirmed (some id) none p = record p { deleting = some (name_or p.store.draft id) }
delete_confirmed id name p = p

abbrev pub delete_received : (name : String) → Answer → PageState → PageState
delete_received name (server, reply) p =
    after_delete name reply (record p { server = server; deleting = none })

abbrev pub delete_answer : Option String → Option String → PageState → PageState
delete_answer (some id) (some name) p = delete_received name (delete_request id p.server) p
delete_answer id name p = p

abbrev pub delete_asked : Option String → PageState → PageState
delete_asked none p = p
delete_asked (some id) p = record p { delete_open = true }

-- The handlers of the page, the answers to its requests, the hotkeys, an edit of the draft by one of
-- its tabs, and a link of the app, which no guard stops.
pub data PageAction : Type 0 where
  edited : Edit → PageAction
  undo_pressed redo_pressed : PageAction
  save : PageAction
  save_answered : (now : String) → PageAction
  request_discard confirm_discard cancel_discard : PageAction
  request_delete confirm_delete delete_answered cancel_delete : PageAction
  request_close navigated : PageAction

unfoldable pub act : PageAction → PageState → PageState
unfolding commit undo_action redo_action mark_saved post_scenario put_request delete_request
act (edited e) p = record p { store = commit (mutate e) p.store }
act undo_pressed p = record p { store = undo_action p.store }
act redo_pressed p = record p { store = redo_action p.store }
act save p = save_clicked p.saving p
act (save_answered now) p = save_answer now p.saving p
act request_discard p = if p.store.dirty then record p { discard_open = true } else leave p
act confirm_discard p = leave (record p { discard_open = false })
act cancel_discard p = record p { discard_open = false }
act request_delete p = delete_asked p.route_id p
act confirm_delete p = delete_confirmed p.route_id p.deleting p
act delete_answered p = delete_answer p.route_id p.deleting p
act cancel_delete p = record p { delete_open = false }
act request_close p =
    if p.closing_programmatically
    then record p { closing_programmatically = false }
    else (if p.store.dirty then record p { discard_open = true } else record p { left = true })
act navigated p = record p { left = true }

unfoldable pub act_all : List PageAction → PageState → PageState
act_all [] p = p
act_all (a ∷ more) p = act_all more (act a p)
