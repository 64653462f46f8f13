-- ===== src/Scenario/Page/Saved.antt =====
-- ScenarioBuilderPage.tsx: what a save does to the server and the page.
use ocs_testbench.Common.{
  ℕ, ◌+◌, ◌≡◌, refl, subst, sym, ap, ◌∙◌, String, true, false, List, [], ◌∷◌, ◌++◌, none, some,
  length, arith, eq_iff, truthy, ◌⊎◌, inl, inr, All, or_else,
}
use ocs_testbench.Common.Text.{has_prefix}
use ocs_testbench.Scenario.{user, Scenario}
use ocs_testbench.Scenario.Defaults.{ScenarioInput, to_scenario_input}
use ocs_testbench.Scenario.Draft.{ScenarioDraftState, Edit, mark_saved}
use ocs_testbench.Scenario.Draft.Modes.{validate_input}
use ocs_testbench.Scenario.Validators.{validate_scenario}
use ocs_testbench.Scenario.Server.{
  answered, scenario_id, is_taken, apply_input, find_scenario, put_scenario, ServerState,
  put_request, post_scenario, get_request,
}
use ocs_testbench.Scenario.Server.Fresh.{free_number_total}
use ocs_testbench.Scenario.Page.{
  PageState, PageAction, edited, undo_pressed, redo_pressed, save, save_answered, act, act_all,
  save_request, save_checked, receive,
}

-- The page has saved: its server has `saved` under its id, the draft is `saved` with nothing left to
-- save, and the page is left.
pub HasSaved : Scenario → PageState → Type 0
HasSaved saved p =
    (get_request saved.id p.server ≡ (p.server, answered saved))
    × (p.store.draft ≡ some saved)
    × (p.store.dirty ≡ false)
    × (p.left ≡ true)

find-put_scenario :
    (id : String) (next found : Scenario) (ss : List Scenario)
    → next.id ≡ found.id
    → find_scenario id ss ≡ some found
    → (found.id ≡ id) × (find_scenario id (put_scenario id next ss) ≡ some next)
unfolding find_scenario put_scenario
find-put_scenario id next found [] e h = cc
find-put_scenario id next found (s ∷ ss) e h =
    ground (arith, eq_iff s.id id, eq_iff next.id id, find-put_scenario id next found ss e)

find_scenario-push :
    (n : ℕ) (next : Scenario) (ss : List Scenario)
    → next.id ≡ scenario_id n
    → is_taken n ss ≡ false
    → find_scenario (scenario_id n) (ss ++ next ∷ []) ≡ some next
unfolding find_scenario
find_scenario-push n next [] e h = ground (arith, eq_iff next.id (scenario_id n))
find_scenario-push n next (s ∷ ss) e h = ground (arith, find_scenario-push n next ss e)

get_request-found :
    (id : String) (saved : Scenario) (s : ServerState)
    → find_scenario id s.scenarios ≡ some saved
    → get_request id s ≡ (s, answered saved)
unfolding get_request
get_request-found id saved s h = rw h refl

put_request-found :
    (now id : String) (input : ScenarioInput) (found : Scenario) (s : ServerState)
    → has_prefix "error-" id ≡ false
    → find_scenario id s.scenarios ≡ some found
    → put_request now id (some input) s ≡ (
        let next = apply_input found.id now input in
        (record s { scenarios = put_scenario id next s.scenarios }, answered next))
unfolding put_request
put_request-found now id input found s fine h = rw (fine, h) refl

-- A draft as a save stores it: under an id, as the user's own, with the time of the save and the number
-- of its steps, and without its service context; all else is the draft's.
abbrev pub as_saved : (id now : String) → Scenario → Scenario
as_saved id now d = record d {
  id = id;
  origin = user;
  favourite = some (or_else d.favourite false);
  subscriber_id = some (or_else d.subscriber_id "");
  peer_id = some (or_else d.peer_id "");
  service_context_id = none;
  step_count = length d.steps;
  updated_at = now;
}

apply_input-eq-as_saved :
    (id now : String) (d : Scenario) → apply_input id now (to_scenario_input d) ≡ as_saved id now d
unfolding to_scenario_input
apply_input-eq-as_saved id now d = refl

-- What may happen on the page while a save is under way, the page staying: edits of the draft.
abbrev pub IsEditing : PageAction → Type 0
IsEditing a = ((e : Edit) × (a ≡ edited e)) ⊎ (a ≡ undo_pressed) ⊎ (a ≡ redo_pressed)

act_editing :
    (a : PageAction) (p : PageState)
    → IsEditing a
    → (store : ScenarioDraftState) × (act a p ≡ record p { store = store })
unfolding act
act_editing a p (inl (e, h)) = rw h (_, refl)
act_editing a p (inr (inl h)) = rw h (_, refl)
act_editing a p (inr (inr h)) = rw h (_, refl)

act_all-editing :
    (acts : List PageAction) (p : PageState)
    → All IsEditing acts
    → (store : ScenarioDraftState) × (act_all acts p ≡ record p { store = store })
unfolding act_all
act_all-editing [] p h = (p.store, refl)
act_all-editing (a ∷ acts) p (ha, has) =
    let (one, e) = act_editing a p ha in
    let (store, f) = act_all-editing acts (record p { store = one }) has in
    (store, ap (act_all acts) e ∙ f)

act-save :
    (d : Scenario) (p : PageState)
    → p.saving ≡ none
    → p.store.draft ≡ some d
    → validate_scenario (validate_input d) ≡ []
    → act save p ≡ record p { saving = some (to_scenario_input d); field_errors = [] }
unfolding act save_checked
act-save d p idle loaded valid = rw (idle, loaded, valid) refl

-- The page after a click on "Save", some edits, and the answer.
abbrev pub saved_after : (now : String) → List PageAction → PageState → PageState
saved_after now between p = act (save_answered now) (act_all between (act save p))

-- A request that is answered with what the server then has makes the page save.
save-HasSaved :
    (now : String) (between : List PageAction) (d saved : Scenario) (server : ServerState)
    (p : PageState)
    → All IsEditing between
    → p.saving ≡ none
    → p.store.draft ≡ some d
    → validate_scenario (validate_input d) ≡ []
    → save_request now p.route_id (to_scenario_input d) p.server ≡ (server, answered saved)
    → find_scenario saved.id server.scenarios ≡ some saved
    → HasSaved saved (saved_after now between p)
unfolding mark_saved HasSaved act
save-HasSaved now between d saved server p edits idle loaded valid sent stored =
    let sending : PageState = record p { saving = some (to_scenario_input d); field_errors = [] } in
    let (store, e) = act_all-editing between sending edits in
    let clicked = ap (act_all between) (act-save d p idle loaded valid) ∙ e in
    subst (HasSaved saved)
      (sym (
        ap (act (save_answered now)) clicked
        ∙ ap (λ a. receive a (record sending { store = store })) sent))
      (get_request-found saved.id saved server stored, refl, refl, refl)

-- A click on "Save", while no save is under way, with a valid draft of a scenario that the server has,
-- then any edits, undos and redos, then the answer: the server has under the same id the draft of the
-- click, as the user's own, with the time of the save and the number of its steps and without its
-- service context; the page shows that, without those edits, with nothing left to save, and is left.
-- The id must not be one that the mock server makes fail.
pub save-update :
    (now id : String) (between : List PageAction) (d found : Scenario) (p : PageState)
    → All IsEditing between
    → p.saving ≡ none
    → p.route_id ≡ some id
    → p.store.draft ≡ some d
    → validate_scenario (validate_input d) ≡ []
    → has_prefix "error-" id ≡ false
    → find_scenario id p.server.scenarios ≡ some found
    → HasSaved (as_saved id now d) (saved_after now between p)
save-update now id between d found p edits idle route loaded valid fine h =
    let input = to_scenario_input d in
    let next = apply_input found.id now input in
    let (same, stored) = find-put_scenario id next found p.server.scenarios refl h in
    subst (λ s. HasSaved s (saved_after now between p))
      (ap (λ i. apply_input i now input) same ∙ apply_input-eq-as_saved id now d)
      (save-HasSaved now between d next
        (record p.server { scenarios = put_scenario id next p.server.scenarios }) p edits idle
        loaded valid
        (ap (λ r. save_request now r input p.server) route
          ∙ put_request-found now id input found p.server fine h)
        (ap (λ i. find_scenario i (put_scenario id next p.server.scenarios)) same ∙ stored))

-- A click on "Save", while no save is under way, with a valid draft with a name on the page of a new
-- scenario, then any edits, undos and redos, then the answer: the server has under an id that was free
-- the draft of the click, as the user's own, with the time of the save and the number of its steps and
-- without its service context; the page shows that, without those edits, with nothing left to save,
-- and is left.
pub save-create :
    (now : String) (between : List PageAction) (d : Scenario) (p : PageState)
    → All IsEditing between
    → p.saving ≡ none
    → p.route_id ≡ none
    → p.store.draft ≡ some d
    → truthy (some d.name) ≡ true
    → validate_scenario (validate_input d) ≡ []
    → (n : ℕ) × (is_taken n p.server.scenarios ≡ false)
      × HasSaved (as_saved (scenario_id n) now d) (saved_after now between p)
unfolding to_scenario_input post_scenario
save-create now between d p edits idle route loaded named valid =
    let ss = p.server.scenarios in
    let input = to_scenario_input d in
    let (n, found, later, free) =
      free_number_total (length ss + 1) p.server.next_id ss (omega arith) in
    let next = as_saved (scenario_id n) now d in
    (
      n,
      free,
      save-HasSaved now between d next (record { scenarios = ss ++ next ∷ []; next_id = n + 1 }) p
          edits idle loaded valid
          (ap (λ r. save_request now r input p.server) route ∙ rw (named, found) refl)
          (find_scenario-push n next ss refl free),
    )
