-- ===== src/Scenario/Draft/Bounded.antt =====
-- scenarioDraftStore.ts: the size of the history, and undo and redo in the store.
use ocs_testbench.Common.{
  ◌≡◌, refl, Bool, true, List, [], ◌∷◌, Option, none, some, arith, inl, inr, Option-cases,
}
use ocs_testbench.Scenario.{Scenario}
use ocs_testbench.Scenario.History.{HistoryStacks, trim, undo, redo, can_undo}
use ocs_testbench.Scenario.History.Bounds.{
  IsBounded, record-IsBounded, undo-IsBounded, redo-IsBounded,
}
use ocs_testbench.Scenario.History.Inverse.{undo-inverse}
use ocs_testbench.Scenario.Draft.{
  ScenarioDraftState, initial_state, Action, load_scenario, reset_store, saved, edit, undo_last,
  redo_last, dispatch, dispatch_all, after_undo, after_redo,
}

after_undo-IsBounded :
    (d : Scenario) (s : ScenarioDraftState)
    → IsBounded s.history
    → IsBounded (after_undo (undo d s.history) s).history
after_undo-IsBounded d s b = elim (Option-cases (undo d s.history)) [
  | inl empty ↦ rw empty b
  | inr ((e, h'), found) ↦ rw found (undo-IsBounded s.history d e h' b found)
]

after_redo-IsBounded :
    (d : Scenario) (s : ScenarioDraftState)
    → IsBounded s.history
    → IsBounded (after_redo (redo d s.history) s).history
after_redo-IsBounded d s b = elim (Option-cases (redo d s.history)) [
  | inl empty ↦ rw empty b
  | inr ((e, h'), found) ↦ rw found (redo-IsBounded s.history d e h' b found)
]

step-IsBounded :
    (a : Action) (o : Option Scenario) (b : Bool) (h : HistoryStacks Scenario)
    → IsBounded h
    → IsBounded (dispatch a (record { draft = o; dirty = b; history = h })).history
unfolding dispatch
step-IsBounded (load_scenario x) o b h k = omega arith
step-IsBounded reset_store o b h k = omega arith
step-IsBounded (saved x) o b h k = omega arith
step-IsBounded (edit e) none b h k = k
step-IsBounded (edit e) (some d) b h k = record-IsBounded d h
step-IsBounded undo_last none b h k = k
step-IsBounded undo_last (some d) b h k =
    after_undo-IsBounded d (record { draft = some d; dirty = b; history = h }) k
step-IsBounded redo_last none b h k = k
step-IsBounded redo_last (some d) b h k =
    after_redo-IsBounded d (record { draft = some d; dirty = b; history = h }) k

dispatch_all-IsBounded_from :
    (actions : List Action) (s : ScenarioDraftState)
    → IsBounded s.history
    → IsBounded (dispatch_all actions s).history
unfolding dispatch_all
dispatch_all-IsBounded_from [] s b = b
dispatch_all-IsBounded_from (a ∷ rest) s b =
    dispatch_all-IsBounded_from rest (dispatch a s) (step-IsBounded a s.draft s.dirty s.history b)

-- After any actions on a fresh store the two stacks together hold at most 100 snapshots.
pub dispatch_all-IsBounded :
    (actions : List Action) → IsBounded (dispatch_all actions initial_state).history
unfolding initial_state
dispatch_all-IsBounded actions = dispatch_all-IsBounded_from actions initial_state (omega arith)

-- The state holds the draft `d` and the stacks of `s`.
abbrev Undone : Scenario → ScenarioDraftState → ScenarioDraftState → Type 0
Undone d s s' = (s'.draft ≡ some d) × (s'.history ≡ s.history)

redo-undo_state :
    (d e : Scenario) (s : ScenarioDraftState) (h' : HistoryStacks Scenario)
    → s.draft ≡ some d
    → IsBounded s.history
    → undo d s.history ≡ some (e, h')
    → Undone d s (dispatch redo_last (dispatch undo_last s))
unfolding dispatch
redo-undo_state d e s h' p b found = ground (arith, (undo-inverse s.history d e h' b found).0)

undo_from_can :
    (d : Scenario) (us rs : List Scenario)
    → can_undo (record { undo = us; redo = rs }) ≡ true
    → (r : Scenario × HistoryStacks Scenario) × (undo d (record { undo = us; redo = rs })
        ≡ some (r.0, r.1))
unfolding can_undo undo
undo_from_can d [] rs h = cc
undo_from_can d (u ∷ us) rs h = ((u, record { undo = us; redo = trim (d ∷ rs) }), refl)

-- In every reachable state that holds a draft and can undo, redo after undo gives back the draft
-- and both stacks.
pub redo-undo_action :
    (actions : List Action) (d : Scenario)
    → (dispatch_all actions initial_state).draft ≡ some d
    → can_undo (dispatch_all actions initial_state).history ≡ true
    → let s = dispatch_all actions initial_state in
      let s' = dispatch redo_last (dispatch undo_last s) in
      (s'.draft ≡ some d) × (s'.history ≡ s.history)
redo-undo_action actions d p c =
    let s = dispatch_all actions initial_state in
    let (r, found) = undo_from_can d s.history.undo s.history.redo c in
    redo-undo_state d r.0 s r.1 p (dispatch_all-IsBounded actions) found
