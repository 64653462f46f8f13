-- ===== src/FakeApi/Moves.antt =====
-- How the server's rows move through the states of an execution.
use ocs_testbench.Common.{
  ℕ, ◌≡◌, refl, inl, inr, String, List, [], ◌∷◌, str_eq, Bool-cases, if_either,
}
use ocs_testbench.Execution.{ExecutionState, ExecutionSummary}
use ocs_testbench.Debugger.Machine.{
  ◌⟶*◌, here, next, pause as machine_pause, resume as machine_resume,
}
use ocs_testbench.FakeApi.Rows.{Action, pause, resume, next_state, update_first, transition_action}

-- Row by row: the same run, in a state that the diagram leads to.
abbrev pub AreMoved : List ExecutionSummary → List ExecutionSummary → Type 0
AreMoved [] [] = Unit
AreMoved (d ∷ ds) (e ∷ es) = (d.id ≡ e.id) × (d.state ⟶* e.state) × AreMoved ds es
AreMoved ds es = ⊥

moved_nowhere : (es : List ExecutionSummary) → AreMoved es es
moved_nowhere [] = tt
moved_nowhere (e ∷ es) = (refl, here, moved_nowhere es)

next_state-⟶* : (a : Action) (s : ExecutionState) → s ⟶* next_state a s
next_state-⟶* pause ExecutionState.running = next machine_pause here
next_state-⟶* resume ExecutionState.paused = next machine_resume here
next_state-⟶* a s = here

update-AreMoved :
    (a : Action) (id : String) (es : List ExecutionSummary)
    → AreMoved es (update_first (λ e. record e { state = next_state a e.state }) id es).0
unfolding update_first
update-AreMoved a id [] = tt
update-AreMoved a id (e ∷ es) = elim (Bool-cases (str_eq e.id id)) [
  | inl same ↦ rw same (refl, next_state-⟶* a e.state, moved_nowhere es)
  | inr other ↦ rw other (refl, here, update-AreMoved a id es)
]

-- A pause, resume, step or skip at the server takes every row along the diagram of the debugger's
-- states, and keeps the rows in their order.
pub transition_action-AreMoved :
    (a : Action) (id : String) (es : List ExecutionSummary)
    → AreMoved es (transition_action a id es).0
unfolding transition_action
transition_action-AreMoved a id es =
    if_either (λ (r : List ExecutionSummary × ℕ). AreMoved es r.0)
      (update_first (λ e. record e { state = next_state a e.state }) id es).1 _ _
      (λ found. update-AreMoved a id es) (λ missing. moved_nowhere es)
