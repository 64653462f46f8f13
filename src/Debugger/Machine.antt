-- ===== src/Debugger/Machine.antt =====
-- The state machine that the store follows.
use ocs_testbench.Common.{
  ℕ, ◌≡◌, ◌≢◌, ◌⊎◌, refl, Bool, true, false, List, [], ◌∷◌, arith, if◌then◌else◌, map, none, some,
}
use ocs_testbench.Execution.{ExecutionState, Execution}
use ocs_testbench.Debugger.Store.{
  ExecutionStoreState, started, sending, sleeping, responded, paused, resumed, completed, failed,
  aborted, start_sleep, can_transition, transition, resume_first, is_terminal, ingest_snapshot,
}
use ocs_testbench.Debugger.Actions.{
  StoreEvent, sse, snapshot_read, ccr_sent, ccr_failed, skip_done, pause_clicked, resume_clicked,
  interrupt_clicked, stop_clicked, run_to_end_clicked, round_done, run_ends, step,
}

-- The edges that the state of an execution may move along, one by one: they are those of the table
-- VALID_TRANSITIONS.
infix 40 ◌⟶◌ ◌⟶*◌
pub data ◌⟶◌ : ExecutionState → ExecutionState → Type 0 where
  start : ExecutionState.pending ⟶ ExecutionState.running
  hold : ExecutionState.pending ⟶ ExecutionState.paused
  drop : ExecutionState.pending ⟶ ExecutionState.aborted
  refuse : ExecutionState.pending ⟶ ExecutionState.error
  pause : ExecutionState.running ⟶ ExecutionState.paused
  succeed : ExecutionState.running ⟶ ExecutionState.success
  fail : ExecutionState.running ⟶ ExecutionState.failure
  abort : ExecutionState.running ⟶ ExecutionState.aborted
  crash : ExecutionState.running ⟶ ExecutionState.error
  resume : ExecutionState.paused ⟶ ExecutionState.running
  give_up : ExecutionState.paused ⟶ ExecutionState.aborted
  break_down : ExecutionState.paused ⟶ ExecutionState.error

pub data ◌⟶*◌ : ExecutionState → ExecutionState → Type 0 where
  here : {s : ExecutionState} → s ⟶* s
  next : {s t u : ExecutionState} → s ⟶ t → t ⟶* u → s ⟶* u

ruleset edges =
    (start, hold, drop, refuse, pause, succeed, fail, abort, crash, resume, give_up, break_down)

transition-⟶* : (s t : ExecutionState) → s ⟶* transition s t
unfolding transition
transition-⟶* ExecutionState.pending ExecutionState.pending = here
transition-⟶* ExecutionState.running ExecutionState.running = here
transition-⟶* ExecutionState.paused ExecutionState.paused = here
transition-⟶* ExecutionState.success ExecutionState.success = here
transition-⟶* ExecutionState.failure ExecutionState.failure = here
transition-⟶* ExecutionState.aborted ExecutionState.aborted = here
transition-⟶* ExecutionState.error ExecutionState.error = here
transition-⟶* s t = search (here, next, edges)

success-⟶* : (s : ExecutionState) → s ⟶* transition (resume_first s) ExecutionState.success
unfolding transition
success-⟶* ExecutionState.running = search (here, next, edges)
success-⟶* s = search (here, next, edges)

failure-⟶* : (s : ExecutionState) → s ⟶* transition (resume_first s) ExecutionState.failure
unfolding transition
failure-⟶* ExecutionState.running = search (here, next, edges)
failure-⟶* s = search (here, next, edges)

join : {s t u : ExecutionState} → s ⟶* t → t ⟶* u → s ⟶* u
join here r = r
join (next e p) r = next e (join p r)

no_edge : {s t : ExecutionState} → s ⟶ t → is_terminal s ≡ true → ⊥
no_edge start h = cc
no_edge e h = cc

stuck : {s t : ExecutionState} → s ⟶* t → is_terminal s ≡ true → t ≡ s
stuck here h = refl
stuck (next e p) h = absurd (no_edge e h)

-- What one event does to the state: nothing, one edge, or, from `paused`, the edge to `running` and one
-- more edge from there.
abbrev pub IsMove : ExecutionState → ExecutionState → Type 0
IsMove s t = (t ≡ s) ⊎ ((s ⟶ t) ⊎ ((s ≡ ExecutionState.paused) × (ExecutionState.running ⟶ t)))

module _ {ℓ} {P : Type ℓ} where
  start_sleep-state :
      (x : ExecutionState) (now d : ℕ) (s : ExecutionStoreState P)
      → (start_sleep x now d s).state ≡ s.state
  start_sleep-state ExecutionState.running now d s = refl
  start_sleep-state x now d s = refl

  round-⟶* :
      (b : Bool) (x : Execution) (s : ExecutionStoreState P)
      → let r : ExecutionStoreState P × Bool =
          if b then (ingest_snapshot x s, true) else (s, false) in
        s.state ⟶* r.0.state
  unfolding ingest_snapshot
  round-⟶* true x s = transition-⟶* s.state x.state
  round-⟶* false x s = here

  -- Every event of the page but a failed request takes the state along edges of the diagram.
  step-⟶* :
      (e : StoreEvent P) (s : ExecutionStoreState P) → e ≢ ccr_failed → s.state ⟶* (step e s).state
  unfolding step
  step-⟶* (sse now (started x)) s ne = transition-⟶* s.state ExecutionState.running
  step-⟶* (sse now (sending id i)) s ne = transition-⟶* s.state ExecutionState.running
  step-⟶* (sse now (sleeping id i d)) s ne = rw (start_sleep-state s.state now d s) here
  step-⟶* (sse now (responded id r)) s ne = here
  step-⟶* (sse now (paused id i)) s ne = transition-⟶* s.state ExecutionState.paused
  step-⟶* (sse now (resumed id i)) s ne = transition-⟶* s.state ExecutionState.running
  step-⟶* (sse now (completed x)) s ne = success-⟶* s.state
  step-⟶* (sse now (failed x r)) s ne = failure-⟶* s.state
  step-⟶* (sse now (aborted x)) s ne = transition-⟶* s.state ExecutionState.aborted
  step-⟶* (snapshot_read x) s ne = transition-⟶* s.state x.state
  step-⟶* ccr_sent s ne = transition-⟶* s.state ExecutionState.running
  step-⟶* ccr_failed s ne = absurd (ne refl)
  step-⟶* (skip_done none) s ne = here
  step-⟶* (skip_done (some x)) s ne = transition-⟶* s.state x.state
  step-⟶* pause_clicked s ne = transition-⟶* s.state ExecutionState.paused
  step-⟶* resume_clicked s ne = transition-⟶* s.state ExecutionState.running
  step-⟶* interrupt_clicked s ne = transition-⟶* s.state ExecutionState.paused
  step-⟶* stop_clicked s ne = transition-⟶* s.state ExecutionState.aborted
  step-⟶* run_to_end_clicked s ne = transition-⟶* s.state ExecutionState.running
  step-⟶* (round_done x) s ne =
      round-⟶* (run_ends x.state) x (record s { cursor = x.current_step; steps = map some x.steps })
  step-⟶* e s ne = here

  abbrev pub steps_all : List (StoreEvent P) → ExecutionStoreState P → ExecutionStoreState P
  steps_all [] s = s
  steps_all (e ∷ es) s = steps_all es (step e s)

  abbrev pub NoFailure : List (StoreEvent P) → Type ℓ
  NoFailure [] = Unit
  NoFailure (e ∷ es) = (e ≢ ccr_failed) × NoFailure es

  -- The same of any run of events.
  steps_all-⟶* :
      (es : List (StoreEvent P)) (s : ExecutionStoreState P)
      → NoFailure es
      → s.state ⟶* (steps_all es s).state
  steps_all-⟶* [] s h = here
  steps_all-⟶* (e ∷ es) s (ne, h) = join (step-⟶* e s ne) (steps_all-⟶* es (step e s) h)

  -- However server events, snapshots, edits and clicks interleave, a terminal state stays, as long
  -- as no request of "Send CCR" fails.
  pub terminal_stays :
      (es : List (StoreEvent P)) (s : ExecutionStoreState P)
      → is_terminal s.state ≡ true
      → NoFailure es
      → (steps_all es s).state ≡ s.state
  terminal_stays es s t h = stuck (steps_all-⟶* es s h) t

  -- From a terminal state a failed request of "Send CCR" leads to a state that is not terminal,
  -- which is not a valid transition.
  pub ccr_failed_leaves_terminal :
      (s : ExecutionStoreState P)
      → is_terminal s.state ≡ true
      → (is_terminal (step ccr_failed (step ccr_sent s)).state ≡ false)
        × (can_transition s.state (step ccr_failed (step ccr_sent s)).state ≡ false)
  unfolding step can_transition
  ccr_failed_leaves_terminal s t = ground arith
