-- ===== src/Debugger/Store.antt =====
-- web/src/pages/debugger/executionStore.ts: the debugger's store. An action takes the state and
-- gives the next one; an asynchronous action is cut at its awaits into parts of its own. The
-- clock's reading is the argument `now`. `steps` may have holes, as a JavaScript array has.
use ocs_testbench.Common.{
  ℕ, zero, suc, ◌+◌, ◌*◌, max, String, Bool, true, false, List, [], ◌∷◌, Option, none, some, map,
  length, get_elem?, if◌then◌else◌, any,
}
use ocs_testbench.Common.Text.{◌⧺◌}
use ocs_testbench.Execution.{
  ExecutionState, ExecutionMode, continuous, StepState, StepRecord, ExecutionContextSnapshot,
  Execution,
}

-- The editing state, with the type of a preview tree left open.
pub record DebuggerEditState {ℓ} (P : Type ℓ) : Type ℓ where
  pub services_enabled : List String
  pub preview_tree : Option P
  pub dirty : Bool
  pub overrides : List (String × String)

pub record SleepCountdown : Type 0 where
  pub total_sec : ℕ
  pub ends_at : ℕ

pub record ExecutionStoreState {ℓ} (P : Type ℓ) : Type ℓ where
  pub execution_id : String
  pub mode : ExecutionMode
  pub state : ExecutionState
  pub cursor : ℕ
  pub total_steps : ℕ
  pub steps : List (Option StepRecord)
  pub context : ExecutionContextSnapshot
  pub historical_index : Option ℕ
  pub edit : DebuggerEditState P
  pub failure_reason : Option String
  pub sleep_countdown : Option SleepCountdown
  pub started_at : Option ℕ
  pub finished_at : Option ℕ

pub data SseEventPayload : Type 0 where
  started : Execution → SseEventPayload
  sending : (execution_id : String) (step_index : ℕ) → SseEventPayload
  sleeping : (execution_id : String) (step_index delay_sec : ℕ) → SseEventPayload
  responded : (execution_id : String) → StepRecord → SseEventPayload
  paused : (execution_id : String) (at_step_index : ℕ) → SseEventPayload
  resumed : (execution_id : String) (from_step_index : ℕ) → SseEventPayload
  completed : Execution → SseEventPayload
  failed : Execution → (failure_reason : Option String) → SseEventPayload
  aborted : Execution → SseEventPayload

-- `VALID_TRANSITIONS`
unfoldable pub valid_transitions : ExecutionState → List ExecutionState
valid_transitions ExecutionState.pending =
    ExecutionState.running ∷ ExecutionState.paused ∷ ExecutionState.aborted ∷ ExecutionState.error
    ∷ []
valid_transitions ExecutionState.running =
    ExecutionState.paused ∷ ExecutionState.success ∷ ExecutionState.failure ∷ ExecutionState.aborted
    ∷ ExecutionState.error ∷ []
valid_transitions ExecutionState.paused =
    ExecutionState.running ∷ ExecutionState.aborted ∷ ExecutionState.error ∷ []
valid_transitions _ = []

-- `===` on states.
abbrev pub same_state : ExecutionState → ExecutionState → Bool
same_state ExecutionState.pending ExecutionState.pending = true
same_state ExecutionState.running ExecutionState.running = true
same_state ExecutionState.paused ExecutionState.paused = true
same_state ExecutionState.success ExecutionState.success = true
same_state ExecutionState.failure ExecutionState.failure = true
same_state ExecutionState.aborted ExecutionState.aborted = true
same_state ExecutionState.error ExecutionState.error = true
same_state _ _ = false

unfoldable pub can_transition : ExecutionState → ExecutionState → Bool
unfolding valid_transitions
can_transition current next =
    if same_state current next
    then true
    else any (λ s. same_state s next) (valid_transitions current)

abbrev state_text : ExecutionState → String
state_text ExecutionState.pending = "pending"
state_text ExecutionState.running = "running"
state_text ExecutionState.paused = "paused"
state_text ExecutionState.success = "success"
state_text ExecutionState.failure = "failure"
state_text ExecutionState.aborted = "aborted"
state_text ExecutionState.error = "error"

-- The resolved state, and what is passed to `warn`.
unfoldable pub reduce_transition : ExecutionState → ExecutionState → ExecutionState × List String
unfolding can_transition
reduce_transition current next = if can_transition current next then (next, []) else (
  current,
  ("[executionStore] invalid transition "
        ⧺ state_text current
        ⧺ " → "
        ⧺ state_text next
        ⧺ "; ignoring (no-op).")
      ∷ [],
)

-- The store passes the console for `warn`, so it keeps the state alone.
unfoldable pub transition : ExecutionState → ExecutionState → ExecutionState
unfolding reduce_transition
transition current next = (reduce_transition current next).0

abbrev pub empty_context : ExecutionContextSnapshot
empty_context = record { system = []; user = []; extracted = [] }

abbrev pub empty_edit {ℓ} : {P : Type ℓ} → DebuggerEditState P
empty_edit = record { services_enabled = []; preview_tree = none; dirty = false; overrides = [] }

unfoldable pub create_execution_store {ℓ} : {P : Type ℓ} → String → ExecutionStoreState P
create_execution_store execution_id = record {
  execution_id = execution_id;
  mode = continuous;
  state = ExecutionState.pending;
  cursor = 0;
  total_steps = 0;
  steps = [];
  context = empty_context;
  historical_index = none;
  edit = empty_edit;
  failure_reason = none;
  sleep_countdown = none;
  started_at = none;
  finished_at = none;
}

abbrev pub is_terminal : ExecutionState → Bool
is_terminal ExecutionState.success = true
is_terminal ExecutionState.failure = true
is_terminal ExecutionState.aborted = true
is_terminal ExecutionState.error = true
is_terminal _ = false

abbrev pub is_completed : StepState → Bool
is_completed StepState.success = true
is_completed StepState.failure = true
is_completed StepState.error = true
is_completed _ = false

abbrev pub record_completed : Option StepRecord → Bool
record_completed none = false
record_completed (some r) = is_completed r.state

-- `for (let i = k - 1; i >= 0; i--)` with a break at the first completed record.
unfoldable pub last_completed_below : List StepRecord → ℕ → Option ℕ
last_completed_below steps zero = none
last_completed_below steps (suc i) =
    let below = last_completed_below steps i in
    if record_completed (get_elem? steps i) then some i else below

-- `arr[i] = v`: a write past the end leaves holes.
unfoldable pub set_step : List (Option StepRecord) → ℕ → StepRecord → List (Option StepRecord)
set_step [] zero r = some r ∷ []
set_step [] (suc i) r = none ∷ set_step [] i r
set_step (x ∷ xs) zero r = some r ∷ xs
set_step (x ∷ xs) (suc i) r = x ∷ set_step xs i r

-- `next[step.n - 1] = step`; at `n = 0` that is the property "-1", which is no item.
abbrev pub place_step : List (Option StepRecord) → StepRecord → ℕ → List (Option StepRecord)
place_step steps r zero = steps
place_step steps r (suc i) = set_step steps i r

-- A paused run is first taken back to running.
abbrev pub resume_first : ExecutionState → ExecutionState
resume_first ExecutionState.paused = transition ExecutionState.paused ExecutionState.running
resume_first s = s

module _ {ℓ} {P : Type ℓ} where
  unfoldable pub ingest_snapshot : Execution → ExecutionStoreState P → ExecutionStoreState P
  unfolding transition last_completed_below
  ingest_snapshot snapshot s = record s {
    mode = snapshot.mode;
    state = transition s.state snapshot.state;
    cursor = snapshot.current_step;
    total_steps = snapshot.total_steps;
    steps = map some snapshot.steps;
    context = snapshot.context;
    edit = empty_edit;
    historical_index =
        if is_terminal snapshot.state
        then last_completed_below snapshot.steps (length snapshot.steps)
        else none;
  }

  abbrev pub start_sleep : ExecutionState → ℕ → ℕ → ExecutionStoreState P → ExecutionStoreState P
  start_sleep ExecutionState.running now delay s = record s {
    sleep_countdown = some (record { total_sec = delay; ends_at = now + delay * 1000 });
  }
  start_sleep _ now delay s = s

  unfoldable pub ingest_sse :
      (now : ℕ) → SseEventPayload → ExecutionStoreState P → ExecutionStoreState P
  unfolding transition set_step
  ingest_sse now (started e) s = record s {
    state = transition s.state ExecutionState.running;
    started_at = some now;
    finished_at = none;
  }
  ingest_sse now (sleeping id i delay) s = start_sleep s.state now delay s
  ingest_sse now (sending id i) s = record s {
    state = transition s.state ExecutionState.running;
    cursor = i;
    sleep_countdown = none;
  }
  ingest_sse now (responded id r) s = record s {
    steps = place_step s.steps r r.n;
    cursor = max s.cursor r.n;
  }
  ingest_sse now (paused id i) s = record s {
    state = transition s.state ExecutionState.paused;
    cursor = i;
    sleep_countdown = none;
  }
  ingest_sse now (resumed id i) s = record s {
    state = transition s.state ExecutionState.running;
    cursor = i;
  }
  ingest_sse now (completed e) s = record s {
    state = transition (resume_first s.state) ExecutionState.success;
    cursor = e.total_steps;
    total_steps = e.total_steps;
    steps = map some e.steps;
    context = e.context;
    sleep_countdown = none;
    finished_at = some now;
  }
  ingest_sse now (failed e reason) s = record s {
    state = transition (resume_first s.state) ExecutionState.failure;
    cursor = e.total_steps;
    total_steps = e.total_steps;
    steps = map some e.steps;
    failure_reason = reason;
    finished_at = some now;
  }
  ingest_sse now (aborted e) s = record s {
    state = transition s.state ExecutionState.aborted;
    cursor = e.total_steps;
    total_steps = e.total_steps;
    steps = map some e.steps;
    finished_at = some now;
  }
