-- ===== src/Feed.antt =====
-- web/src/mocks/sse/installExecutionSse.ts: the plan of events that the mock of one execution
-- plays. A record's assertion results are not modelled; an instant is a number of milliseconds.
pub mod Driver
pub mod Plays
pub mod Prefix
pub mod Sound
pub mod Fires
use ocs_testbench.Common.{
  ℕ, zero, suc, ◌+◌, ◌-◌, ◌*◌, String, Bool, true, false, ◌&&◌, List, [], ◌∷◌, ◌++◌, Option, none,
  some, length, if◌then◌else◌, ◌==◌, or_else,
}
use ocs_testbench.Scenario.{
  RequestType, initial, update, terminate, event_request, StepKind, request, consume, wait, pause,
  ScenarioStep, Scenario,
}
use ocs_testbench.Execution.{
  ExecutionState, ExecutionMode, interactive, continuous, StepState, StepRecord, Execution,
}
use ocs_testbench.Debugger.Store.{
  SseEventPayload, started, sending, responded, completed, failed, empty_context,
}

pub data Outcome : Type 0 where
  success failure aborted : Outcome

pub data DriverEvent : Type 0 where
  payload : SseEventPayload → DriverEvent
  batch_step : (execution_id : String) (n total : ℕ) → DriverEvent

pub record BuildPlanInput : Type 0 where
  pub execution_id : String
  pub scenario : Scenario
  pub mode : ExecutionMode
  pub outcome : Outcome
  pub started_at_ms : ℕ
  pub batch_total : ℕ
  pub tick_ms : ℕ

abbrev pub terminal_state : Outcome → ExecutionState
terminal_state Outcome.failure = ExecutionState.failure
terminal_state Outcome.aborted = ExecutionState.aborted
terminal_state Outcome.success = ExecutionState.success

-- The three states that `snapshotForState` gives an end.
abbrev has_end : ExecutionState → Bool
has_end ExecutionState.success = true
has_end ExecutionState.failure = true
has_end ExecutionState.aborted = true
has_end _ = false

abbrev pub snapshot_for_state : BuildPlanInput → ExecutionState → ℕ → List StepRecord → Execution
snapshot_for_state input state cursor steps = record {
  summary = record {
    id = input.execution_id;
    scenario_id = input.scenario.id;
    scenario_name = input.scenario.name;
    mode = input.mode;
    peer_id = none;
    subscriber_id = none;
    batch_id = none;
    state = state;
    started_at = input.started_at_ms;
    finished_at =
        if has_end state
        then some (input.started_at_ms + length input.scenario.steps * input.tick_ms * 2)
        else none;
  };
  current_step = cursor;
  total_steps = length input.scenario.steps;
  steps = steps;
  context = empty_context;
}

abbrev request_label : RequestType → String
request_label initial = "CCR-I"
request_label update = "CCR-U"
request_label terminate = "CCR-T"
request_label event_request = "CCR-E"

abbrev kind_text : StepKind → String
kind_text request = "request"
kind_text consume = "consume"
kind_text wait = "wait"
kind_text pause = "pause"

abbrev pub derive_label : ScenarioStep → Option RequestType → String
derive_label step (some r) = request_label r
derive_label step none = or_else step.label (kind_text step.kind)

abbrev pub request_type_of : StepKind → RequestType → Option RequestType
request_type_of request r = some r
request_type_of kind r = none

abbrev pub is_failure : Outcome → Bool
is_failure Outcome.failure = true
is_failure _ = false

-- The record of the step at index `i`, which is the item `step` of the scenario's steps.
abbrev pub build_step_record : BuildPlanInput → ℕ → ScenarioStep → StepRecord
build_step_record input i step =
    let started_at = input.started_at_ms + i * input.tick_ms * 2 in
    let is_terminal_fail = is_failure input.outcome && (i == length input.scenario.steps - 1) in
    let request_type = request_type_of step.kind step.request_type in
    record {
      n = i + 1;
      kind = step.kind;
      request_type = request_type;
      label = some (derive_label step request_type);
      state = if is_terminal_fail then StepState.failure else StepState.success;
      started_at = some started_at;
      finished_at = some (started_at + input.tick_ms);
      duration_ms = some input.tick_ms;
      error_detail = if is_terminal_fail then some "DIAMETER_UNABLE_TO_COMPLY (5012)" else none;
    }

-- The records of `steps`, the first of them at index `i`.
unfoldable pub records_from : BuildPlanInput → ℕ → List ScenarioStep → List StepRecord
records_from input i [] = []
records_from input i (x ∷ xs) = build_step_record input i x ∷ records_from input (i + 1) xs

unfoldable pub completed_steps : BuildPlanInput → List StepRecord
unfolding records_from
completed_steps input = records_from input 0 input.scenario.steps

-- The loop of batch steps: `count` of them, from number `n`.
unfoldable pub batch_steps : BuildPlanInput → (n count : ℕ) → List DriverEvent
batch_steps input n zero = []
batch_steps input n (suc count) =
    batch_step input.execution_id n input.batch_total ∷ batch_steps input (n + 1) count

-- The loop over the scenario's steps: what it pushes from index `i` on.
unfoldable pub step_events : BuildPlanInput → ℕ → List ScenarioStep → List DriverEvent
step_events input i [] = []
step_events input i (x ∷ xs) =
    payload (sending input.execution_id i)
    ∷ payload (responded input.execution_id (build_step_record input i x))
    ∷ step_events input (i + 1) xs

-- The last event of an interactive plan.
abbrev pub terminal_event : Outcome → BuildPlanInput → List StepRecord → SseEventPayload
terminal_event Outcome.failure input steps =
    failed (snapshot_for_state input ExecutionState.failure (length input.scenario.steps) steps)
      (some "Assertion failed (mock fixture)")
terminal_event Outcome.aborted input steps =
    SseEventPayload.aborted
      (snapshot_for_state input ExecutionState.aborted (length input.scenario.steps) steps)
terminal_event Outcome.success input steps =
    completed (snapshot_for_state input ExecutionState.success (length input.scenario.steps) steps)

abbrev pub leading : BuildPlanInput → DriverEvent
leading input = payload (started (snapshot_for_state input ExecutionState.running 0 []))

unfoldable pub plan_of : ExecutionMode → BuildPlanInput → List DriverEvent
unfolding completed_steps batch_steps step_events
plan_of continuous input =
    batch_steps input 1 input.batch_total
    ++ payload (
        completed (
          snapshot_for_state input (terminal_state input.outcome) (length input.scenario.steps)
            (completed_steps input)))
      ∷ []
plan_of interactive input =
    step_events input 0 input.scenario.steps
    ++ payload (terminal_event input.outcome input (completed_steps input)) ∷ []

unfoldable pub build_plan : BuildPlanInput → List DriverEvent
unfolding plan_of
build_plan input = leading input ∷ plan_of input.mode input
