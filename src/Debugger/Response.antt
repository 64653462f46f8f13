-- ===== src/Debugger/Response.antt =====
-- web/src/pages/debugger/lastResponseLogic.ts and progressPaneLogic.ts: which step's response is
-- shown, and what a click on a row of the progress pane does.
pub mod Shown
use ocs_testbench.Common.{
  ℕ, zero, suc, ◌+◌, Bool, true, false, ◌&&◌, List, [], ◌∷◌, Option, none, some, min, length,
  get_elem?, if◌then◌else◌,
}
use ocs_testbench.Execution.{ExecutionState, StepState, StepRecord}
use ocs_testbench.Debugger.Store.{is_completed}

-- `steps[i]`, which is `undefined` past the end and in a hole.
abbrev pub record_in : Option (Option StepRecord) → Option StepRecord
record_in none = none
record_in (some r) = r

abbrev pub record_at : List (Option StepRecord) → ℕ → Option StepRecord
record_at steps i = record_in (get_elem? steps i)

abbrev pub is_step_completed : Option StepRecord → Bool
is_step_completed none = false
is_step_completed (some r) = is_completed r.state

-- The loop of `lastCompletedStep`, on the places below `k`.
unfoldable pub last_completed_down : List (Option StepRecord) → ℕ → Option StepRecord
last_completed_down steps zero = none
last_completed_down steps (suc i) =
    let below = last_completed_down steps i in
    if is_step_completed (record_at steps i) then record_at steps i else below

unfoldable pub last_completed_step : List (Option StepRecord) → ℕ → Option StepRecord
unfolding last_completed_down
last_completed_step steps cursor = last_completed_down steps (min cursor (length steps))

abbrev pub pick_candidate : Option StepRecord → Option StepRecord → Option StepRecord
pick_candidate none last = last
pick_candidate (some cand) last = some cand

abbrev pub historical_record : List (Option StepRecord) → Option ℕ → Option StepRecord
historical_record steps none = none
historical_record steps (some i) = record_at steps i

unfoldable pub pick_displayed_step : List (Option StepRecord) → ℕ → Option ℕ → Option StepRecord
unfolding last_completed_step
pick_displayed_step steps cursor historical =
    pick_candidate (historical_record steps historical) (last_completed_step steps cursor)

-- The index that a click shows, or nothing.
unfoldable pub click_action : Option StepRecord → ℕ → Option ℕ
click_action r i = if is_step_completed r then some i else none

pub data StepRowState : Type 0 where
  row_success row_failure row_error row_skipped row_running row_paused row_pending : StepRowState

abbrev is_paused_run : ExecutionState → Bool
is_paused_run ExecutionState.paused = true
is_paused_run s = false

abbrev row_of_state : StepState → Bool → StepRowState
row_of_state StepState.success held = row_success
row_of_state StepState.failure held = row_failure
row_of_state StepState.error held = row_error
row_of_state StepState.skipped held = row_skipped
row_of_state StepState.running held = if held then row_paused else row_running
row_of_state StepState.pending held = if held then row_paused else row_pending

unfoldable pub compute_row_state : Option StepRecord → Bool → ExecutionState → StepRowState
compute_row_state none is_cursor run =
    if is_cursor && is_paused_run run then row_paused else row_pending
compute_row_state (some r) is_cursor run = row_of_state r.state (is_cursor && is_paused_run run)
