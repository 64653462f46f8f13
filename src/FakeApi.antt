-- ===== src/FakeApi.antt =====
-- The mock server of executions, web/src/mocks/fakeApi/executionsFakeApi.ts, and the input that the
-- dialog of web/src/pages/executions/buildStartExecutionInput.ts sends it, which is here.
-- The state is the array of executions; `trim` of the platform, the clock's reading and the
-- scenario of the fixtures are arguments. A request's id is taken from its address before; a peer's name is not kept.
pub mod Checks
pub mod Start
pub mod Rows
pub mod Accepted
pub mod Moves
pub mod Started
use ocs_testbench.Common.{
  ℕ, zero, suc, ◌+◌, ◌-◌, ◌*◌, ◌%◌, min, max, String, Bool, true, false, not, ◌&&◌, ◌||◌, List, [],
  ◌∷◌, ◌++◌, Option, none, some, map, length, get_elem?, filter_by, take, drop, ltb, ◌==◌, str_eq,
  opt_is, truthy, or_else, if◌then◌else◌,
}
use ocs_testbench.Common.Objects.{insert}
use ocs_testbench.Common.Text.{◌⧺◌, number_text}
use ocs_testbench.Execution.{
  ExecutionState, ExecutionMode, interactive, continuous, ExecutionSummary,
}
use ocs_testbench.Debugger.Store.{same_state}
use ocs_testbench.Live.{ListExecutionsParams, PageMeta}

-- A number that a `NumberInput` of the dialog or a request can hold: whole, or a fraction just above the
-- given whole number. One below 0 is not modelled; the clamping takes it to 1, like 0.
pub data RunNumber : Type 0 where
  whole fraction : ℕ → RunNumber

pub record StartRunFormState : Type 0 where
  pub scenario_id : String
  pub mode : ExecutionMode
  pub peer_id : Option String
  pub subscriber_id : Option String
  pub concurrency : RunNumber
  pub repeats : RunNumber

pub record RunOverrides : Type 0 where
  pub peer_id : Option String
  pub subscriber_ids : Option (List String)

pub record StartExecutionInput : Type 0 where
  pub scenario_id : String
  pub mode : ExecutionMode
  pub concurrency : RunNumber
  pub repeats : RunNumber
  pub overrides : Option RunOverrides

abbrev pub same_mode : ExecutionMode → ExecutionMode → Bool
same_mode interactive interactive = true
same_mode continuous continuous = true
same_mode a b = false

-- A text that is truthy, as a field that may be left out.
abbrev pub given : Option String → Option String
given o = if truthy o then o else none

abbrev pub given_list : Option String → Option (List String)
given_list none = none
given_list (some s) = if truthy (some s) then some (s ∷ []) else none

abbrev pub overrides_of : Option String → Option String → Option RunOverrides
overrides_of peer_id subscriber_id =
    if truthy peer_id || truthy subscriber_id
    then some (record { peer_id = given peer_id; subscriber_ids = given_list subscriber_id })
    else none

-- `Math.max(1, Math.min(top, n))`
abbrev pub clamp : (top : ℕ) → RunNumber → RunNumber
clamp top (whole n) = whole (max 1 (min top n))
clamp top (fraction n) =
    if ltb n 1 then whole 1 else (if ltb n top then fraction n else whole (max 1 top))

unfoldable pub build_start_execution_input : StartRunFormState → StartExecutionInput
build_start_execution_input form =
    let is_interactive = same_mode form.mode interactive in
    record {
      scenario_id = form.scenario_id;
      mode = form.mode;
      concurrency = if is_interactive then whole 1 else clamp 10 form.concurrency;
      repeats = if is_interactive then whole 1 else clamp 1000 form.repeats;
      overrides = overrides_of form.peer_id form.subscriber_id;
    }
