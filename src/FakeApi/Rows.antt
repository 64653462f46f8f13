-- ===== src/FakeApi/Rows.antt =====
-- executionsFakeApi.ts: the handlers that read and change the rows.
use ocs_testbench.Common.{
  ℕ, min, max, String, Bool, true, false, not, ◌&&◌, ◌||◌, List, [], ◌∷◌, Option, none, some,
  length, filter_by, take, drop, str_eq, opt_is, truthy, or_else, if◌then◌else◌,
}
use ocs_testbench.Execution.{ExecutionState, ExecutionSummary}
use ocs_testbench.Debugger.Store.{same_state}
use ocs_testbench.Live.{ListExecutionsParams, PageMeta}

abbrev state_matches : Option ExecutionState → ExecutionState → Bool
state_matches none state = true
state_matches (some wanted) state = same_state state wanted

-- `if (filter && value !== filter) return false`
abbrev text_matches : Option String → Option String → Bool
text_matches none value = true
text_matches (some wanted) value = not (truthy (some wanted)) || opt_is value wanted

unfoldable pub matches : ListExecutionsParams → ExecutionSummary → Bool
matches params e =
    state_matches params.state e.state
    && text_matches params.scenario_id (some e.scenario_id)
    && text_matches params.peer_id e.peer_id
    && text_matches params.batch_id e.batch_id

abbrev pub limit_of : ListExecutionsParams → ℕ
limit_of params = min 500 (max 1 (or_else params.limit 50))

-- The answer to `GET /executions`.
unfoldable pub list_executions :
    ListExecutionsParams → List ExecutionSummary → List ExecutionSummary × PageMeta
unfolding matches
list_executions params executions =
    let filtered = filter_by (matches params) executions in
    let limit = limit_of params in
    let offset = or_else params.offset 0 in
    (
      take limit (drop offset filtered),
      record { total = length filtered; limit = limit; offset = offset },
    )

-- `executions[idx] = f(executions[idx])` at the first execution of the id, and whether it is there.
unfoldable pub update_first :
    (ExecutionSummary → ExecutionSummary)
    → String
    → List ExecutionSummary
    → List ExecutionSummary × Bool
update_first f id [] = ([], false)
update_first f id (e ∷ es) =
    let (rest, found) = update_first f id es in
    if str_eq e.id id then (f e ∷ es, true) else (e ∷ rest, found)

abbrev or_now : Option ℕ → ℕ → Option ℕ
or_now none now = some now
or_now (some t) now = some t

abbrev pub aborted_at : ℕ → ExecutionSummary → ExecutionSummary
aborted_at now e = record e {
  state = ExecutionState.aborted;
  finished_at = or_now e.finished_at now;
}

-- Also the status of the answer.
unfoldable pub abort_execution :
    (now : ℕ) → String → List ExecutionSummary → List ExecutionSummary × ℕ
unfolding update_first
abort_execution now id executions =
    let (next, found) = update_first (aborted_at now) id executions in
    if found then (next, 204) else (executions, 404)

pub data Action : Type 0 where
  pause resume step skip : Action

abbrev pub next_state : Action → ExecutionState → ExecutionState
next_state pause ExecutionState.running = ExecutionState.paused
next_state resume ExecutionState.paused = ExecutionState.running
next_state action state = state

unfoldable pub transition_action :
    Action → String → List ExecutionSummary → List ExecutionSummary × ℕ
unfolding update_first
transition_action action id executions =
    let (next, found) =
      update_first (λ e. record e { state = next_state action e.state }) id executions in
    if found then (next, 204) else (executions, 200)
