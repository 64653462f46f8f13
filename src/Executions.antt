-- ===== src/Executions.antt =====
-- web/src/pages/executions/selectors.ts: the rows of the executions page.
pub mod Buckets
pub mod Latest
pub mod Table
use ocs_testbench.Common.{
  ℕ, suc, ◌+◌, String, Bool, true, false, ◌&&◌, ◌||◌, List, [], ◌∷◌, Option, none, some, length,
  ltb, or_else, truthy, filter_by, str_eq, if◌then◌else◌,
}
use ocs_testbench.Common.Objects.{lookup, insert}
use ocs_testbench.Execution.{ExecutionState, ExecutionSummary}

-- The scenario rows of the list, of which the client reads the id and the name.
pub record ScenarioRow : Type 0 where
  pub id : String
  pub name : String

unfoldable pub find_row : List ScenarioRow → String → Option ScenarioRow
find_row [] id = none
find_row (r ∷ rows) id = if str_eq r.id id then some r else find_row rows id

abbrev header_of : Option String → List ScenarioRow → Option ScenarioRow
header_of none rows = none
header_of (some id) rows = if truthy (some id) then find_row rows id else none

unfoldable pub select_scenario_for_header : List ScenarioRow → Option String → Option ScenarioRow
unfolding find_row
select_scenario_for_header rows id = header_of id rows

-- The loop of `countRunsByScenario`, on the map so far.
unfoldable pub count_runs_from : List (String × ℕ) → List ExecutionSummary → List (String × ℕ)
unfolding lookup insert
count_runs_from counts [] = counts
count_runs_from counts (e ∷ es) =
    count_runs_from (insert e.scenario_id (or_else (lookup e.scenario_id counts) 0 + 1) counts) es

unfoldable pub count_runs_by_scenario : List ExecutionSummary → List (String × ℕ)
unfolding count_runs_from
count_runs_by_scenario es = count_runs_from [] es

abbrev pub is_later : ℕ → Option ℕ → Bool
is_later t none = true
is_later t (some best) = ltb best t

-- The loop of `lastRunByScenario`. A start is a time: ISO texts of one form compare as times do.
unfoldable pub last_run_from : List (String × ℕ) → List ExecutionSummary → List (String × ℕ)
unfolding lookup insert
last_run_from last [] = last
last_run_from last (e ∷ es) =
    last_run_from
      (if is_later e.started_at (lookup e.scenario_id last)
        then insert e.scenario_id e.started_at last
        else last)
      es

unfoldable pub last_run_by_scenario : List ExecutionSummary → List (String × ℕ)
unfolding last_run_from
last_run_by_scenario es = last_run_from [] es

pub data StatusFilter : Type 0 where
  all_runs running completed failed : StatusFilter

unfoldable pub parse_status_filter : Option String → StatusFilter
parse_status_filter none = all_runs
parse_status_filter (some raw) =
    if str_eq raw "running"
    then running
    else if str_eq raw "completed"
    then completed
    else if str_eq raw "failed"
    then failed
    else all_runs

unfoldable pub status_filter_matches : StatusFilter → ExecutionState → Bool
status_filter_matches all_runs s = true
status_filter_matches running ExecutionState.running = true
status_filter_matches running ExecutionState.paused = true
status_filter_matches running ExecutionState.pending = true
status_filter_matches running s = false
status_filter_matches completed ExecutionState.success = true
status_filter_matches completed s = false
status_filter_matches failed ExecutionState.failure = true
status_filter_matches failed ExecutionState.error = true
status_filter_matches failed ExecutionState.aborted = true
status_filter_matches failed s = false

pub record StatusCounts : Type 0 where
  pub in_all : ℕ
  pub in_running : ℕ
  pub in_completed : ℕ
  pub in_failed : ℕ

abbrev pub plus_if : Bool → ℕ → ℕ
plus_if b n = if b then n + 1 else n

-- The loop of `countByStatusFilter`.
unfoldable pub count_status_from : StatusCounts → List ExecutionSummary → StatusCounts
unfolding status_filter_matches
count_status_from out [] = out
count_status_from out (e ∷ es) =
    count_status_from
      (record out {
        in_running = plus_if (status_filter_matches running e.state) out.in_running;
        in_completed = plus_if (status_filter_matches completed e.state) out.in_completed;
        in_failed = plus_if (status_filter_matches failed e.state) out.in_failed;
      })
      es

unfoldable pub count_by_status_filter : List ExecutionSummary → StatusCounts
unfolding count_status_from
count_by_status_filter es =
    count_status_from
      (record { in_all = length es; in_running = 0; in_completed = 0; in_failed = 0 }) es

unfoldable pub apply_table_filters : List ExecutionSummary → StatusFilter → List ExecutionSummary
unfolding status_filter_matches
apply_table_filters es status = filter_by (λ e. status_filter_matches status e.state) es

abbrev pub start_of : Option ExecutionSummary → Option ℕ
start_of none = none
start_of (some e) = some e.started_at

-- The loop of `selectLatestRunForScenario`.
unfoldable pub select_latest_from :
    Option ExecutionSummary → List ExecutionSummary → String → Option ExecutionSummary
select_latest_from best [] id = best
select_latest_from best (e ∷ es) id =
    select_latest_from
      (if str_eq e.scenario_id id && is_later e.started_at (start_of best) then some e else best) es
      id

unfoldable pub select_latest_run_for_scenario :
    List ExecutionSummary → String → Option ExecutionSummary
unfolding select_latest_from
select_latest_run_for_scenario es id = select_latest_from none es id
