-- ===== src/Examples/Rows.antt =====
-- Rows of the executions page.
use mathlib.Core.List.{Memᴰ}
use ocs_testbench.Common.{ℕ, ◌≡◌, refl, String, List, [], ◌∷◌, All, none, length}
use ocs_testbench.Common.Objects.{lookup}
use ocs_testbench.Execution.{ExecutionState, ExecutionMode, ExecutionSummary}
use ocs_testbench.Executions.{
  count_by_status_filter, apply_table_filters, completed, select_latest_run_for_scenario,
  select_latest_from, last_run_by_scenario, start_of,
}
use ocs_testbench.Executions.Buckets.{counted, count_by_status_filter-length}
use ocs_testbench.Executions.Latest.{
  Outdone, select_latest_run_for_scenario_lem, last_run-select_latest,
}

abbrev row : String → ExecutionState → ℕ → ExecutionSummary
row scenario_id state started_at = record {
  id = "1";
  scenario_id = scenario_id;
  scenario_name = "Voice call";
  mode = ExecutionMode.interactive;
  peer_id = none;
  subscriber_id = none;
  batch_id = none;
  state = state;
  started_at = started_at;
  finished_at = none;
}

abbrev newest : ExecutionSummary
newest = row "a" ExecutionState.aborted 9

abbrev rows : List ExecutionSummary
rows = row "a" ExecutionState.running 5 ∷ newest ∷ row "b" ExecutionState.success 7 ∷ []

select_latest_run_for_scenario_lem_example :
    Memᴰ newest rows × (newest.scenario_id ≡ "a") × All (Outdone "a" newest) rows
unfolding select_latest_run_for_scenario select_latest_from
select_latest_run_for_scenario_lem_example = select_latest_run_for_scenario_lem rows "a" newest refl

last_run-select_latest_example :
    lookup "a" (last_run_by_scenario rows) ≡ start_of (select_latest_run_for_scenario rows "a")
last_run-select_latest_example = last_run-select_latest rows "a"

count_by_status_filter-length_example :
    counted completed (count_by_status_filter rows) ≡ length (apply_table_filters rows completed)
count_by_status_filter-length_example = count_by_status_filter-length completed rows
