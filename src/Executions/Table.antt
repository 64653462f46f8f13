-- ===== src/Executions/Table.antt =====
-- web/src/pages/executions/runTableHelpers.ts: the groups of batches, and the texts of the run
-- table. An instant is a number, so every end is a time. The iterations of a standalone run are
-- arguments, since no other part reads them. The sort of the table uses the platform's collation.
use ocs_testbench.Common.{
  ℕ, ◌-◌, ◌/◌, ◌%◌, String, List, [], ◌∷◌, ◌++◌, Option, none, some, length, filter_by, ltb,
  or_else, truthy, if◌then◌else◌,
}
use ocs_testbench.Common.Objects.{lookup, insert}
use ocs_testbench.Common.Text.{◌⧺◌, number_text}
use ocs_testbench.Execution.{
  ExecutionState, ExecutionMode, interactive, continuous, ExecutionSummary,
}
use ocs_testbench.Debugger.Store.{is_terminal}

unfoldable pub add_to :
    Option String
    → ExecutionSummary
    → List (String × List ExecutionSummary)
    → List (String × List ExecutionSummary)
unfolding lookup insert
add_to none r groups = groups
add_to (some id) r groups =
    if truthy (some id) then insert id (or_else (lookup id groups) [] ++ r ∷ []) groups else groups

-- The loop of `groupByBatch`, on the map so far.
unfoldable pub group_from :
    List (String × List ExecutionSummary)
    → List ExecutionSummary
    → List (String × List ExecutionSummary)
unfolding add_to
group_from groups [] = groups
group_from groups (r ∷ rows) = group_from (add_to r.batch_id r groups) rows

unfoldable pub group_by_batch : List ExecutionSummary → List (String × List ExecutionSummary)
unfolding group_from
group_by_batch rows = group_from [] rows

abbrev pub terminal_runs : List ExecutionSummary → ℕ
terminal_runs rows = length (filter_by (λ s. is_terminal s.state) rows)

abbrev pub batch_progress : List ExecutionSummary → String
batch_progress siblings =
    number_text (terminal_runs siblings) ⧺ " / " ⧺ number_text (length siblings)

abbrev standalone_progress : ExecutionState → Option ℕ → Option ℕ → String
standalone_progress state repeats completed_iterations =
    let total = or_else repeats 1 in
    let done = or_else completed_iterations (if is_terminal state then total else 0) in
    number_text done ⧺ " / " ⧺ number_text total

abbrev progress_of :
    ExecutionMode
    → Option String
    → ExecutionState
    → Option ℕ
    → Option ℕ
    → List (String × List ExecutionSummary)
    → String
unfolding lookup
progress_of interactive batch_id state repeats completed_iterations runs_by_batch = "—"
progress_of continuous none state repeats completed_iterations runs_by_batch =
    standalone_progress state repeats completed_iterations
progress_of continuous (some id) state repeats completed_iterations runs_by_batch =
    if truthy (some id)
    then batch_progress (or_else (lookup id runs_by_batch) [])
    else standalone_progress state repeats completed_iterations

unfoldable pub format_progress :
    (repeats completed_iterations : Option ℕ)
    → ExecutionSummary
    → List (String × List ExecutionSummary)
    → String
unfolding progress_of
format_progress repeats completed_iterations row runs_by_batch =
    progress_of row.mode row.batch_id row.state repeats completed_iterations runs_by_batch

abbrev two_digits : ℕ → String
two_digits n = if ltb n 10 then "0" ⧺ number_text n else number_text n

abbrev duration_of : ℕ → Option ℕ → String
duration_of started none = "–"
duration_of started (some finished) =
    if ltb finished started
    then "–"
    else (let total_sec = (finished - started) / 1000 in
        number_text (total_sec / 60) ⧺ ":" ⧺ two_digits (total_sec % 60))

unfoldable pub format_duration : ExecutionSummary → String
format_duration row = duration_of row.started_at row.finished_at
