-- ===== src/Debugger/Export.antt =====
-- web/src/pages/debugger/exportRun.ts: the file that a run is exported to. The response of a
-- step's record is an argument; the names of the peer and the subscriber are not kept.
pub mod Totals
use ocs_testbench.Common.{
  ℕ, ◌+◌, String, Bool, true, false, List, [], ◌∷◌, Option, none, some, map, length, or_else,
  if◌then◌else◌,
}
use ocs_testbench.Common.Text.{◌⧺◌}
use ocs_testbench.Scenario.{VarValue}
use ocs_testbench.Execution.{
  ExecutionState, ExecutionMode, StepState, success, failure, error, skipped, StepRecord, Execution,
}

pub record ExportTotals : Type 0 where
  pub steps : ℕ
  pub passed : ℕ
  pub failed : ℕ
  pub skipped_steps : ℕ
  pub duration_ms : ℕ

pub record ExportExecution : Type 0 where
  pub id : String
  pub scenario_id : String
  pub scenario_name : String
  pub mode : ExecutionMode
  pub state : ExecutionState
  pub started_at : ℕ
  pub finished_at : Option ℕ

pub record ExportPayload {ℓ} (R : Type ℓ) : Type ℓ where
  pub export_version : ℕ
  pub execution : ExportExecution
  pub steps : List StepRecord
  pub responses : List (ℕ × Option R)
  pub extracted_variables : List (String × VarValue)
  pub totals : ExportTotals

abbrev pub is_passed : StepState → ℕ
is_passed StepState.success = 1
is_passed s = 0

abbrev pub is_failed : StepState → ℕ
is_failed StepState.failure = 1
is_failed StepState.error = 1
is_failed s = 0

abbrev pub is_skipped : StepState → ℕ
is_skipped StepState.skipped = 1
is_skipped s = 0

-- The body of the loop of `computeTotals`, and the loop, on the counts so far.
abbrev pub count_step : ExportTotals → StepRecord → ExportTotals
count_step t s = record t {
  passed = t.passed + is_passed s.state;
  failed = t.failed + is_failed s.state;
  skipped_steps = t.skipped_steps + is_skipped s.state;
  duration_ms = t.duration_ms + or_else s.duration_ms 0;
}

unfoldable pub totals_from : ExportTotals → List StepRecord → ExportTotals
totals_from t [] = t
totals_from t (s ∷ steps) = totals_from (count_step t s) steps

unfoldable pub compute_totals : List StepRecord → ExportTotals
unfolding totals_from
compute_totals steps =
    totals_from
      (record { steps = length steps; passed = 0; failed = 0; skipped_steps = 0; duration_ms = 0 })
      steps

unfoldable pub build_export_payload {ℓ} :
    {R : Type ℓ} → (response : StepRecord → Option R) → Execution → ExportPayload R
unfolding compute_totals
build_export_payload response execution = record {
  export_version = 1;
  execution = record {
    id = execution.id;
    scenario_id = execution.scenario_id;
    scenario_name = execution.scenario_name;
    mode = execution.mode;
    state = execution.state;
    started_at = execution.started_at;
    finished_at = execution.finished_at;
  };
  steps = execution.steps;
  responses = map (λ s. (s.n, response s)) execution.steps;
  extracted_variables = execution.context.extracted;
  totals = compute_totals execution.steps;
}

unfoldable pub export_filename : String → String
export_filename execution_id = "execution-" ⧺ execution_id ⧺ ".json"
