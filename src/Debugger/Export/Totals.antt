-- ===== src/Debugger/Export/Totals.antt =====
-- What the totals of an export say.
use ocs_testbench.Common.{
  ℕ, ◌+◌, ◌*◌, ◌≡◌, refl, List, [], ◌∷◌, length, arith, if_either, ◌&&◌, ◌==◌, ◌-◌,
}
use ocs_testbench.Execution.{StepState, StepRecord}
use ocs_testbench.Scenario.{ScenarioStep}
use ocs_testbench.Feed.{
  BuildPlanInput, records_from, completed_steps, build_step_record, is_failure,
}
use ocs_testbench.Debugger.Export.{
  ExportTotals, totals_from, compute_totals, count_step, is_passed, is_failed, is_skipped,
}

abbrev is_open : StepState → ℕ
is_open StepState.pending = 1
is_open StepState.running = 1
is_open s = 0

-- The steps that have not ended.
abbrev pub open_steps : List StepRecord → ℕ
open_steps [] = 0
open_steps (s ∷ steps) = is_open s.state + open_steps steps

counted_once : (s : StepState) → is_passed s + (is_failed s + (is_skipped s + is_open s)) ≡ 1
counted_once StepState.pending = omega arith
counted_once StepState.running = omega arith
counted_once StepState.success = omega arith
counted_once StepState.failure = omega arith
counted_once StepState.error = omega arith
counted_once StepState.skipped = omega arith

totals_from-partition :
    (t : ExportTotals) (steps : List StepRecord)
    → let r : ExportTotals = totals_from t steps in
      r.passed + (r.failed + (r.skipped_steps + open_steps steps))
      ≡ t.passed + (t.failed + (t.skipped_steps + length steps))
unfolding totals_from
totals_from-partition t [] = refl
totals_from-partition t (s ∷ steps) =
    omega (arith, totals_from-partition (count_step t s) steps, counted_once s.state)

totals_from-steps :
    (t : ExportTotals) (steps : List StepRecord) → (totals_from t steps).steps ≡ t.steps
unfolding totals_from
totals_from-steps t [] = refl
totals_from-steps t (s ∷ steps) = totals_from-steps (count_step t s) steps

-- The totals of an export count every step once: as passed, failed or skipped, or it has not ended
-- yet.
pub compute_totals-partition :
    (steps : List StepRecord)
    → let r : ExportTotals = compute_totals steps in
      r.passed + (r.failed + (r.skipped_steps + open_steps steps)) ≡ r.steps
unfolding compute_totals
compute_totals-partition steps =
    let zeros : ExportTotals = record {
      steps = length steps;
      passed = 0;
      failed = 0;
      skipped_steps = 0;
      duration_ms = 0;
    } in
    omega (arith, totals_from-partition zeros steps, totals_from-steps zeros steps)

record_ended :
    (input : BuildPlanInput) (i : ℕ) (x : ScenarioStep)
    → is_open (build_step_record input i x).state ≡ 0
record_ended input i x =
    if_either (λ s. is_open s ≡ 0)
      (is_failure input.outcome && (i == length input.scenario.steps - 1)) StepState.failure
      StepState.success (λ e. refl) (λ e. refl)

totals_from-duration_ms :
    (t : ExportTotals) (input : BuildPlanInput) (i : ℕ) (xs : List ScenarioStep)
    → let r : ExportTotals = totals_from t (records_from input i xs) in
      (r.duration_ms ≡ t.duration_ms + length xs * input.tick_ms)
      × (open_steps (records_from input i xs) ≡ 0)
unfolding totals_from records_from
totals_from-duration_ms t input i [] = (omega arith, refl)
totals_from-duration_ms t input i (x ∷ xs) =
    let (time, ended) =
      totals_from-duration_ms (count_step t (build_step_record input i x)) input (i + 1) xs in
    (omega (arith, time), omega (arith, ended, record_ended input i x))

-- A played run is exported with no open step, and with one tick of time for each of its steps.
pub compute_totals-completed_steps :
    (input : BuildPlanInput)
    → let r : ExportTotals = compute_totals (completed_steps input) in
      (r.duration_ms ≡ length input.scenario.steps * input.tick_ms)
      × (open_steps (completed_steps input) ≡ 0)
unfolding compute_totals completed_steps
compute_totals-completed_steps input =
    let zeros : ExportTotals = record {
      steps = length (completed_steps input);
      passed = 0;
      failed = 0;
      skipped_steps = 0;
      duration_ms = 0;
    } in
    let (time, ended) = totals_from-duration_ms zeros input 0 input.scenario.steps in
    (omega (arith, time), ended)
