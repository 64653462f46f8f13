-- ===== src/FakeApi/Accepted.antt =====
-- buildStartExecutionInput.ts and executionsFakeApi.ts: what the dialog sends.
use ocs_testbench.Common.{
  ℕ, ◌≤◌, ◌≡◌, refl, Option, String, false, [], min, max, ltb, str_eq, arith, ◌||◌, if◌then◌else◌,
}
use ocs_testbench.Execution.{ExecutionMode, interactive, continuous}
use ocs_testbench.FakeApi.{
  StartRunFormState, whole, clamp, build_start_execution_input, same_mode, RunOverrides,
  overrides_of,
}
use ocs_testbench.FakeApi.Checks.{body_of, validate_start, report_if}

clamped : (top n : ℕ) → 1 ≤ top → (ltb (max 1 (min top n)) 1 || ltb top (max 1 (min top n))) ≡ false
clamped top n h = ground arith

sent :
    (trim : String → String) (id : String) (m : ExecutionMode) (c r : ℕ) (o : Option RunOverrides)
    → validate_start trim (
        body_of (record {
          scenario_id = id;
          mode = m;
          concurrency = if same_mode m interactive then whole 1 else clamp 10 (whole c);
          repeats = if same_mode m interactive then whole 1 else clamp 1000 (whole r);
          overrides = o;
        }))
      ≡ report_if (str_eq (trim id) "") "/scenarioId" "Scenario id is required" []
unfolding validate_start
sent trim id interactive c r o = refl
sent trim id continuous c r o = rw (clamped 10 c (omega arith), clamped 1000 r (omega arith)) refl

-- The server finds a fault in the input of the dialog exactly when no scenario is chosen, whatever
-- the mode, if the numbers in the form are whole.
pub validate_start-build_start_execution_input :
    (trim : String → String) (form : StartRunFormState) (c r : ℕ)
    → form.concurrency ≡ whole c
    → form.repeats ≡ whole r
    → validate_start trim (body_of (build_start_execution_input form))
      ≡ report_if (str_eq (trim form.scenario_id) "") "/scenarioId" "Scenario id is required" []
unfolding validate_start build_start_execution_input
validate_start-build_start_execution_input trim form c r ec er =
    rw (ec, er)
      (sent trim form.scenario_id form.mode c r (overrides_of form.peer_id form.subscriber_id))
