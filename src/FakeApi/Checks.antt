-- ===== src/FakeApi/Checks.antt =====
-- executionsFakeApi.ts: what the server finds wrong with the body of a start.
use ocs_testbench.Common.{
  ℕ, String, Bool, true, false, ◌&&◌, ◌||◌, List, [], Option, none, some, ltb, str_eq, or_else,
}
use ocs_testbench.Common.Objects.{insert}
use ocs_testbench.Execution.{ExecutionMode, interactive}
use ocs_testbench.FakeApi.{RunNumber, whole, fraction, RunOverrides, StartExecutionInput, same_mode}

abbrev pub FieldErrors : Type 0
FieldErrors = List (String × String)

-- `errors[key] = [text]` under a test.
abbrev pub report_if : Bool → String → String → FieldErrors → FieldErrors
report_if true key message errors = insert key message errors
report_if false key message errors = errors

-- The parsed body, a `Partial<StartExecutionInput>`. `none` stands for a field that is missing or has a
-- value of another kind.
pub record StartBody : Type 0 where
  pub scenario_id : Option String
  pub mode : Option ExecutionMode
  pub concurrency : Option RunNumber
  pub repeats : Option RunNumber
  pub overrides : Option RunOverrides

-- The body that the client sends.
abbrev pub body_of : StartExecutionInput → StartBody
body_of input = record {
  scenario_id = some input.scenario_id;
  mode = some input.mode;
  concurrency = some input.concurrency;
  repeats = some input.repeats;
  overrides = input.overrides;
}

-- `input as StartExecutionInput`, after the validation, which refuses a body without these fields.
abbrev pub as_input : StartBody → StartExecutionInput
as_input body = record {
  scenario_id = or_else body.scenario_id "";
  mode = or_else body.mode interactive;
  concurrency = or_else body.concurrency (whole 1);
  repeats = or_else body.repeats (whole 1);
  overrides = body.overrides;
}

abbrev pub check_number :
    (top : ℕ) → (key required out : String) → Option RunNumber → FieldErrors → FieldErrors
check_number top key required out (some (whole n)) errors =
    report_if (ltb n 1 || ltb top n) key out errors
check_number top key required out n errors = report_if true key required errors

abbrev pub lacks_id : (trim : String → String) → Option String → Bool
lacks_id trim none = true
lacks_id trim (some id) = str_eq (trim id) ""

abbrev pub lacks_mode : Option ExecutionMode → Bool
lacks_mode none = true
lacks_mode (some mode) = false

abbrev pub is_interactive : Option ExecutionMode → Bool
is_interactive none = false
is_interactive (some mode) = same_mode mode interactive

-- `typeof n === 'number' && n > 1`
abbrev pub exceeds_one : Option RunNumber → Bool
exceeds_one none = false
exceeds_one (some (whole n)) = ltb 1 n
exceeds_one (some (fraction n)) = ltb 0 n

-- What `validateStart` finds; no errors stand for its `null`.
unfoldable pub validate_start : (trim : String → String) → StartBody → FieldErrors
validate_start trim input =
    report_if
      (is_interactive input.mode && (exceeds_one input.concurrency || exceeds_one input.repeats))
      "/mode" "Interactive mode requires concurrency = 1 and repeats = 1"
      (check_number 1000 "/repeats" "Repeats is required" "Repeats must be between 1 and 1000"
        input.repeats
        (check_number 10 "/concurrency" "Concurrency is required"
          "Concurrency must be between 1 and 10" input.concurrency
          (report_if (lacks_mode input.mode) "/mode"
            "Mode must be \"interactive\" or \"continuous\""
            (report_if (lacks_id trim input.scenario_id) "/scenarioId" "Scenario id is required"
              []))))
