-- ===== src/Examples/Runs.antt =====
-- A batch that is started from the dialog.
use ocs_testbench.Common.{refl, String, Bool, false, List, [], ◌∷◌, Option, none, some}
use ocs_testbench.Execution.{ExecutionState, ExecutionMode, ExecutionSummary}
use ocs_testbench.FakeApi.{StartRunFormState, whole, build_start_execution_input}
use ocs_testbench.FakeApi.Checks.{body_of}
use ocs_testbench.FakeApi.Start.{ScenarioFixture, post_execution}
use ocs_testbench.FakeApi.Started.{IsAnswered, post_execution-build_start_execution_input}
use ocs_testbench.Examples.Streams.{run}

abbrev batch : StartRunFormState
batch = record {
  scenario_id = "3";
  mode = ExecutionMode.continuous;
  peer_id = none;
  subscriber_id = some "s1";
  concurrency = whole 2;
  repeats = whole 3;
}

abbrev untrimmed : String → String
untrimmed s = s

abbrev none_forced : String → Bool
none_forced id = false

abbrev no_fixture : String → Option ScenarioFixture
no_fixture id = none

abbrev rows : List ExecutionSummary
rows = run "1" ExecutionState.running ∷ run "2" ExecutionState.success ∷ []

post_execution-build_start_execution_input_example : IsAnswered batch 6 rows (
    post_execution untrimmed none_forced no_fixture 5
      (some (body_of (build_start_execution_input batch)))
      rows)
post_execution-build_start_execution_input_example =
    post_execution-build_start_execution_input untrimmed none_forced no_fixture 5 batch 2 3 rows
      refl refl refl refl
