-- ===== src/FakeApi/Start.antt =====
-- executionsFakeApi.ts: the handlers that start runs.
use ocs_testbench.Common.{
  ℕ, zero, suc, ◌+◌, ◌*◌, ◌%◌, max, String, Bool, false, List, [], ◌∷◌, Option, none, some, length,
  get_elem?, ltb, str_eq, or_else, if◌then◌else◌,
}
use ocs_testbench.Common.Text.{◌⧺◌, number_text}
use ocs_testbench.Execution.{ExecutionState, continuous, ExecutionSummary}
use ocs_testbench.FakeApi.Checks.{FieldErrors, StartBody, as_input, validate_start}
use ocs_testbench.FakeApi.{
  RunNumber, whole, fraction, RunOverrides, StartExecutionInput, same_mode, given, overrides_of,
}

-- A scenario of the fixtures, as far as a run takes it over.
pub record ScenarioFixture : Type 0 where
  pub name : String
  pub peer_id : Option String
  pub subscriber_id : Option String

abbrev or_other : Option String → Option String → Option String
or_other none other = other
or_other (some s) other = some s

abbrev fixture_peer : Option ScenarioFixture → Option String
fixture_peer none = none
fixture_peer (some s) = s.peer_id

abbrev fixture_subscriber : Option ScenarioFixture → Option String
fixture_subscriber none = none
fixture_subscriber (some s) = s.subscriber_id

abbrev fixture_name : Option ScenarioFixture → String → String
fixture_name none id = id
fixture_name (some s) id = s.name

abbrev override_peer : Option RunOverrides → Option String
override_peer none = none
override_peer (some o) = o.peer_id

abbrev pick_subscriber : Option (List String) → ℕ → Option String
pick_subscriber none index = none
pick_subscriber (some ids) index = get_elem? ids (index % max 1 (length ids))

abbrev override_subscriber : Option RunOverrides → ℕ → Option String
override_subscriber none index = none
override_subscriber (some o) index = pick_subscriber o.subscriber_ids index

unfoldable pub make_execution :
    (now : ℕ) → Option ScenarioFixture → StartExecutionInput → (index : ℕ) → ExecutionSummary
make_execution now scenario input index = record {
  id = "exec-" ⧺ number_text now ⧺ "-" ⧺ number_text index;
  scenario_id = input.scenario_id;
  scenario_name = fixture_name scenario input.scenario_id;
  mode = input.mode;
  peer_id = given (or_other (override_peer input.overrides) (fixture_peer scenario));
  subscriber_id =
      given (or_other (override_subscriber input.overrides index) (fixture_subscriber scenario));
  batch_id = none;
  state = ExecutionState.running;
  started_at = now;
  finished_at = none;
}

-- The loop over the indices, from `index` on.
unfoldable pub make_items :
    (now : ℕ)
    → Option ScenarioFixture
    → StartExecutionInput
    → (index count : ℕ) → List ExecutionSummary
unfolding make_execution
make_items now scenario input index zero = []
make_items now scenario input index (suc count) =
    make_execution now scenario input index ∷ make_items now scenario input (index + 1) count

-- `for (const it of items) executions.unshift(it)`
abbrev pub unshift_all : List ExecutionSummary → List ExecutionSummary → List ExecutionSummary
unshift_all [] executions = executions
unshift_all (i ∷ items) executions = unshift_all items (i ∷ executions)

-- The whole number. The validation and the reruns let no fraction get here.
abbrev pub times : RunNumber → ℕ
times (whole n) = n
times (fraction n) = n + 1

abbrev pub total_runs : StartExecutionInput → ℕ
total_runs input =
    if same_mode input.mode continuous
    then max 1 (times input.concurrency) * max 1 (times input.repeats)
    else 1

pub record StartExecutionResult : Type 0 where
  pub batch_id : Option String
  pub items : List ExecutionSummary

unfoldable pub start_new :
    (now : ℕ)
    → Option ScenarioFixture
    → StartExecutionInput
    → List ExecutionSummary
    → List ExecutionSummary × StartExecutionResult
unfolding make_items
start_new now scenario input executions =
    let total = total_runs input in
    let items = make_items now scenario input 0 total in
    (
      unshift_all items executions,
      record {
        batch_id = if ltb 1 total then some ("batch-" ⧺ number_text now) else none;
        items = items;
      },
    )

-- The input of a rerun.
unfoldable pub rerun_input : ExecutionSummary → StartExecutionInput
rerun_input source = record {
  scenario_id = source.scenario_id;
  mode = source.mode;
  concurrency = whole 1;
  repeats = whole 1;
  overrides = overrides_of source.peer_id source.subscriber_id;
}

pub data Reply : Type 0 where
  created : StartExecutionResult → Reply
  unparsable : Reply
  forced_failure : (scenario_id : String) → Reply
  validation_problem : FieldErrors → Reply
  not_found : (id : String) → Reply

-- The first execution of the id.
abbrev find_execution : String → List ExecutionSummary → Option ExecutionSummary
find_execution id [] = none
find_execution id (e ∷ es) =
    let rest = find_execution id es in if str_eq e.id id then some e else rest

-- `forced` tells the scenario ids that begin with the prefix of forced failures, `fixture` is the
-- search in the fixtures.
module _ (trim : String → String) (forced : String → Bool)
    (fixture : String → Option ScenarioFixture) where
  abbrev pub start_reply :
      (now : ℕ) → StartExecutionInput → List ExecutionSummary → List ExecutionSummary × Reply
  unfolding start_new
  start_reply now input executions =
      let (next, result) = start_new now (fixture input.scenario_id) input executions in
      (next, created result)

  abbrev pub checked_reply :
      FieldErrors
      → (now : ℕ) → StartExecutionInput
      → List ExecutionSummary
      → List ExecutionSummary × Reply
  checked_reply [] now input executions = start_reply now input executions
  checked_reply (e ∷ es) now input executions = (executions, validation_problem (e ∷ es))

  -- `input.scenarioId?.startsWith(…)`
  abbrev pub forced_id : Option String → Bool
  forced_id none = false
  forced_id (some id) = forced id

  -- `POST /executions`, of the body that was parsed, if it was.
  unfoldable pub post_execution :
      (now : ℕ) → Option StartBody → List ExecutionSummary → List ExecutionSummary × Reply
  unfolding validate_start start_reply
  post_execution now none executions = (executions, unparsable)
  post_execution now (some body) executions =
      if forced_id body.scenario_id
      then (executions, forced_failure (or_else body.scenario_id ""))
      else checked_reply (validate_start trim body) now (as_input body) executions

  abbrev rerun_of :
      Option ExecutionSummary
      → (now : ℕ) → String
      → List ExecutionSummary
      → List ExecutionSummary × Reply
  unfolding rerun_input start_reply
  rerun_of none now id executions = (executions, not_found id)
  rerun_of (some source) now id executions =
      if forced source.scenario_id
      then (executions, forced_failure source.scenario_id)
      else start_reply now (rerun_input source) executions

  unfoldable pub rerun_execution :
      (now : ℕ) → String → List ExecutionSummary → List ExecutionSummary × Reply
  unfolding rerun_of
  rerun_execution now id executions = rerun_of (find_execution id executions) now id executions
