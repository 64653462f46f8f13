-- ===== src/FakeApi/Started.antt =====
-- From the dialog to the rows of the server.
use ocs_testbench.Common.{
  ℕ, zero, suc, ◌+◌, ◌*◌, ◌≡◌, refl, sym, ap, ◌∙◌, subst, String, Bool, false, List, [], ◌∷◌,
  Option, some, length, All, min, max, str_eq, if◌then◌else◌, arith,
}
use ocs_testbench.Execution.{
  ExecutionState, ExecutionMode, interactive, continuous, ExecutionSummary,
}
use ocs_testbench.FakeApi.{
  StartRunFormState, StartExecutionInput, whole, clamp, overrides_of, RunOverrides,
  build_start_execution_input, same_mode,
}
use ocs_testbench.FakeApi.Checks.{body_of, validate_start, report_if}
use ocs_testbench.FakeApi.Start.{
  StartExecutionResult, ScenarioFixture, make_items, unshift_all, total_runs, Reply, created,
  forced_failure, start_reply, checked_reply, post_execution, start_new,
}
use ocs_testbench.FakeApi.Accepted.{validate_start-build_start_execution_input}

-- How many runs a form asks for.
abbrev pub wanted_runs : ExecutionMode → (concurrency repeats : ℕ) → ℕ
wanted_runs interactive c r = 1
wanted_runs continuous c r = max 1 (min 10 c) * max 1 (min 1000 r)

-- A run of the form's scenario that is under way.
abbrev pub IsStarted : StartRunFormState → ExecutionSummary → Type 0
IsStarted form e =
    (e.scenario_id ≡ form.scenario_id) × (e.mode ≡ form.mode) × (e.state ≡ ExecutionState.running)

length-unshift_all :
    (is es : List ExecutionSummary) → length (unshift_all is es) ≡ length is + length es
length-unshift_all [] es = omega arith
length-unshift_all (i ∷ is) es = omega (arith, length-unshift_all is (i ∷ es))

length-make_items :
    (now : ℕ) (s : Option ScenarioFixture) (input : StartExecutionInput) (i count : ℕ)
    → length (make_items now s input i count) ≡ count
unfolding make_items
length-make_items now s input i zero = refl
length-make_items now s input i (suc count) = ap suc (length-make_items now s input (i + 1) count)

make_items-IsStarted :
    (now : ℕ) (s : Option ScenarioFixture) (form : StartRunFormState) (i count : ℕ)
    → All (IsStarted form) (make_items now s (build_start_execution_input form) i count)
unfolding make_items build_start_execution_input
make_items-IsStarted now s form i zero = tt
make_items-IsStarted now s form i (suc count) =
    ((refl, refl, refl), make_items-IsStarted now s form (i + 1) count)

twice : (top n : ℕ) → max 1 (max 1 (min top n)) ≡ max 1 (min top n)
twice top n = omega arith

total_sent :
    (m : ExecutionMode) (id : String) (c r : ℕ) (o : Option RunOverrides)
    → total_runs (record {
      scenario_id = id;
      mode = m;
      concurrency = if same_mode m interactive then whole 1 else clamp 10 (whole c);
      repeats = if same_mode m interactive then whole 1 else clamp 1000 (whole r);
      overrides = o;
    })
      ≡ wanted_runs m c r
total_sent interactive id c r o = refl
total_sent continuous id c r o = rw (twice 10 c, twice 1000 r) refl

total_runs-build_start_execution_input :
    (form : StartRunFormState) (c r : ℕ)
    → form.concurrency ≡ whole c
    → form.repeats ≡ whole r
    → total_runs (build_start_execution_input form) ≡ wanted_runs form.mode c r
unfolding build_start_execution_input
total_runs-build_start_execution_input form c r ec er =
    rw (ec, er)
      (total_sent form.mode form.scenario_id c r (overrides_of form.peer_id form.subscriber_id))

-- The answer to a start, with the rows after it: so many runs of the form.
abbrev pub IsAnswered :
    StartRunFormState
    → (wanted : ℕ) → List ExecutionSummary
    → List ExecutionSummary × Reply
    → Type 0
IsAnswered form wanted executions answer =
    (result : StartExecutionResult) × (answer.1 ≡ created result)
    × (length result.items ≡ wanted)
    × All (IsStarted form) result.items
    × (length answer.0 ≡ wanted + length executions)

-- A run that is started from the dialog with a scenario chosen, whose id is not one of the forced
-- failures, and with whole numbers in the form, is created: the answer has as many runs as the form
-- asks for, within the bounds of its fields, all of the form's scenario and mode and running, and the
-- server's rows grow by as many.
pub post_execution-build_start_execution_input :
    (trim : String → String) (forced : String → Bool) (fixture : String → Option ScenarioFixture)
    (now : ℕ) (form : StartRunFormState) (c r : ℕ) (executions : List ExecutionSummary)
    → form.concurrency ≡ whole c
    → form.repeats ≡ whole r
    → str_eq (trim form.scenario_id) "" ≡ false
    → forced form.scenario_id ≡ false
    → IsAnswered form (wanted_runs form.mode c r) executions (
        post_execution trim forced fixture now
          (some (body_of (build_start_execution_input form)))
          executions)
unfolding post_execution start_new build_start_execution_input
post_execution-build_start_execution_input trim forced fixture now form c r executions ec er chosen
      free =
    let input = build_start_execution_input form in
    let total = total_runs input in
    let items = make_items now (fixture input.scenario_id) input 0 total in
    let sized : length items ≡ wanted_runs form.mode c r =
      length-make_items now (fixture input.scenario_id) input 0 total
      ∙ total_runs-build_start_execution_input form c r ec er in
    let fine : validate_start trim (body_of input) ≡ [] =
      validate_start-build_start_execution_input trim form c r ec er
      ∙ ap (λ b. report_if b "/scenarioId" "Scenario id is required" []) chosen in
    let grown : length (unshift_all items executions)
        ≡ wanted_runs form.mode c r + length executions =
      length-unshift_all items executions ∙ ap (λ n. n + length executions) sized in
    let started : IsAnswered form (wanted_runs form.mode c r) executions
        (start_reply trim forced fixture now input executions) =
      (
        (start_new now (fixture input.scenario_id) input executions).1,
        refl,
        sized,
        make_items-IsStarted now (fixture input.scenario_id) form 0 total,
        grown,
      ) in
    let passed =
      subst
        (λ v.
          IsAnswered form (wanted_runs form.mode c r) executions
            (checked_reply trim forced fixture v now input executions))
        (sym fine) started in
    subst
      (λ b. IsAnswered form (wanted_runs form.mode c r) executions (
        if b
        then (executions, forced_failure input.scenario_id)
        else checked_reply trim forced fixture (validate_start trim (body_of input)) now input
            executions))
      (sym free) passed
