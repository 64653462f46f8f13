-- ===== src/Examples/Sessions.antt =====
-- Sessions on the debugger page.
use ocs_testbench.Common.{ℕ, ◌≡◌, refl, true, List, [], ◌∷◌, none}
use ocs_testbench.Execution.{ExecutionState, ExecutionMode, Execution}
use ocs_testbench.Debugger.Store.{
  ExecutionStoreState, ingest_snapshot, create_execution_store, sending, is_terminal,
}
use ocs_testbench.Execution.{StepState, StepRecord}
use ocs_testbench.Scenario.{request, initial}
use ocs_testbench.Common.{some}
use ocs_testbench.Debugger.RunToEnd.{run_rounds_lem}
use ocs_testbench.Debugger.Actions.{
  run_rounds, StoreEvent, sse, ccr_sent, pause_clicked, stop_clicked, step,
}
use ocs_testbench.Common.{String}
use ocs_testbench.Debugger.Bridge.{
  ProgressMessage, on_messages, completed_end, on_messages-terminal,
}
use ocs_testbench.Debugger.Machine.{steps_all, terminal_stays}

abbrev fresh : ExecutionStoreState ℕ
unfolding create_execution_store
fresh = create_execution_store "7"

abbrev session : List (StoreEvent ℕ)
session = sse 5 (sending "7" 0) ∷ pause_clicked ∷ ccr_sent ∷ stop_clicked ∷ []

abbrev stopped : ExecutionStoreState ℕ
unfolding step
stopped = step stop_clicked fresh

terminal_stays_example : (steps_all session stopped).state ≡ ExecutionState.aborted
unfolding create_execution_store step
terminal_stays_example =
    terminal_stays session stopped refl ((λ e. cc), ((λ e. cc), ((λ e. cc), ((λ e. cc), tt))))

abbrev snapshot_at : ExecutionState → ℕ → Execution
snapshot_at state n = record {
  summary = record {
    id = "7";
    scenario_id = "3";
    scenario_name = "Voice call";
    mode = ExecutionMode.interactive;
    peer_id = none;
    subscriber_id = none;
    batch_id = none;
    state = state;
    started_at = 0;
    finished_at = none;
  };
  current_step = n;
  total_steps = 2;
  steps = [];
  context = record { system = []; user = []; extracted = [] };
}

run_rounds_lem_example :
    run_rounds
      (snapshot_at ExecutionState.paused 1 ∷ snapshot_at ExecutionState.success 2 ∷ [])
      fresh
    ≡ (ingest_snapshot (snapshot_at ExecutionState.success 2) fresh, true)
run_rounds_lem_example =
    run_rounds_lem (snapshot_at ExecutionState.paused 1 ∷ []) (snapshot_at ExecutionState.success 2)
      [] fresh (refl, tt) (λ e. cc)

abbrev done_step : StepRecord
done_step = record {
  n = 1;
  kind = request;
  request_type = some initial;
  label = none;
  state = StepState.success;
  started_at = none;
  finished_at = none;
  duration_ms = none;
  error_detail = none;
}

abbrev ended_run : Execution
ended_run = record (snapshot_at ExecutionState.success 0) { steps = done_step ∷ [] }

abbrev after_end : ExecutionStoreState ℕ
after_end = ingest_snapshot ended_run fresh

abbrev news_of : String → ProgressMessage
news_of state = record { session_id = "7"; state = state; step = 1; delay_sec = none }

abbrev under_way : ExecutionStoreState ℕ
unfolding step
under_way = step (sse 5 (sending "7" 0)) fresh

on_messages-terminal_example :
    is_terminal
      (on_messages 9 ended_run
        (news_of "completed" ∷ news_of "running" ∷ news_of "paused" ∷ [])
        under_way).state
    ≡ true
unfolding create_execution_store step
on_messages-terminal_example =
    on_messages-terminal 9 ended_run "completed" (news_of "completed")
      (news_of "running" ∷ news_of "paused" ∷ []) under_way completed_end refl tt
