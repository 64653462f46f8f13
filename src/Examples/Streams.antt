-- ===== src/Examples/Streams.antt =====
-- The event stream: a cached page of executions and a client that is closed.
use ocs_testbench.Common.{ℕ, ◌≡◌, refl, arith, List, [], ◌∷◌, none, some, map, String}
use ocs_testbench.Execution.{ExecutionState, ExecutionMode, ExecutionSummary, Execution}
use ocs_testbench.Live.{
  SseEvent, execution_created, execution_progress, Cache, ListExecutionsParams, created_row,
  apply_event_to_cache, apply_events,
}
use ocs_testbench.Common.{Option}
use ocs_testbench.Live.{ExecutionPage}
use ocs_testbench.Live.Consistent.{AreConsistent, apply_events-AreConsistent}
use ocs_testbench.Live.Client.{
  EventType, StreamStep, opens, errs, sends, ClientStep, open_called, stream_does, new_client,
  close_client, client_steps,
}
use ocs_testbench.Live.Repeated.{apply-apply}
use ocs_testbench.Live.Quiet.{close-silent}

abbrev pub run : String → ExecutionState → ExecutionSummary
run id state = record {
  id = id;
  scenario_id = "3";
  scenario_name = "Voice call";
  mode = ExecutionMode.continuous;
  peer_id = none;
  subscriber_id = none;
  batch_id = none;
  state = state;
  started_at = 0;
  finished_at = none;
}

abbrev pub all_runs : ListExecutionsParams
all_runs = record {
  state = none;
  scenario_id = none;
  peer_id = none;
  batch_id = none;
  limit = none;
  offset = none;
}

abbrev one_run : Cache ℕ ℕ
one_run = record {
  peers = none;
  peer_details = [];
  lists =
      (
        all_runs,
        some (record {
          items = created_row (run "1" ExecutionState.running) ∷ [];
          page = record { total = 1; limit = 50; offset = 0 };
        }),
      )
      ∷ [];
  details = [];
  kpis = none;
}

abbrev finished : Execution
finished = record {
  summary = run "1" ExecutionState.success;
  current_step = 2;
  total_steps = 2;
  steps = [];
  context = record { system = []; user = []; extracted = [] };
}

abbrev news : List (SseEvent ℕ ℕ)
news =
    execution_created (run "2" ExecutionState.pending)
    ∷ execution_progress finished
    ∷ execution_created (run "2" ExecutionState.pending)
    ∷ []

apply_events-AreConsistent_example : AreConsistent (apply_events news one_run)
apply_events-AreConsistent_example =
    apply_events-AreConsistent news one_run (((refl, tt), omega arith), tt)

abbrev visit : List (ClientStep ℕ)
visit =
    open_called
    ∷ stream_does 0 opens
    ∷ stream_does 0 (sends EventType.peer_updated (some 4))
    ∷ stream_does 0 (errs 0)
    ∷ stream_does 0 opens
    ∷ []

abbrev late : List (ℕ × StreamStep ℕ)
late = (0, sends EventType.dashboard_kpi none) ∷ (0, errs 2) ∷ []

close-silent_example :
    client_steps
      (map (λ d. stream_does d.0 d.1) late)
      (close_client (client_steps visit new_client))
    ≡ close_client (client_steps visit new_client)
close-silent_example = close-silent visit late

abbrev first_page : Option ExecutionPage
first_page = some (record {
  items = created_row (run "1" ExecutionState.running) ∷ [];
  page = record { total = 1; limit = 50; offset = 0 };
})

apply-apply_example :
    apply_event_to_cache
      (execution_progress finished)
      (apply_event_to_cache (execution_progress finished) one_run)
    ≡ apply_event_to_cache (execution_progress finished) one_run
apply-apply_example = apply-apply (execution_progress finished) one_run
