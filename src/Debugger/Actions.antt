-- ===== src/Debugger/Actions.antt =====
-- executionStore.ts: the local edits and the imperative actions. What an action awaits comes as an
-- argument of the part that runs after the await; an action whose request fails after its last
-- change of state has no part for it.
use ocs_testbench.Common.{
  ℕ, String, Bool, true, false, not, ◌||◌, List, [], ◌∷◌, ◌++◌, Option, none, some, map, str_eq,
  any, filter_by, if◌then◌else◌,
}
use ocs_testbench.Common.Objects.{insert}
use ocs_testbench.Execution.{ExecutionState, Execution}
use ocs_testbench.Debugger.Store.{
  ExecutionStoreState, SseEventPayload, transition, is_terminal, ingest_snapshot, ingest_sse,
}

-- A `Set` of texts, in insertion order.
abbrev pub set_has : String → List String → Bool
set_has x xs = any (λ y. str_eq y x) xs

unfoldable pub toggle : String → List String → List String
toggle x xs = if set_has x xs then filter_by (λ y. not (str_eq y x)) xs else xs ++ x ∷ []

-- `Object.keys(overrides).length > 0 ? { overrides } : undefined`
abbrev pub step_body : List (String × String) → Option (List (String × String))
step_body [] = none
step_body (o ∷ os) = some (o ∷ os)

abbrev pub is_paused : ExecutionState → Bool
is_paused ExecutionState.paused = true
is_paused _ = false

-- The test by which the loop of `runToEnd` ends.
unfoldable pub run_ends : ExecutionState → Bool
run_ends state = is_terminal state || not (is_paused state)

-- What can happen to a mounted store, one part at a time.
pub data StoreEvent {ℓ} (P : Type ℓ) : Type ℓ where
  sse : (now : ℕ) → SseEventPayload → StoreEvent P
  snapshot_read : Execution → StoreEvent P
  toggled : String → StoreEvent P
  regenerated : StoreEvent P
  preview_set : Option P → StoreEvent P
  edit_reverted : List String → StoreEvent P
  override_set : String → String → StoreEvent P
  overrides_cleared : StoreEvent P
  historical_viewed : Option ℕ → StoreEvent P
  sleep_cleared : StoreEvent P
  ccr_sent : StoreEvent P
  ccr_failed : StoreEvent P
  skip_done : Option Execution → StoreEvent P
  pause_clicked : StoreEvent P
  resume_clicked : StoreEvent P
  interrupt_clicked : StoreEvent P
  stop_clicked : StoreEvent P
  run_to_end_clicked : StoreEvent P
  round_done : Execution → StoreEvent P

module _ {ℓ} {P : Type ℓ} where
  unfoldable pub toggle_service : String → ExecutionStoreState P → ExecutionStoreState P
  unfolding toggle
  toggle_service id s =
      let e = s.edit in
      record s { edit = record e { services_enabled = toggle id e.services_enabled; dirty = true } }

  unfoldable pub regenerate : ExecutionStoreState P → ExecutionStoreState P
  regenerate s = let e = s.edit in record s { edit = record e { dirty = false } }

  unfoldable pub set_preview_tree : Option P → ExecutionStoreState P → ExecutionStoreState P
  set_preview_tree tree s = let e = s.edit in record s { edit = record e { preview_tree = tree } }

  unfoldable pub revert_edit : List String → ExecutionStoreState P → ExecutionStoreState P
  revert_edit services s = record s {
    edit = record {
      services_enabled = services;
      preview_tree = none;
      dirty = false;
      overrides = [];
    };
  }

  unfoldable pub set_override : String → String → ExecutionStoreState P → ExecutionStoreState P
  set_override name value s =
      let e = s.edit in
      record s { edit = record e { overrides = insert name value e.overrides; dirty = true } }

  unfoldable pub clear_overrides : ExecutionStoreState P → ExecutionStoreState P
  clear_overrides s =
      let e = s.edit in record s { edit = record e { overrides = []; dirty = false } }

  unfoldable pub view_historical : Option ℕ → ExecutionStoreState P → ExecutionStoreState P
  view_historical index s = record s { historical_index = index }

  unfoldable pub clear_sleep_countdown : ExecutionStoreState P → ExecutionStoreState P
  clear_sleep_countdown s = record s { sleep_countdown = none }

  -- Up to the request; also the body that is posted.
  unfoldable pub send_ccr :
      ExecutionStoreState P → ExecutionStoreState P × Option (List (String × String))
  unfolding transition
  send_ccr s =
      (record s { state = transition s.state ExecutionState.running }, step_body s.edit.overrides)

  -- The `catch` of `sendCcr`.
  unfoldable pub send_ccr_failed : ExecutionStoreState P → ExecutionStoreState P
  send_ccr_failed s = record s { state = ExecutionState.paused }

  -- The snapshot that is read after the request, or that one of the two requests failed.
  unfoldable pub skip : Option Execution → ExecutionStoreState P → ExecutionStoreState P
  unfolding ingest_snapshot
  skip none s = s
  skip (some snapshot) s = ingest_snapshot snapshot s

  unfoldable pub pause : ExecutionStoreState P → ExecutionStoreState P
  unfolding transition
  pause s = record s { state = transition s.state ExecutionState.paused }

  unfoldable pub resume : ExecutionStoreState P → ExecutionStoreState P
  unfolding transition
  resume s = record s { state = transition s.state ExecutionState.running }

  unfoldable pub interrupt : ExecutionStoreState P → ExecutionStoreState P
  unfolding transition
  interrupt s = record s {
    state = transition s.state ExecutionState.paused;
    sleep_countdown = none;
  }

  unfoldable pub stop : ExecutionStoreState P → ExecutionStoreState P
  unfolding transition
  stop s = record s { state = transition s.state ExecutionState.aborted }

  -- Up to the first request of either mode.
  unfoldable pub run_to_end : ExecutionStoreState P → ExecutionStoreState P
  unfolding transition
  run_to_end s = record s { state = transition s.state ExecutionState.running }

  -- One round of the interactive loop, on the snapshot that was read after the step: whether the
  -- loop has ended. At its end the snapshot is ingested.
  unfoldable pub run_round : Execution → ExecutionStoreState P → ExecutionStoreState P × Bool
  unfolding run_ends
  run_round snapshot s =
      let s' = record s { cursor = snapshot.current_step; steps = map some snapshot.steps } in
      if run_ends snapshot.state then (ingest_snapshot snapshot s', true) else (s', false)

  -- The interactive loop on the snapshots that the server gives, one a round.
  unfoldable pub run_rounds : List Execution → ExecutionStoreState P → ExecutionStoreState P × Bool
  run_rounds [] s = (s, false)
  run_rounds (snapshot ∷ rest) s =
      let (s', ended) = run_round snapshot s in
      let more = run_rounds rest s' in if ended then (s', true) else more

  unfoldable pub step : StoreEvent P → ExecutionStoreState P → ExecutionStoreState P
  unfolding ingest_sse ingest_snapshot send_ccr send_ccr_failed skip pause resume interrupt stop
      run_to_end run_round toggle_service regenerate set_preview_tree revert_edit set_override
      clear_overrides view_historical clear_sleep_countdown
  step (sse now e) s = ingest_sse now e s
  step (snapshot_read e) s = ingest_snapshot e s
  step (toggled id) s = toggle_service id s
  step regenerated s = regenerate s
  step (preview_set tree) s = set_preview_tree tree s
  step (edit_reverted services) s = revert_edit services s
  step (override_set name value) s = set_override name value s
  step overrides_cleared s = clear_overrides s
  step (historical_viewed index) s = view_historical index s
  step sleep_cleared s = clear_sleep_countdown s
  step ccr_sent s = (send_ccr s).0
  step ccr_failed s = send_ccr_failed s
  step (skip_done answer) s = skip answer s
  step pause_clicked s = pause s
  step resume_clicked s = resume s
  step interrupt_clicked s = interrupt s
  step stop_clicked s = stop s
  step run_to_end_clicked s = run_to_end s
  step (round_done e) s = (run_round e s).0
