-- ===== src/Debugger/RunToEnd.antt =====
-- executionStore.ts: the interactive loop of `runToEnd`.
use ocs_testbench.Common.{◌≡◌, ◌≢◌, refl, ◌∙◌, true, false, List, [], ◌∷◌, ◌++◌, All, some, map}
use ocs_testbench.Execution.{Execution, ExecutionState}
use ocs_testbench.Debugger.Store.{ExecutionStoreState, ingest_snapshot}
use ocs_testbench.Debugger.Actions.{run_ends, run_round, run_rounds}

paused_goes : (x : ExecutionState) → x ≡ ExecutionState.paused → run_ends x ≡ false
unfolding run_ends
paused_goes x h = rw h refl

other_ends : (x : ExecutionState) → x ≢ ExecutionState.paused → run_ends x ≡ true
unfolding run_ends
other_ends ExecutionState.paused ne = absurd (ne refl)
other_ends x ne = refl

module _ {ℓ} {P : Type ℓ} where
  -- What a round that goes on leaves.
  abbrev seen : Execution → ExecutionStoreState P → ExecutionStoreState P
  seen e s = record s { cursor = e.current_step; steps = map some e.steps }

  round_goes_on :
      (e : Execution) (s : ExecutionStoreState P)
      → run_ends e.state ≡ false
      → run_round e s ≡ (seen e s, false)
  unfolding run_round
  round_goes_on e s h = rw (h, run_round) refl

  round_ends :
      (e : Execution) (s : ExecutionStoreState P)
      → run_ends e.state ≡ true
      → run_round e s ≡ (ingest_snapshot e s, true)
  unfolding run_round ingest_snapshot
  round_ends e s h = rw (h, run_round) refl

  -- The loop reads snapshots while they have the state `paused`. At the first that has another, the
  -- store is as if that snapshot alone had been ingested, and the snapshots after it are not read.
  pub run_rounds_lem :
      (before : List Execution) (e : Execution) (after : List Execution) (s : ExecutionStoreState P)
      → All (λ x. x.state ≡ ExecutionState.paused) before
      → e.state ≢ ExecutionState.paused
      → run_rounds (before ++ e ∷ after) s ≡ (ingest_snapshot e s, true)
  unfolding run_rounds
  run_rounds_lem [] e after s h other = rw (round_ends e s (other_ends e.state other)) refl
  run_rounds_lem (x ∷ before) e after s (paused, h) other =
      rw (round_goes_on x s (paused_goes x.state paused))
        (run_rounds_lem before e after (seen x s) h other ∙ (unfold ingest_snapshot in refl))
