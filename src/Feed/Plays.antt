-- ===== src/Feed/Plays.antt =====
-- What the debugger's store makes of the plan, when its events come in order.
use ocs_testbench.Common.{
  ℕ, zero, suc, ◌+◌, ◌≡◌, refl, ap, ◌∙◌, false, List, [], ◌∷◌, ◌++◌, some, map, length, arith,
}
use ocs_testbench.Scenario.{ScenarioStep}
use ocs_testbench.Execution.{ExecutionState, ExecutionMode, interactive, continuous}
use ocs_testbench.Debugger.Store.{
  ExecutionStoreState, ingest_sse, completed, transition, is_terminal,
}
use ocs_testbench.Feed.{
  BuildPlanInput, DriverEvent, payload, batch_step, completed_steps, step_events, batch_steps,
  plan_of, build_plan, terminal_state, terminal_event, snapshot_for_state, Outcome,
}

-- The store shows a continuous run as a success whatever the outcome asked for.
abbrev pub shown_end : ExecutionMode → Outcome → ExecutionState
shown_end interactive o = terminal_state o
shown_end continuous o = ExecutionState.success

started-running :
    (x : ExecutionState)
    → is_terminal x ≡ false
    → transition x ExecutionState.running ≡ ExecutionState.running
unfolding transition
started-running ExecutionState.pending h = refl
started-running ExecutionState.running h = refl
started-running ExecutionState.paused h = refl
started-running x h = cc

module _ {ℓ} {P : Type ℓ} (clock : ℕ → ℕ) where
  -- The store ignores an event that is not in its vocabulary.
  unfoldable pub deliver : ℕ → DriverEvent → ExecutionStoreState P → ExecutionStoreState P
  unfolding ingest_sse
  deliver k (payload e) s = ingest_sse (clock k) e s
  deliver k (batch_step id n total) s = s

  -- The events of a list, the first of them the `k`-th of the plan.
  unfoldable pub play_from : ℕ → List DriverEvent → ExecutionStoreState P → ExecutionStoreState P
  unfolding deliver
  play_from k [] s = s
  play_from k (e ∷ es) s = play_from (suc k) es (deliver k e s)

  play_from-append :
      (k : ℕ) (xs ys : List DriverEvent) (s : ExecutionStoreState P)
      → play_from k (xs ++ ys) s ≡ play_from (k + length xs) ys (play_from k xs s)
  unfolding play_from
  play_from-append k [] ys s = ap (λ u. play_from u ys s) (omega arith)
  play_from-append k (x ∷ xs) ys s =
      play_from-append (suc k) xs ys (deliver k x s)
      ∙ ap (λ u. play_from u ys (play_from (suc k) xs (deliver k x s))) (omega arith)

  idle-play :
      (input : BuildPlanInput) (k n count : ℕ) (s : ExecutionStoreState P)
      → play_from k (batch_steps input n count) s ≡ s
  unfolding play_from batch_steps
  idle-play input k n zero s = refl
  idle-play input k n (suc count) s = idle-play input (suc k) (n + 1) count s

  -- How a store ends that was given every event.
  unfoldable pub Ended : BuildPlanInput → ExecutionState → ExecutionStoreState P → Type 0
  unfolding completed_steps
  Ended input end s =
      (s.state ≡ end)
      × (s.steps ≡ map some (completed_steps input))
      × (s.cursor ≡ length input.scenario.steps)

  terminal-Ended :
      (o : Outcome) (input : BuildPlanInput) (k : ℕ) (s : ExecutionStoreState P)
      → s.state ≡ ExecutionState.running
      → Ended input
          (terminal_state o)
          (play_from k (payload (terminal_event o input (completed_steps input)) ∷ []) s)
  unfolding play_from ingest_sse Ended
  terminal-Ended Outcome.success input k s h = (rw h refl, refl, refl)
  terminal-Ended Outcome.failure input k s h = (rw h refl, refl, refl)
  terminal-Ended Outcome.aborted input k s h = (rw h refl, refl, refl)

  batch-Ended :
      (input : BuildPlanInput) (k : ℕ) (state : ExecutionState) (s : ExecutionStoreState P)
      → s.state ≡ ExecutionState.running
      → Ended input ExecutionState.success (
          play_from k
            (payload (
                completed (
                  snapshot_for_state input state
                    (length input.scenario.steps)
                    (completed_steps input)))
              ∷ [])
            s)
  unfolding play_from ingest_sse Ended
  batch-Ended input k state s h = (rw h refl, refl, refl)

  rounds_run :
      (input : BuildPlanInput) (k i : ℕ) (xs : List ScenarioStep) (s : ExecutionStoreState P)
      → s.state ≡ ExecutionState.running
      → (play_from k (step_events input i xs) s).state ≡ ExecutionState.running
  unfolding play_from step_events ingest_sse
  rounds_run input k i [] s h = h
  rounds_run input k i (x ∷ xs) s h = rounds_run input (suc (suc k)) (i + 1) xs _ (rw h refl)

  plan_of-Ended :
      (m : ExecutionMode) (input : BuildPlanInput) (s : ExecutionStoreState P)
      → s.state ≡ ExecutionState.running
      → Ended input (shown_end m input.outcome) (play_from 1 (plan_of m input) s)
  unfolding plan_of
  plan_of-Ended interactive input s h =
      let events = step_events input 0 input.scenario.steps in
      let last = payload (terminal_event input.outcome input (completed_steps input)) in
      rw (play_from-append 1 events (last ∷ []) s) (
        terminal-Ended input.outcome input (1 + length events) (play_from 1 events s)
          (rounds_run input 1 0 input.scenario.steps s h))
  plan_of-Ended continuous input s h =
      let count = input.batch_total in
      rw (play_from-append 1 (batch_steps input 1 count) _ s, idle-play input 1 1 count s)
        (batch-Ended input (1 + length (batch_steps input 1 count)) (terminal_state input.outcome) s
          h)

  -- A store that is not in a terminal state and is given the whole plan ends in the state of
  -- the plan's outcome, or as a success where the plan is continuous, whatever its outcome, with the records of all the scenario's steps
  -- and the cursor behind them.
  pub play-build_plan :
      (input : BuildPlanInput) (s : ExecutionStoreState P)
      → is_terminal s.state ≡ false
      → Ended input (shown_end input.mode input.outcome) (play_from 0 (build_plan input) s)
  unfolding build_plan play_from ingest_sse
  play-build_plan input s h = plan_of-Ended input.mode input _ (started-running s.state h)
