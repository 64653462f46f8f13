-- ===== src/Feed/Prefix.antt =====
-- What the debugger's store shows while the plan's events come in.
use ocs_testbench.Common.{
  ℕ, zero, suc, ◌+◌, ◌≡◌, refl, sym, ap, List, [], ◌∷◌, ◌++◌, some, map, length, take, ◌≤◌, subst,
  append-nil, append_assoc, length-append, arith,
}
use ocs_testbench.Scenario.{ScenarioStep}
use ocs_testbench.Execution.{ExecutionState, interactive, StepRecord}
use ocs_testbench.Debugger.Store.{
  ExecutionStoreState, ingest_sse, sending, responded, set_step, place_step, is_terminal,
}
use ocs_testbench.Feed.{
  BuildPlanInput, DriverEvent, payload, build_step_record, records_from, completed_steps,
  step_events, plan_of, build_plan, leading, terminal_event, terminal_state,
}
use ocs_testbench.Feed.Plays.{play_from, Ended, shown_end, play-build_plan}

set_step-append :
    (rs : List StepRecord) (i : ℕ) (r : StepRecord)
    → length rs ≡ i
    → set_step (map some rs) i r ≡ map some (rs ++ r ∷ [])
unfolding set_step
set_step-append [] zero r h = refl
set_step-append [] (suc i) r h = absurd (omega arith)
set_step-append (x ∷ rs) zero r h = absurd (omega arith)
set_step-append (x ∷ rs) (suc i) r h = ap (λ l. some x ∷ l) (set_step-append rs i r (omega arith))

place_step-append :
    (rs : List StepRecord) (i n : ℕ) (r : StepRecord)
    → length rs ≡ i
    → n ≡ i + 1
    → place_step (map some rs) r n ≡ map some (rs ++ r ∷ [])
unfolding set_step
place_step-append rs i n r h e =
    let up : suc i ≡ n = omega arith in
    subst (λ m. place_step (map some rs) r m ≡ map some (rs ++ r ∷ [])) up
      (set_step-append rs i r h)

snoc : (rs : List StepRecord) (r : StepRecord) → length (rs ++ r ∷ []) ≡ length rs + 1
snoc rs r = length-append rs (r ∷ [])

step_events-take :
    (input : BuildPlanInput) (i k : ℕ) (xs : List ScenarioStep) (ys : List DriverEvent)
    → k ≤ length xs
    → take (k + k) (step_events input i xs ++ ys) ≡ step_events input i (take k xs)
unfolding step_events
step_events-take input i zero xs ys h = refl
step_events-take input i (suc k) [] ys h = absurd (omega arith)
step_events-take input i (suc k) (x ∷ xs) ys h =
    let more = step_events-take input (i + 1) k xs ys (omega arith) in
    let two : suc (suc (k + k)) ≡ suc k + suc k = omega arith in
    subst (λ n. take n (step_events input i (x ∷ xs) ++ ys) ≡ step_events input i (x ∷ take k xs))
      two
      (ap
        (λ l.
          payload (sending input.execution_id i)
          ∷ payload (responded input.execution_id (build_step_record input i x))
          ∷ l)
        more)

records_from-take :
    (input : BuildPlanInput) (i k : ℕ) (xs : List ScenarioStep)
    → records_from input i (take k xs) ≡ take k (records_from input i xs)
unfolding records_from
records_from-take input i zero xs = refl
records_from-take input i (suc k) [] = refl
records_from-take input i (suc k) (x ∷ xs) =
    ap (λ l. build_step_record input i x ∷ l) (records_from-take input (i + 1) k xs)

module _ {ℓ} {P : Type ℓ} (clock : ℕ → ℕ) where
  -- The store has got the records `rs`, and no others.
  abbrev pub Shows : List StepRecord → ExecutionStoreState P → Type 0
  Shows rs s = (s.state ≡ ExecutionState.running) × (s.steps ≡ map some rs) × (s.cursor ≡ length rs)

  round-Shows :
      (input : BuildPlanInput) (k i : ℕ) (x : ScenarioStep) (rs : List StepRecord)
      (s : ExecutionStoreState P)
      → length rs ≡ i
      → Shows rs s
      → Shows
          (rs ++ build_step_record input i x ∷ [])
          (play_from clock k (step_events input i (x ∷ [])) s)
  unfolding play_from step_events ingest_sse
  round-Shows input k i x rs s h (running, shown, at) = (
    rw running refl,
    rw shown (place_step-append rs i (i + 1) (build_step_record input i x) h refl),
    omega (arith, snoc rs (build_step_record input i x)),
  )

  -- Any number of rounds.
  rounds-Shows :
      (input : BuildPlanInput) (k i : ℕ) (xs : List ScenarioStep) (rs : List StepRecord)
      (s : ExecutionStoreState P)
      → length rs ≡ i
      → Shows rs s
      → Shows (rs ++ records_from input i xs) (play_from clock k (step_events input i xs) s)
  unfolding play_from step_events records_from
  rounds-Shows input k i [] rs s h shows = rw (append-nil rs) shows
  rounds-Shows input k i (x ∷ xs) rs s h shows =
      let after = round-Shows input k i x rs s h shows in
      let rest =
        rounds-Shows input (suc (suc k)) (i + 1) xs (rs ++ build_step_record input i x ∷ []) _
          (omega (arith, snoc rs (build_step_record input i x))) after in
      rw (← append_assoc rs (build_step_record input i x ∷ []) (records_from input (i + 1) xs)) rest

  prefix-Shows :
      (input : BuildPlanInput) (k : ℕ) (s : ExecutionStoreState P)
      → k ≤ length input.scenario.steps
      → s.state ≡ ExecutionState.pending
      → s.steps ≡ []
      → s.cursor ≡ 0
      → Shows
          (take k (completed_steps input))
          (play_from clock 0 (leading input ∷ take (k + k) (plan_of interactive input)) s)
  unfolding plan_of completed_steps play_from ingest_sse
  prefix-Shows input k s h pending empty at =
      let end = payload (terminal_event input.outcome input (completed_steps input)) ∷ [] in
      rw
        (
          step_events-take input 0 k input.scenario.steps end h,
          ← records_from-take input 0 k input.scenario.steps,
        )
        (rounds-Shows input 1 0 (take k input.scenario.steps) [] _ refl
          (rw pending refl, empty, at))

  -- A store that is pending and shows nothing, that was given the first event of an interactive plan and the two
  -- events of each of `k` steps is running, shows the records of just these steps, and has its
  -- cursor on the step that follows.
  play-take :
      (input : BuildPlanInput) (k : ℕ) (s : ExecutionStoreState P)
      → input.mode ≡ interactive
      → k ≤ length input.scenario.steps
      → s.state ≡ ExecutionState.pending
      → s.steps ≡ []
      → s.cursor ≡ 0
      → Shows
          (take k (completed_steps input))
          (play_from clock 0 (take (suc (k + k)) (build_plan input)) s)
  unfolding build_plan
  play-take input k s m h pending empty at =
      subst
        (λ x.
          Shows (take k (completed_steps input))
            (play_from clock 0 (leading input ∷ take (k + k) (plan_of x input)) s))
        (sym m) (prefix-Shows input k s h pending empty at)

  -- A store that is pending and shows nothing is given an interactive plan. After the first event and
  -- the two events of each of `k` steps it is running, shows the records of just these steps, and has
  -- its cursor on the step that follows; after the whole plan it is in the state of the plan's
  -- outcome, with the records of all the steps and the cursor behind them.
  pub play-interactive :
      (input : BuildPlanInput) (k : ℕ) (s : ExecutionStoreState P)
      → input.mode ≡ interactive
      → k ≤ length input.scenario.steps
      → s.state ≡ ExecutionState.pending
      → s.steps ≡ []
      → s.cursor ≡ 0
      → Shows
          (take k (completed_steps input))
          (play_from clock 0 (take (suc (k + k)) (build_plan input)) s)
        × Ended clock input (terminal_state input.outcome) (play_from clock 0 (build_plan input) s)
  play-interactive input k s m h pending empty at = (
    play-take input k s m h pending empty at,
    subst
        (λ x.
          Ended clock input (shown_end x input.outcome) (play_from clock 0 (build_plan input) s))
        m (play-build_plan clock input s (ap is_terminal pending)),
  )
