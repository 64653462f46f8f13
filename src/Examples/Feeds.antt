-- ===== src/Examples/Feeds.antt =====
-- The feed of one execution: a run of two steps that fails.
use ocs_testbench.Common.{arith, ℕ, ◌*◌, ◌≡◌, refl, List, [], ◌∷◌, none, some, map, length, take}
use ocs_testbench.Scenario.{request, initial, terminate, ScenarioStep}
use ocs_testbench.Execution.{ExecutionState, ExecutionMode}
use ocs_testbench.Debugger.Store.{ExecutionStoreState, create_execution_store}
use ocs_testbench.Feed.{Outcome, BuildPlanInput, completed_steps, build_plan}
use ocs_testbench.Feed.Driver.{
  Driver, subscribe, unsubscribe, pause, resume, dispose, DriverStep, call, timer_ran, install,
  drive_all, run_timers,
}
use ocs_testbench.Feed.Plays.{play_from, Ended}
use ocs_testbench.Feed.Prefix.{Shows, play-interactive}
use ocs_testbench.Feed.Fires.{fired-take, fires_all}
use ocs_testbench.Examples.Drafts.{new_draft}

abbrev call_step : ScenarioStep
call_step = record {
  kind = request;
  label = none;
  request_type = initial;
  services = none;
  overrides = none;
  repeat_until = none;
}

abbrev failing_run : BuildPlanInput
failing_run = record {
  execution_id = "7";
  scenario = record new_draft {
    steps = call_step ∷ record call_step { request_type = terminate } ∷ [];
  };
  mode = ExecutionMode.interactive;
  outcome = Outcome.failure;
  started_at_ms = 1000;
  batch_total = 5;
  tick_ms = 800;
}

abbrev blank : ExecutionStoreState ℕ
unfolding create_execution_store
blank = create_execution_store "7"

abbrev clock : ℕ → ℕ
clock k = k * 800

play-interactive_example :
    Shows clock
      (take 1 (completed_steps failing_run))
      (play_from clock 0 (take 3 (build_plan failing_run)) blank)
    × Ended clock failing_run ExecutionState.failure
        (play_from clock 0 (build_plan failing_run) blank)
unfolding create_execution_store
play-interactive_example =
    play-interactive clock failing_run 1 blank refl (omega arith) refl refl refl

-- A handler of the page leaves and closes the feed at its second event.
abbrev visit : List DriverStep
visit =
    call 0 (subscribe 1)
    ∷ timer_ran 0 0 []
    ∷ call 300 pause
    ∷ call 900 resume
    ∷ timer_ran 1400 1 (unsubscribe 1 ∷ dispose ∷ [])
    ∷ []

fired-take_example :
    map
      (λ f. f.0)
      (drive_all (build_plan failing_run) 800 visit (install (build_plan failing_run) 800 0)).fanned
    ≡ map some (
        take
          (drive_all
            (build_plan failing_run)
            800
            visit
            (install (build_plan failing_run) 800 0)).next_index
          (build_plan failing_run))
fired-take_example =
    fired-take (build_plan failing_run) 800 0 visit (tt, (tt, (tt, (tt, ((tt, (tt, tt)), tt)))))

fires_all_example :
    (map
        (λ f. f.0)
        (run_timers
          (build_plan failing_run)
          800
          (length (build_plan failing_run))
          (install (build_plan failing_run) 800 0)).fanned
      ≡ map some (build_plan failing_run))
    × ((run_timers
          (build_plan failing_run)
          800
          (length (build_plan failing_run))
          (install (build_plan failing_run) 800 0)).timers
        ≡ [])
fires_all_example = fires_all (build_plan failing_run) 800 0

abbrev first_event : List DriverStep
first_event = timer_ran 0 0 [] ∷ []

abbrev under_way : Driver
under_way =
    drive_all (build_plan failing_run) 800 first_event (install (build_plan failing_run) 800 0)
