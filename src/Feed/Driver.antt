-- ===== src/Feed/Driver.antt =====
-- installExecutionSse.ts: the driver that plays a plan. The platform's timers are part of its
-- state: `timers` holds the handles of those that were set and neither ran nor were cleared, each
-- with the instant it is due at. What a handler calls while an event is fanned out comes with the
-- timer that ran. `fanned` logs each event with the handlers it was given to.
use ocs_testbench.Common.{
  ℕ, zero, suc, ◌+◌, ◌-◌, Bool, true, false, not, ◌||◌, List, [], ◌∷◌, ◌++◌, Option, none, some,
  length, get_elem?, filter_by, any, ◌==◌, leb, ltb, if◌then◌else◌,
}
use ocs_testbench.Feed.{DriverEvent}

pub record Timer : Type 0 where
  pub handle : ℕ
  pub due : ℕ

pub record Driver : Type 0 where
  pub next_index : ℕ
  pub pending_handle : Option ℕ
  pub tick_started_at : ℕ
  pub remaining_ms : ℕ
  pub paused_flag : Bool
  pub disposed : Bool
  pub handlers : List ℕ
  pub timers : List Timer
  pub next_handle : ℕ
  pub fanned : List (Option DriverEvent × List ℕ)

pub data Command : Type 0 where
  subscribe unsubscribe : (handler : ℕ) → Command
  pause resume dispose : Command

-- What happens to a driver: a call from outside, or a timer that is due, with what the handlers
-- call as they are given the event.
pub data DriverStep : Type 0 where
  call : (now : ℕ) → Command → DriverStep
  timer_ran : (now handle : ℕ) → List Command → DriverStep

abbrev pub without_timer : ℕ → List Timer → List Timer
without_timer h ts = filter_by (λ t. not (t.handle == h)) ts

abbrev pub has_timer : ℕ → List Timer → Bool
has_timer h ts = any (λ t. t.handle == h) ts

-- `pending_handle` and its timer.
abbrev pub cleared : Option ℕ → List Timer → List Timer
cleared none ts = ts
cleared (some h) ts = without_timer h ts

unfoldable pub clear_pending : Driver → Driver
clear_pending s = record s { pending_handle = none; timers = cleared s.pending_handle s.timers }

module _ (plan : List DriverEvent) (tick_ms : ℕ) where
  unfoldable pub schedule_next : (now delay : ℕ) → Driver → Driver
  schedule_next now delay s = if s.disposed || leb (length plan) s.next_index then s else record s {
    tick_started_at = now;
    remaining_ms = delay;
    pending_handle = some s.next_handle;
    timers = s.timers ++ record { handle = s.next_handle; due = now + delay } ∷ [];
    next_handle = s.next_handle + 1;
  }

  unfoldable pub install : ℕ → Driver
  unfolding schedule_next
  install now = schedule_next now 0 (record {
    next_index = 0;
    pending_handle = none;
    tick_started_at = 0;
    remaining_ms = 0;
    paused_flag = false;
    disposed = false;
    handlers = [];
    timers = [];
    next_handle = 0;
    fanned = [];
  })

  unfoldable pub pause_driver : ℕ → Driver → Driver
  unfolding clear_pending
  pause_driver now s =
      if s.disposed || s.paused_flag || leb (length plan) s.next_index
      then s
      else record (clear_pending
          (record s { remaining_ms = s.remaining_ms - (now - s.tick_started_at) })) {
            paused_flag = true;
          }

  unfoldable pub resume_driver : ℕ → Driver → Driver
  unfolding schedule_next
  resume_driver now s =
      if s.disposed || not s.paused_flag
      then s
      else schedule_next now (if ltb 0 s.remaining_ms then s.remaining_ms else tick_ms)
          (record s { paused_flag = false })

  unfoldable pub dispose_driver : Driver → Driver
  unfolding clear_pending
  dispose_driver s =
      if s.disposed
      then s
      else record (clear_pending (record s { disposed = true })) { handlers = [] }

  -- `handlers` is a set in order of insertion.
  unfoldable pub run_command : ℕ → Command → Driver → Driver
  unfolding pause_driver resume_driver dispose_driver
  run_command now (subscribe h) s =
      if any (λ g. g == h) s.handlers then s else record s { handlers = s.handlers ++ h ∷ [] }
  run_command now (unsubscribe h) s = record s {
    handlers = filter_by (λ g. not (g == h)) s.handlers;
  }
  run_command now pause s = pause_driver now s
  run_command now resume s = resume_driver now s
  run_command now dispose s = dispose_driver s

  unfoldable pub run_commands : ℕ → List Command → Driver → Driver
  run_commands now [] s = s
  run_commands now (c ∷ cs) s = run_commands now cs (run_command now c s)

  -- The timer's callback; at a platform's timer that is no longer set, nothing runs.
  unfoldable pub fire : (now handle : ℕ) → List Command → Driver → Driver
  unfolding schedule_next run_commands
  fire now h reactions s =
      if has_timer h s.timers
      then schedule_next now tick_ms (
          run_commands now reactions (record s {
            timers = without_timer h s.timers;
            pending_handle = none;
            next_index = s.next_index + 1;
            fanned = s.fanned ++ (get_elem? plan s.next_index, s.handlers) ∷ [];
          }))
      else s

  unfoldable pub drive : DriverStep → Driver → Driver
  unfolding run_command fire
  drive (call now c) s = run_command now c s
  drive (timer_ran now h reactions) s = fire now h reactions s

  unfoldable pub drive_all : List DriverStep → Driver → Driver
  drive_all [] s = s
  drive_all (x ∷ xs) s = drive_all xs (drive x s)

  abbrev pub first_runs : List Timer → Driver → Driver
  unfolding fire
  first_runs [] s = s
  first_runs (t ∷ ts) s = fire t.due t.handle [] s

  -- The platform alone: `count` times the first timer runs when it is due, and no handler calls
  -- the driver.
  unfoldable pub run_timers : (count : ℕ) → Driver → Driver
  run_timers zero s = s
  run_timers (suc count) s = run_timers count (first_runs s.timers s)
