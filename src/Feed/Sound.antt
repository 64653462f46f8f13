-- ===== src/Feed/Sound.antt =====
-- What holds of the driver whatever is called: one timer is set for the next event, or none is set
-- and the driver has stopped.
use mathlib.Core.List.{map-append}
use ocs_testbench.Common.{
  ℕ, zero, suc, ◌+◌, ◌≤◌, ◌<◌, ◌≡◌, ◌≢◌, refl, sym, ap, subst, ◌⊎◌, inl, inr, Bool, true, false,
  not, ◌||◌, ◌==◌, leb, ltb, if◌then◌else◌, List, [], ◌∷◌, ◌++◌, none, some, map, length, take,
  get_elem?, any, arith, Bool-cases, All, if_either,
}
use ocs_testbench.Feed.{DriverEvent}
use ocs_testbench.Feed.Driver.{
  Timer, Driver, Command, subscribe, unsubscribe, pause, resume, dispose, DriverStep, call,
  timer_ran, schedule_next, pause_driver, resume_driver, dispose_driver, run_command, run_commands,
  fire, drive, drive_all, install, has_timer, without_timer, clear_pending, cleared,
}

-- A handler's call that leaves the driver's clock alone.
abbrev pub IsCalm : Command → Type 0
IsCalm pause = ⊥
IsCalm resume = ⊥
IsCalm c = Unit

-- What the handlers call while an event is fanned out.
abbrev pub HasCalmHandlers : DriverStep → Type 0
HasCalmHandlers (call now c) = Unit
HasCalmHandlers (timer_ran now h reactions) = All IsCalm reactions

take-suc {ℓ} :
    {A : Type ℓ} (xs : List A) (n : ℕ)
    → n < length xs
    → map some (take (suc n) xs) ≡ map some (take n xs) ++ get_elem? xs n ∷ []
take-suc [] n h = absurd (omega arith)
take-suc (x ∷ xs) zero h = refl
take-suc (x ∷ xs) (suc n) h = ap (λ l. some x ∷ l) (take-suc xs n (omega arith))

drop_false : (a b c v : Bool) → b ≡ false → (a || c) ≡ v → (a || b || c) ≡ v
drop_false true b c v e h = h
drop_false false true c v e h = cc
drop_false false false c v e h = h

held_lem : (a c : Bool) → (a || true || c) ≡ true
held_lem true c = refl
held_lem false c = refl

not_both : (a b c : Bool) → (a || not b) ≡ false → (a || b || c) ≢ false
not_both true b c h going = cc
not_both false true c h going = cc
not_both false false c h going = cc

one_gone :
    (h g due : ℕ)
    → has_timer h (record { handle = g; due = due } ∷ []) ≡ true
    → without_timer h (record { handle = g; due = due } ∷ []) ≡ []
one_gone h g due e = ground arith

all_gone :
    (h g due : ℕ) (ts : List Timer)
    → ts ≡ record { handle = g; due = due } ∷ []
    → has_timer h ts ≡ true
    → without_timer h ts ≡ []
all_gone h g due ts e found =
    subst (λ u. has_timer h u ≡ true → without_timer h u ≡ []) (sym e) (one_gone h g due) found

no_timers : (h : ℕ) (ts : List Timer) → ts ≡ [] → has_timer h ts ≢ true
no_timers h [] e found = cc
no_timers h (t ∷ ts) e found = cc

-- The timer that is pending is taken away.
pub one_cleared : (h due : ℕ) → without_timer h (record { handle = h; due = due } ∷ []) ≡ []
one_cleared h due = ground arith

module _ (plan : List DriverEvent) where
  unfoldable pub stopped : Driver → Bool
  stopped s = s.disposed || s.paused_flag || leb (length plan) s.next_index

  -- One timer is set, for the next event.
  unfoldable pub Armed : Driver → Type 0
  Armed s =
      (h : ℕ) × (s.pending_handle ≡ some h)
      × (s.timers ≡ record { handle = h; due = s.tick_started_at + s.remaining_ms } ∷ [])
      × (stopped s ≡ false)

  -- No timer is set, and for a reason.
  unfoldable pub Idle : Driver → Type 0
  Idle s = (s.pending_handle ≡ none) × (s.timers ≡ []) × (stopped s ≡ true)

  -- The driver has fired the first events of its plan, in order and each once.
  unfoldable pub Fired : Driver → Type 0
  Fired s =
      (map (λ f. f.0) s.fanned ≡ map some (take s.next_index plan)) × (s.next_index ≤ length plan)

  unfoldable pub IsSound : Driver → Type 0
  IsSound s = (Armed s ⊎ Idle s) × Fired s

  -- The timer of the event before ran, or none was set.
  unfoldable pub Between : Driver → Type 0
  Between s = (s.pending_handle ≡ none) × (s.timers ≡ []) × (s.paused_flag ≡ false)

  pub schedule-IsSound :
      (tick_ms now delay : ℕ) (s : Driver)
      → Between s
      → Fired s
      → IsSound (schedule_next plan tick_ms now delay s)
  unfolding schedule_next IsSound Armed Idle Fired Between stopped
  schedule-IsSound tick_ms now delay s (none_set, no_timer, going) fired =
      elim (Bool-cases (s.disposed || leb (length plan) s.next_index)) [
        | inl h ↦
            rw h
              (inr (none_set, no_timer, drop_false s.disposed s.paused_flag _ true going h), fired)
        | inr h ↦
            rw (h, no_timer)
              (
                inl (
                  s.next_handle,
                  refl,
                  refl,
                  drop_false s.disposed s.paused_flag _ false going h,
                ),
                fired,
              )
      ]

  pub fires-Fired :
      (s : Driver)
      → Fired s
      → s.next_index < length plan
      → Fired (record s {
        next_index = s.next_index + 1;
        fanned = s.fanned ++ (get_elem? plan s.next_index, s.handlers) ∷ [];
      })
  unfolding Fired
  fires-Fired s (log, bound) h =
      let up : suc s.next_index ≡ s.next_index + 1 = omega arith in
      (
        rw (map-append (λ f. f.0) s.fanned ((get_elem? plan s.next_index, s.handlers) ∷ []), log)
            (sym (
              subst
                (λ n.
                  map some (take n plan)
                  ≡ map some (take s.next_index plan) ++ get_elem? plan s.next_index ∷ [])
                up (take-suc plan s.next_index h))),
        omega arith,
      )

  pub Armed-next : (s : Driver) → Armed s → s.next_index < length plan
  unfolding Armed stopped
  Armed-next s (h, pending, timers, going) = ground arith

  pub Armed-going : (s : Driver) → Armed s → (s.paused_flag ≡ false) × (s.disposed ≡ false)
  unfolding Armed stopped
  Armed-going s (h, pending, timers, going) = ground arith

  pub cleared-nil : (s : Driver) → Armed s ⊎ Idle s → cleared s.pending_handle s.timers ≡ []
  unfolding Armed Idle
  cleared-nil s (inl (h, pending, timers, going)) = rw (pending, timers) (one_cleared h _)
  cleared-nil s (inr (none_set, no_timer, held)) = rw (none_set, no_timer) refl

  pause-IsSound :
      (tick_ms now : ℕ) (s : Driver) → IsSound s → IsSound (pause_driver plan tick_ms now s)
  unfolding IsSound pause_driver clear_pending Idle Fired stopped
  pause-IsSound tick_ms now s (set, fired) =
      elim (Bool-cases (s.disposed || s.paused_flag || leb (length plan) s.next_index)) [
        | inl h ↦ rw h (set, fired)
        | inr h ↦ rw h (inr (refl, cleared-nil s set, held_lem s.disposed _), fired)
      ]

  resumed-Between :
      (s : Driver)
      → (s.disposed || not s.paused_flag) ≡ false
      → Armed s ⊎ Idle s
      → Between (record s { paused_flag = false })
  unfolding Armed Idle Between stopped
  resumed-Between s h (inl (g, pending, timers, going)) =
      absurd (not_both s.disposed s.paused_flag _ h going)
  resumed-Between s h (inr (none_set, no_timer, held)) = (none_set, no_timer, refl)

  resume-IsSound :
      (tick_ms now : ℕ) (s : Driver) → IsSound s → IsSound (resume_driver plan tick_ms now s)
  unfolding IsSound resume_driver Armed Idle Fired stopped Between
  resume-IsSound tick_ms now s (set, fired) = elim (Bool-cases (s.disposed || not s.paused_flag)) [
    | inl h ↦ rw h (set, fired)
    | inr h ↦ rw h (
        schedule-IsSound tick_ms now (if ltb 0 s.remaining_ms then s.remaining_ms else tick_ms)
          (record s { paused_flag = false }) (resumed-Between s h set) fired)
  ]

  dispose-IsSound : (tick_ms : ℕ) (s : Driver) → IsSound s → IsSound (dispose_driver plan tick_ms s)
  unfolding IsSound dispose_driver clear_pending Idle Fired stopped
  dispose-IsSound tick_ms s (set, fired) =
      if_either IsSound s.disposed s _ (λ e. (set, fired))
        (λ e. (inr (refl, cleared-nil s set, refl), fired))

  command-IsSound :
      (tick_ms now : ℕ) (c : Command) (s : Driver)
      → IsSound s
      → IsSound (run_command plan tick_ms now c s)
  unfolding run_command IsSound Armed Idle Fired stopped
  command-IsSound tick_ms now (subscribe h) s sound =
      elim (Bool-cases (any (λ g. g == h) s.handlers)) [ inl e ↦ rw e sound | inr e ↦ rw e sound ]
  command-IsSound tick_ms now (unsubscribe h) s sound = sound
  command-IsSound tick_ms now pause s sound = pause-IsSound tick_ms now s sound
  command-IsSound tick_ms now resume s sound = resume-IsSound tick_ms now s sound
  command-IsSound tick_ms now dispose s sound = dispose-IsSound tick_ms s sound

  calm-Between :
      (tick_ms now : ℕ) (c : Command) (s : Driver)
      → IsCalm c
      → Between s
      → Fired s
      → Between (run_command plan tick_ms now c s) × Fired (run_command plan tick_ms now c s)
  unfolding run_command Between Fired dispose_driver clear_pending
  calm-Between tick_ms now (subscribe h) s calm between fired =
      elim (Bool-cases (any (λ g. g == h) s.handlers)) [
        | inl e ↦ rw e (between, fired)
        | inr e ↦ rw e (between, fired)
      ]
  calm-Between tick_ms now (unsubscribe h) s calm between fired = (between, fired)
  calm-Between tick_ms now pause s calm between fired = elim calm [ ]
  calm-Between tick_ms now resume s calm between fired = elim calm [ ]
  calm-Between tick_ms now dispose s calm (none_set, no_timer, going) fired =
      if_either (λ u. Between u × Fired u) s.disposed s _
        (λ e. ((none_set, no_timer, going), fired))
        (λ e. ((refl, rw (none_set, no_timer) refl, going), fired))

  reactions-Between :
      (tick_ms now : ℕ) (cs : List Command) (s : Driver)
      → All IsCalm cs
      → Between s
      → Fired s
      → Between (run_commands plan tick_ms now cs s) × Fired (run_commands plan tick_ms now cs s)
  unfolding run_commands
  reactions-Between tick_ms now [] s calm between fired = (between, fired)
  reactions-Between tick_ms now (c ∷ cs) s (calm, rest) between fired =
      let (b, f) = calm-Between tick_ms now c s calm between fired in
      reactions-Between tick_ms now cs _ rest b f

  pub fire-IsSound :
      (tick_ms now h : ℕ) (reactions : List Command) (s : Driver)
      → All IsCalm reactions
      → IsSound s
      → IsSound (fire plan tick_ms now h reactions s)
  unfolding fire IsSound Armed Idle Between Fired
  fire-IsSound tick_ms now h reactions s calm (inr (none_set, no_timer, held), fired) =
      if_either IsSound (has_timer h s.timers) _ s (λ e. absurd (no_timers h s.timers no_timer e))
        (λ e. (inr (none_set, no_timer, held), fired))
  fire-IsSound tick_ms now h reactions s calm (inl (g, pending, timers, going), fired) =
      let armed : Armed s = (g, pending, timers, going) in
      if_either IsSound (has_timer h s.timers) _ s
        (λ e.
          let (between, after) =
            reactions-Between tick_ms now reactions
              (record s {
                timers = without_timer h s.timers;
                pending_handle = none;
                next_index = s.next_index + 1;
                fanned = s.fanned ++ (get_elem? plan s.next_index, s.handlers) ∷ [];
              })
              calm (refl, all_gone h g _ s.timers timers e, (Armed-going s armed).0)
              (fires-Fired s fired (Armed-next s armed)) in
          schedule-IsSound tick_ms now tick_ms _ between after)
        (λ e. (inl armed, fired))

  drive-IsSound :
      (tick_ms : ℕ) (x : DriverStep) (s : Driver)
      → HasCalmHandlers x
      → IsSound s
      → IsSound (drive plan tick_ms x s)
  unfolding drive
  drive-IsSound tick_ms (call now c) s calm sound = command-IsSound tick_ms now c s sound
  drive-IsSound tick_ms (timer_ran now h reactions) s calm sound =
      fire-IsSound tick_ms now h reactions s calm sound

  pub drive_all-IsSound :
      (tick_ms : ℕ) (xs : List DriverStep) (s : Driver)
      → All HasCalmHandlers xs
      → IsSound s
      → IsSound (drive_all plan tick_ms xs s)
  unfolding drive_all
  drive_all-IsSound tick_ms [] s calm sound = sound
  drive_all-IsSound tick_ms (x ∷ xs) s (calm, rest) sound =
      drive_all-IsSound tick_ms xs _ rest (drive-IsSound tick_ms x s calm sound)

  pub install-IsSound : (tick_ms now : ℕ) → IsSound (install plan tick_ms now)
  unfolding install Between Fired
  install-IsSound tick_ms now =
      schedule-IsSound tick_ms now 0
        (record {
          next_index = 0;
          pending_handle = none;
          tick_started_at = 0;
          remaining_ms = 0;
          paused_flag = false;
          disposed = false;
          handlers = [];
          timers = [];
          next_handle = 0;
          fanned = [];
        })
        (refl, refl, refl) (refl, omega arith)
