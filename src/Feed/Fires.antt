-- ===== src/Feed/Fires.antt =====
-- How far the driver gets in its plan.
use ocs_testbench.Common.{
  ℕ, zero, suc, ◌+◌, ◌-◌, ◌≤◌, ◌<◌, ◌≡◌, ◌≢◌, refl, sym, ap, ◌∙◌, subst, inl, inr, true, false, leb,
  ltb, if◌then◌else◌, List, [], ◌∷◌, some, map, length, take, take_all, arith, All, if_either,
}
use ocs_testbench.Feed.{DriverEvent}
use ocs_testbench.Feed.Driver.{
  Timer, Driver, DriverStep, schedule_next, pause_driver, resume_driver, fire, run_timers,
  first_runs, has_timer, cleared, clear_pending, drive_all, install,
}
use ocs_testbench.Feed.Sound.{
  HasCalmHandlers, IsSound, Armed, Idle, Fired, cleared-nil, stopped, Armed-next, Armed-going,
  fire-IsSound, drive_all-IsSound, install-IsSound,
}

head_timer : (t : Timer) (ts us : List Timer) → us ≡ t ∷ ts → has_timer t.handle us ≢ false
head_timer t ts us e = subst (λ v. has_timer t.handle v ≢ false) (sym e) (λ lost. ground arith)

-- When the first timer is due.
abbrev first_due : List Timer → ℕ
first_due [] = 0
first_due (t ∷ ts) = t.due

module _ (plan : List DriverEvent) where
  -- Whatever calls and timers come, if no handler pauses or resumes the driver from inside an
  -- event, the driver has fired the first events of its plan, in order and each once.
  pub fired-take :
      (tick_ms now : ℕ) (xs : List DriverStep)
      → All HasCalmHandlers xs
      → let s : Driver = drive_all plan tick_ms xs (install plan tick_ms now) in
        map (λ f. f.0) s.fanned ≡ map some (take s.next_index plan)
  unfolding IsSound Fired
  fired-take tick_ms now xs calm =
      (drive_all-IsSound plan tick_ms xs (install plan tick_ms now) calm
        (install-IsSound plan tick_ms now)).1.0

  one_timer_lem :
      (s : Driver) → IsSound plan s → length s.timers + (if s.paused_flag then 1 else 0) ≤ 1
  unfolding IsSound Armed Idle
  one_timer_lem s (inl (g, pending, timers, going), fired) =
      rw (timers, (Armed-going plan s (g, pending, timers, going)).0) (omega arith)
  one_timer_lem s (inr (none_set, no_timer, held), fired) = rw no_timer (ground arith)

  -- Under the same condition, at most one timer is set, and none while the driver is paused.
  pub one_timer :
      (tick_ms now : ℕ) (xs : List DriverStep)
      → All HasCalmHandlers xs
      → let s : Driver = drive_all plan tick_ms xs (install plan tick_ms now) in
        length s.timers + (if s.paused_flag then 1 else 0) ≤ 1
  unfolding IsSound Armed Idle
  one_timer tick_ms now xs calm =
      one_timer_lem (drive_all plan tick_ms xs (install plan tick_ms now)) (
        drive_all-IsSound plan tick_ms xs (install plan tick_ms now) calm
          (install-IsSound plan tick_ms now))

  -- Nothing is to come of a live driver but its next event.
  Live : Driver → Type 0
  Live s = IsSound plan s × (s.paused_flag ≡ false) × (s.disposed ≡ false)

  fire-Live :
      (tick_ms : ℕ) (s : Driver) (t : Timer) (ts : List Timer)
      → s.timers ≡ t ∷ ts
      → Live s
      → Live (fire plan tick_ms t.due t.handle [] s)
        × ((fire plan tick_ms t.due t.handle [] s).next_index ≡ s.next_index + 1)
  unfolding Live fire schedule_next
  fire-Live tick_ms s t ts e (sound, going, here) =
      let (paused, live, next) =
        if_either
          (λ (u : Driver).
            (u.paused_flag ≡ false) × (u.disposed ≡ false) × (u.next_index ≡ s.next_index + 1))
          (has_timer t.handle s.timers) _ s
          (λ found.
            if_either
              (λ (u : Driver).
                (u.paused_flag ≡ false) × (u.disposed ≡ false) × (u.next_index ≡ s.next_index + 1))
              _ _ _ (λ a. (going, here, refl)) (λ a. (going, here, refl)))
          (λ lost. absurd (head_timer t ts s.timers e lost)) in
      ((fire-IsSound plan tick_ms t.due t.handle [] s tt sound, paused, live), next)

  Out : Driver → Type 0
  Out e = (map (λ f. f.0) e.fanned ≡ map some plan) × (e.timers ≡ [])

  over :
      (s : Driver) (count : ℕ)
      → stopped plan s ≡ true
      → s.paused_flag ≡ false
      → s.disposed ≡ false
      → length plan ≤ s.next_index + count
  unfolding stopped
  over s count held going here = ground arith

  run_timers-Out :
      (tick_ms count : ℕ) (s : Driver)
      → Live s
      → length plan ≤ s.next_index + count
      → Out (run_timers plan tick_ms count s)
  unfolding run_timers Live Out IsSound Fired Idle Armed fire
  run_timers-Out tick_ms zero s ((inl armed, fired), going, here) h =
      let soon : s.next_index < length plan = Armed-next plan s armed in absurd (omega arith)
  run_timers-Out tick_ms zero s ((inr (none_set, no_timer, held), (log, bound)), going, here) h =
      (log ∙ ap (map some) (take_all s.next_index plan (omega arith)), no_timer)
  run_timers-Out tick_ms (suc count) s ((inl (g, pending, timers, go), fired), going, here) h =
      let t : Timer = record { handle = g; due = s.tick_started_at + s.remaining_ms } in
      let (live, next) =
        fire-Live tick_ms s t [] timers ((inl (g, pending, timers, go), fired), going, here) in
      let more =
        run_timers-Out tick_ms count (fire plan tick_ms t.due t.handle [] s) live (omega arith) in
      subst (λ u. Out (run_timers plan tick_ms count (first_runs plan tick_ms u s))) (sym timers)
        more
  run_timers-Out tick_ms (suc count) s ((inr (none_set, no_timer, held), fired), going, here) h =
      let more =
        run_timers-Out tick_ms count s ((inr (none_set, no_timer, held), fired), going, here)
          (over s count held going here) in
      subst (λ u. Out (run_timers plan tick_ms count (first_runs plan tick_ms u s))) (sym no_timer)
        more

  install-Live : (tick_ms now : ℕ) → Live (install plan tick_ms now)
  unfolding Live install schedule_next
  install-Live tick_ms now =
      let (paused, here) =
        if_either (λ (u : Driver). (u.paused_flag ≡ false) × (u.disposed ≡ false)) _ _ _
          (λ a. (refl, refl)) (λ a. (refl, refl)) in
      (install-IsSound plan tick_ms now, paused, here)

  -- With nothing called, as many timers as the plan has events fire the whole plan, in order, and
  -- no timer is left.
  pub fires_all :
      (tick_ms now : ℕ)
      → let e : Driver = run_timers plan tick_ms (length plan) (install plan tick_ms now) in
        (map (λ f. f.0) e.fanned ≡ map some plan) × (e.timers ≡ [])
  unfolding Out
  fires_all tick_ms now =
      run_timers-Out tick_ms (length plan) (install plan tick_ms now) (install-Live tick_ms now)
        (omega arith)

  put_off :
      (tick_ms at after : ℕ) (s : Driver) (t : Timer)
      → IsSound plan s
      → s.timers ≡ t ∷ []
      → s.tick_started_at ≤ at
      → at < t.due
      → (resume_driver plan tick_ms after (pause_driver plan tick_ms at s)).timers
        ≡ record { handle = s.next_handle; due = after + (t.due - at) } ∷ []
  unfolding IsSound Armed Idle stopped resume_driver pause_driver schedule_next clear_pending
  put_off tick_ms at after s t (inr (none_set, no_timer, held), fired) e h soon = cc
  put_off tick_ms at after s t (inl (g, pending, timers, going), fired) e h soon =
      let (awake, here) = Armed-going plan s (g, pending, timers, going) in
      let ahead : leb (length plan) s.next_index ≡ false = ground arith in
      let due : t.due ≡ s.tick_started_at + s.remaining_ms = ap first_due (sym e ∙ timers) in
      let left : s.remaining_ms - (at - s.tick_started_at) ≡ t.due - at = omega arith in
      let more : ltb 0 (t.due - at) ≡ true = ground arith in
      let gone : cleared s.pending_handle s.timers ≡ [] =
        cleared-nil plan s (inl (g, pending, timers, going)) in
      rw (awake, here, ahead, left, more, gone)
        (if_either
          (λ (u : Driver).
            u.timers ≡ record { handle = s.next_handle; due = after + (t.due - at) } ∷ [])
          (leb (length plan) s.next_index) _ _ (λ a. absurd (cc)) (λ a. refl))

  -- In a driver with a timer that is due later, a pause and a resume put the timer off by the time
  -- between them.
  pub pause-resume :
      (tick_ms now : ℕ) (xs : List DriverStep) (at after : ℕ) (t : Timer)
      → All HasCalmHandlers xs
      → let s : Driver = drive_all plan tick_ms xs (install plan tick_ms now) in
        s.timers ≡ t ∷ []
        → s.tick_started_at ≤ at
        → at < t.due
        → (resume_driver plan tick_ms after (pause_driver plan tick_ms at s)).timers
          ≡ record { handle = s.next_handle; due = after + (t.due - at) } ∷ []
  pause-resume tick_ms now xs at after t calm e h soon =
      let s = drive_all plan tick_ms xs (install plan tick_ms now) in
      put_off tick_ms at after s t
        (drive_all-IsSound plan tick_ms xs (install plan tick_ms now) calm
          (install-IsSound plan tick_ms now))
        e h soon
