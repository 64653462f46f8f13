-- ===== src/Scenario/Tabs/Steps/Savable.antt =====
-- tabs/StepsTab.tsx and the validator: the steps of a draft under the edits of the tab.
use ocs_testbench.Common.{
  Option, ℕ, zero, suc, ◌<◌, ◌≡◌, refl, subst, inl, inr, false, ◌||◌, List, [], ◌∷◌, none, some,
  map, length, get_elem?, leb, ◌==◌, All, All-append, arith, Bool-cases,
}
use ocs_testbench.Scenario.{SessionMode, session, event, ScenarioStep, Scenario}
use ocs_testbench.Scenario.Draft.{mutate, set_steps}
use ocs_testbench.Scenario.Draft.Modes.{step_input, validate_input}
use ocs_testbench.Scenario.Validators.{validate_scenario, is_legal_request_type}
use ocs_testbench.Scenario.Validators.Legal.{IsLegalStep, validate_scenario-eq-nil_iff}
use ocs_testbench.Scenario.Tabs.Steps.{
  default_step, remove_step_at, update_step_at, clamped, StepsView, StepsAction, select, move_to,
  add_step, remove_step, change_step, StepEdit, choose_type, edit_step, edited_at, act, act_all,
}
use ocs_testbench.Scenario.Tabs.Steps.Moved.{put_in, MovesItems}

abbrev pub AreLegal : SessionMode → List ScenarioStep → Type 0
AreLegal mode steps = All (λ s. IsLegalStep mode (step_input s)) steps

All-step_inputs :
    (mode : SessionMode) (steps : List ScenarioStep)
    → AreLegal mode steps
    → All (IsLegalStep mode) (map step_input steps)
All-step_inputs mode [] h = h
All-step_inputs mode (s ∷ ss) (l, h) = (l, All-step_inputs mode ss h)

All-of_inputs :
    (mode : SessionMode) (steps : List ScenarioStep)
    → All (IsLegalStep mode) (map step_input steps)
    → AreLegal mode steps
All-of_inputs mode [] h = h
All-of_inputs mode (s ∷ ss) (l, h) = (l, All-of_inputs mode ss h)

default_legal : (mode : SessionMode) → IsLegalStep mode (step_input (default_step mode))
unfolding default_step is_legal_request_type
default_legal session t p q = ground arith
default_legal event t p q = ground arith

module _ {κ} (P : ScenarioStep → Type κ) where
  All-remove : (i : ℕ) (ss : List ScenarioStep) → All P ss → All P (remove_step_at i ss)
  unfolding remove_step_at
  All-remove i [] h = h
  All-remove zero (s ∷ ss) h = h.1
  All-remove (suc i) (s ∷ ss) h = (h.0, All-remove i ss h.1)

  All-update :
      (i : ℕ) (step : ScenarioStep) (ss : List ScenarioStep)
      → P step
      → All P ss
      → All P (update_step_at i step ss)
  unfolding update_step_at
  All-update i step [] p h = h
  All-update zero step (s ∷ ss) p h = (p, h.1)
  All-update (suc i) step (s ∷ ss) p h = (h.0, All-update i step ss p h.1)

  All-put :
      (j : ℕ) (x : ScenarioStep) (ss : List ScenarioStep) → P x → All P ss → All P (put_in j x ss)
  All-put j x [] p h = (p, h)
  All-put zero x (s ∷ ss) p h = (p, h)
  All-put (suc j) x (s ∷ ss) p h = (h.0, All-put j x ss p h.1)

  All-get :
      (i : ℕ) (x : ScenarioStep) (ss : List ScenarioStep) → get_elem? ss i ≡ some x → All P ss → P x
  All-get i x [] e h = cc
  All-get zero x (s ∷ ss) e h = subst P (cc) (h.0)
  All-get (suc i) x (s ∷ ss) e h = All-get i x ss e h.1

edit_step-IsLegal :
    (mode : SessionMode) (e : StepEdit) (step : ScenarioStep)
    → IsLegalStep mode (step_input step)
    → IsLegalStep mode (step_input (edit_step mode e step))
unfolding edit_step
edit_step-IsLegal mode (choose_type t) step h = elim (Bool-cases (is_legal_request_type mode t)) [
  | inl legal ↦ rw legal (λ u k q. cc)
  | inr other ↦ rw other h
]
edit_step-IsLegal mode e step h = h

edited-AreLegal :
    (array_move : List ScenarioStep → ℕ → ℕ → List ScenarioStep) (mode : SessionMode) (i : ℕ)
    (e : StepEdit) (steps : List ScenarioStep) (o : Option ScenarioStep)
    → get_elem? steps i ≡ o
    → AreLegal mode steps
    → AreLegal mode (edited_at array_move mode i e o steps)
unfolding edited_at
edited-AreLegal array_move mode i e steps none at h = h
edited-AreLegal array_move mode i e steps (some step) at h =
    All-update (λ s. IsLegalStep mode (step_input s)) i (edit_step mode e step) steps
      (edit_step-IsLegal mode e step
        (All-get (λ s. IsLegalStep mode (step_input s)) i step steps at h))
      h

-- A move starts at a row.
abbrev pub Fits : SessionMode → StepsAction → StepsView → Type 0
Fits mode (move_to from to) v = (x : ScenarioStep) × (get_elem? v.steps from ≡ some x)
Fits mode a v = Unit {0}

module _ (array_move : List ScenarioStep → ℕ → ℕ → List ScenarioStep) (mode : SessionMode) where
  abbrev pub AllFit : List StepsAction → StepsView → Type 0
  unfolding act
  AllFit [] v = Unit {0}
  AllFit (a ∷ actions) v = Fits mode a v × AllFit actions (act array_move mode a v)

module _ (array_move : List ScenarioStep → ℕ → ℕ → List ScenarioStep)
    (moves : MovesItems array_move) (mode : SessionMode) where
  act-AreLegal :
      (a : StepsAction) (v : StepsView)
      → Fits mode a v
      → AreLegal mode v.steps
      → AreLegal mode (act array_move mode a v).steps
  unfolding act
  act-AreLegal (select i) v f h = h
  act-AreLegal (move_to from none) v f h = h
  act-AreLegal (move_to from (some to)) v (x, at) h =
      elim (Bool-cases ((from == to) || leb (length v.steps) to)) [
        | inl stays ↦ rw stays h
        | inr goes ↦ rw goes (
            rw (moves v.steps from to x at (inside from to goes)) (
              All-put (λ s. IsLegalStep mode (step_input s)) to x (remove_step_at from v.steps)
                (All-get (λ s. IsLegalStep mode (step_input s)) from x v.steps at h)
                (All-remove (λ s. IsLegalStep mode (step_input s)) from v.steps h)))
      ]
    where
      inside : (i j : ℕ) → ((i == j) || leb (length v.steps) j) ≡ false → j < length v.steps
      inside i j e = ground arith
  act-AreLegal add_step v f h =
      All-append (λ s. IsLegalStep mode (step_input s)) v.steps (default_step mode ∷ []) h
        (default_legal mode, tt)
  act-AreLegal (remove_step i) v f h = All-remove (λ s. IsLegalStep mode (step_input s)) i v.steps h
  act-AreLegal (change_step e) v f h =
      edited-AreLegal array_move mode (clamped v.steps v.selected) e v.steps
        (get_elem? v.steps (clamped v.steps v.selected)) refl h

  act_all-AreLegal :
      (actions : List StepsAction) (v : StepsView)
      → AllFit array_move mode actions v
      → AreLegal mode v.steps
      → AreLegal mode (act_all array_move mode actions v).steps
  unfolding act_all AllFit
  act_all-AreLegal [] v f h = h
  act_all-AreLegal (a ∷ actions) v (f, fs) h =
      act_all-AreLegal actions (act array_move mode a v) fs (act-AreLegal a v f h)

abbrev pub view_of : Scenario → ℕ → StepsView
view_of d selected = record { steps = d.steps; selected = selected }

-- From a draft with no issue, any run of adding, removing, moving and editing steps on the tab gives a
-- draft with no issue, if moves start at rows and `arrayMove` takes an item out and puts it at its
-- new place.
pub act_all-savable :
    (array_move : List ScenarioStep → ℕ → ℕ → List ScenarioStep)
    → MovesItems array_move
    → (d : Scenario) (selected : ℕ) (actions : List StepsAction)
    → AllFit array_move d.session_mode actions (view_of d selected)
    → validate_scenario (validate_input d) ≡ []
    → validate_scenario (
        validate_input (
          mutate
            (set_steps (act_all array_move d.session_mode actions (view_of d selected)).steps)
            d))
      ≡ []
unfolding mutate
act_all-savable array_move moves d selected actions fits ok =
    let v = view_of d selected in
    let next = (act_all array_move d.session_mode actions v).steps in
    let savable = (validate_scenario-eq-nil_iff (validate_input d)).0 ok in
    (validate_scenario-eq-nil_iff (validate_input (record d { steps = next }))).1 (record {
      allowed = savable.allowed;
      rated = savable.rated;
      legal = All-step_inputs d.session_mode next (
          act_all-AreLegal array_move moves d.session_mode actions v fits
            (All-of_inputs d.session_mode d.steps savable.legal));
    })
