-- ===== src/Scenario/Draft/Timeline.antt =====
-- The draft store against its history: what a number of undos gives back, and the dirty flag.
use ocs_testbench.Common.{
  ℕ, zero, suc, ◌+◌, ◌-◌, ◌≤◌, min, ◌≡◌, refl, sym, ◌∙◌, ap, Bool, true, false, List, [], ◌∷◌, some,
  arith, length, length-take, subst, take, take_all, take-take, ltb,
}
use ocs_testbench.Scenario.{Scenario}
use ocs_testbench.Scenario.History.{history_capacity, trim, undo, can_undo}
use ocs_testbench.Scenario.History.Bounds.{trim-eq-take}
use ocs_testbench.Scenario.Draft.{
  ScenarioDraftState, Edit, edit, undo_last, load_scenario, mutate, back_fill, dispatch,
}

abbrev pub edit_all : List Edit → ScenarioDraftState → ScenarioDraftState
edit_all [] s = s
edit_all (e ∷ es) s = edit_all es (dispatch (edit e) s)

abbrev pub mutate_all : List Edit → Scenario → Scenario
mutate_all [] d = d
mutate_all (e ∷ es) d = mutate_all es (mutate e d)

abbrev pub undo_times : ℕ → ScenarioDraftState → ScenarioDraftState
undo_times zero s = s
undo_times (suc n) s = dispatch undo_last (undo_times n s)

abbrev state : Scenario → List Scenario → List Scenario → Bool → ScenarioDraftState
state d us rs b = record { draft = some d; dirty = b; history = record { undo = us; redo = rs } }

-- The draft and the undo stack of a state.
abbrev Holds : ScenarioDraftState → Scenario → List Scenario → Type 0
Holds s d us = (s.draft ≡ some d) × (s.history.undo ≡ us)

undo-Holds :
    (s : ScenarioDraftState) (c d : Scenario) (us : List Scenario)
    → Holds s c (d ∷ us)
    → Holds (dispatch undo_last s) d us × ((dispatch undo_last s).dirty ≡ ltb 0 (length us))
unfolding dispatch undo can_undo
undo-Holds s c d us h = ground arith

take_after_trim :
    (n : ℕ) (d : Scenario) (us : List Scenario)
    → suc n ≤ history_capacity
    → take (history_capacity - n) (trim (d ∷ us)) ≡ d ∷ take (history_capacity - suc n) us
take_after_trim n d us h =
    let e : history_capacity - n ≡ suc (history_capacity - suc n) = omega arith in
    rw (trim-eq-take (d ∷ us)) (
      take-take (history_capacity - n) history_capacity (d ∷ us) (omega arith)
      ∙ ap (λ k. take k (d ∷ us)) e)

length-trim_le : (xs : List Scenario) → length (trim xs) ≤ history_capacity
length-trim_le xs = rw (trim-eq-take xs, length-take) (omega arith)

-- As many undos as edits, at most the capacity, give back the draft.
rewind_from :
    (es : List Edit) (d : Scenario) (us rs : List Scenario) (b : Bool)
    → length es ≤ history_capacity
    → length us ≤ history_capacity
    → Holds
        (undo_times (length es) (edit_all es (state d us rs b)))
        d
        (take (history_capacity - length es) us)
unfolding dispatch
rewind_from [] d us rs b h k = (refl, sym (take_all history_capacity us k))
rewind_from (e ∷ es) d us rs b h k =
    let (draft, stack) =
      rewind_from es (mutate e d) (trim (d ∷ us)) [] true (omega arith) (length-trim_le (d ∷ us)) in
    (undo-Holds (undo_times (length es) (edit_all es (state (mutate e d) (trim (d ∷ us)) [] true)))
      (mutate e d) d (take (history_capacity - suc (length es)) us)
      (draft, stack ∙ take_after_trim (length es) d us h)).0

length_step :
    (n : ℕ) (d : Scenario) (us : List Scenario)
    → min (length (trim (d ∷ us)) + n) history_capacity ≡ min (length us + suc n) history_capacity
length_step n d us = rw (trim-eq-take (d ∷ us), length-take) (omega arith)

edit_all-Holds :
    (es : List Edit) (d : Scenario) (us rs : List Scenario) (b : Bool)
    → length us ≤ history_capacity
    → let s = edit_all es (state d us rs b) in
      (s.draft ≡ some (mutate_all es d))
      × (length s.history.undo ≡ min (length us + length es) history_capacity)
unfolding dispatch
edit_all-Holds [] d us rs b k = (refl, omega arith)
edit_all-Holds (e ∷ es) d us rs b k =
    let (draft, count) =
      edit_all-Holds es (mutate e d) (trim (d ∷ us)) [] true (length-trim_le (d ∷ us)) in
    (draft, count ∙ length_step (length es) d us)

-- `rewind_from` at any state that holds a draft.
rewind :
    (s : ScenarioDraftState) (d : Scenario) (es : List Edit)
    → s.draft ≡ some d
    → length es ≤ history_capacity
    → length s.history.undo ≤ history_capacity
    → Holds
        (undo_times (length es) (edit_all es s))
        d
        (take (history_capacity - length es) s.history.undo)
rewind s d es p h k =
    let e : s ≡ state d s.history.undo s.history.redo s.dirty = ground arith in
    subst
      (λ t.
        Holds (undo_times (length es) (edit_all es t)) d
          (take (history_capacity - length es) s.history.undo))
      (sym e) (rewind_from es d s.history.undo s.history.redo s.dirty h k)

rewind_dirty :
    (s : ScenarioDraftState) (d : Scenario) (f : Edit) (fs : List Edit)
    → s.draft ≡ some d
    → length (f ∷ fs) ≤ history_capacity
    → length s.history.undo ≤ history_capacity
    → (undo_times (length (f ∷ fs)) (edit_all (f ∷ fs) s)).dirty
      ≡ ltb 0 (length (take (history_capacity - length (f ∷ fs)) s.history.undo))
unfolding dispatch
rewind_dirty s d f fs p h k =
    let us = s.history.undo in
    let e : s ≡ state d us s.history.redo s.dirty = ground arith in
    let (draft, stack) =
      rewind_from fs (mutate f d) (trim (d ∷ us)) [] true (omega arith) (length-trim_le (d ∷ us)) in
    subst
      (λ t.
        (undo_times (length (f ∷ fs)) (edit_all (f ∷ fs) t)).dirty
        ≡ ltb 0 (length (take (history_capacity - length (f ∷ fs)) us)))
      (sym e)
      (undo-Holds
        (undo_times (length fs) (edit_all fs (state (mutate f d) (trim (d ∷ us)) [] true)))
        (mutate f d) d (take (history_capacity - suc (length fs)) us)
        (draft, stack ∙ take_after_trim (length fs) d us h)).1

-- From a loaded scenario, edits `es` and then 1 to 100 further edits, taken back by as many undos:
-- the draft is the one after `es`, and the dirty flag is set exactly if there were edits `es` and
-- the further ones were fewer than the capacity. (At 100 further edits the flag is clear, whatever
-- `es` changed.)
pub undo_times-edit_all :
    (scenario : Scenario) (s : ScenarioDraftState) (es : List Edit) (f : Edit) (fs : List Edit)
    → length (f ∷ fs) ≤ history_capacity
    → let final =
        undo_times
          (length (f ∷ fs))
          (edit_all (f ∷ fs) (edit_all es (dispatch (load_scenario scenario) s))) in
      (final.draft ≡ some (mutate_all es (back_fill scenario)))
      × (final.dirty ≡ ltb 0 (min (length es) (history_capacity - length (f ∷ fs))))
undo_times-edit_all scenario s es f fs h =
    let d = back_fill scenario in
    let start = dispatch (load_scenario scenario) s in
    let loaded : start ≡ state d [] [] false = unfold dispatch in refl in
    let (draft, count) = edit_all-Holds es d [] [] false (omega arith) in
    let mid = edit_all es (state d [] [] false) in
    let room : length mid.history.undo ≤ history_capacity = omega (arith, count) in
    let left : length (take (history_capacity - length (f ∷ fs)) mid.history.undo)
        ≡ min (length es) (history_capacity - length (f ∷ fs)) =
      length-take (history_capacity - length (f ∷ fs)) mid.history.undo ∙ omega (arith, count) in
    rw loaded (
      (rewind mid (mutate_all es d) (f ∷ fs) draft h room).0,
      rewind_dirty mid (mutate_all es d) f fs draft h room ∙ ap (λ n. ltb 0 n) left,
    )
