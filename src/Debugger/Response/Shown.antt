-- ===== src/Debugger/Response/Shown.antt =====
-- The step whose response is shown.
use ocs_testbench.Common.{
  ℕ, zero, suc, ◌≤◌, ◌≡◌, refl, sym, ◌∙◌, ap, arith, subst, leb, true, List, [], ◌∷◌, Option, none,
  some, map, min, length, length-map, get_elem?, inl, inr, Bool-cases, Option-cases, if◌then◌else◌,
}
use ocs_testbench.Execution.{Execution, StepRecord}
use ocs_testbench.Debugger.Store.{
  ExecutionStoreState, ingest_snapshot, is_terminal, last_completed_below, is_completed,
}
use ocs_testbench.Debugger.Store.{record_completed}
use ocs_testbench.Debugger.Actions.{view_historical}
use ocs_testbench.Debugger.Response.{
  record_at, last_completed_down, last_completed_step, pick_candidate, pick_displayed_step,
  click_action,
}

record_at-map : (xs : List StepRecord) (i : ℕ) → record_at (map some xs) i ≡ get_elem? xs i
record_at-map [] i = refl
record_at-map (x ∷ xs) zero = refl
record_at-map (x ∷ xs) (suc i) = record_at-map xs i

abbrev found_at : List StepRecord → Option ℕ → Option StepRecord
found_at xs none = none
found_at xs (some i) = get_elem? xs i

-- The store's loop for the index and the pane's loop for the record agree.
down-below :
    (xs : List StepRecord) (k : ℕ)
    → last_completed_down (map some xs) k ≡ found_at xs (last_completed_below xs k)
unfolding last_completed_down last_completed_below
down-below xs zero = refl
down-below xs (suc i) = elim (Option-cases (get_elem? xs i)) [
  | inl nothing ↦ rw (record_at-map xs i ∙ nothing) (rw nothing (down-below xs i))
  | inr (r, found) ↦ elim (Bool-cases (is_completed r.state)) [
    | inl whole ↦ rw (record_at-map xs i ∙ found) (rw (found, whole) (sym found))
    | inr part ↦ rw (record_at-map xs i ∙ found) (rw (found, part) (down-below xs i))
  ]
]

-- Where no place below `n` is completed, none is below a smaller bound.
below-le :
    (xs : List StepRecord) (n k : ℕ)
    → last_completed_below xs n ≡ none
    → k ≤ n
    → last_completed_below xs k ≡ none
unfolding last_completed_below
below-le xs zero zero h le = refl
below-le xs zero (suc k) h le = absurd (omega (arith, le))
below-le xs (suc n) k h le = elim (Bool-cases (record_completed (get_elem? xs n))) [
  | inl whole ↦ cc (subst (λ b. (if b then some n else last_completed_below xs n) ≡ none) whole h)
  | inr part ↦
      let rest : last_completed_below xs n ≡ none =
        subst (λ b. (if b then some n else last_completed_below xs n) ≡ none) part h in
      elim (Bool-cases (leb k n)) [
        | inl small ↦ below-le xs n k rest (ground (arith, small))
        | inr large ↦
            let top : k ≡ suc n = ground (arith, large, le) in ap (last_completed_below xs) top ∙ h
      ]
]

below_found :
    (xs : List StepRecord) (n i : ℕ)
    → last_completed_below xs n ≡ some i
    → (r : StepRecord) × (get_elem? xs i ≡ some r)
unfolding last_completed_below
below_found xs zero i h = cc
below_found xs (suc n) i h = elim (Option-cases (get_elem? xs n)) [
  | inl nothing ↦ below_found xs n i (
      subst (λ o. (if record_completed o then some n else last_completed_below xs n) ≡ some i)
        nothing h)
  | inr (r, found) ↦ elim (Bool-cases (record_completed (get_elem? xs n))) [
    | inl whole ↦
        let here : some n ≡ some i =
          subst (λ b. (if b then some n else last_completed_below xs n) ≡ some i) whole h in
        let at : n ≡ i = cc in (r, subst (λ j. get_elem? xs j ≡ some r) at found)
    | inr part ↦
        below_found xs n i
          (subst (λ b. (if b then some n else last_completed_below xs n) ≡ some i) part h)
  ]
]

last_completed_step-map :
    (xs : List StepRecord) (c : ℕ)
    → last_completed_step (map some xs) c
      ≡ found_at xs (last_completed_below xs (min c (length xs)))
unfolding last_completed_step
last_completed_step-map xs c =
    ap (λ n. last_completed_down (map some xs) (min c n)) (length-map some xs)
    ∙ down-below xs (min c (length xs))

last_completed_step-all :
    (xs : List StepRecord)
    → last_completed_step (map some xs) (length (map some xs))
      ≡ found_at xs (last_completed_below xs (length xs))
last_completed_step-all xs =
    last_completed_step-map xs (length (map some xs))
    ∙ ap (λ n. found_at xs (last_completed_below xs n))
        (ap (λ n. min n (length xs)) (length-map some xs) ∙ omega arith)

module _ {ℓ} {P : Type ℓ} where
  -- After a snapshot of an ended execution the last completed of all its steps is shown, wherever
  -- the snapshot's cursor stands; nothing is shown only if no step was completed.
  pub pick_displayed-ingest_snapshot :
      (e : Execution) (s : ExecutionStoreState P)
      → is_terminal e.state ≡ true
      → let t = ingest_snapshot e s in
        pick_displayed_step t.steps t.cursor t.historical_index
        ≡ last_completed_step t.steps (length t.steps)
  unfolding ingest_snapshot pick_displayed_step
  pick_displayed-ingest_snapshot e s ended =
      rw ended (elim (Option-cases (last_completed_below e.steps (length e.steps))) [
        | inl nothing ↦ rw nothing (
            last_completed_step-map e.steps e.current_step
            ∙ ap (found_at e.steps) (
                below-le e.steps (length e.steps) (min e.current_step (length e.steps)) nothing
                  (omega arith))
            ∙ sym (last_completed_step-all e.steps ∙ ap (found_at e.steps) nothing))
        | inr (i, chosen) ↦ rw chosen (
            let (r, found) = below_found e.steps (length e.steps) i chosen in
            ap (λ o. pick_candidate o (last_completed_step (map some e.steps) e.current_step))
              (record_at-map e.steps i ∙ found)
            ∙ sym (last_completed_step-all e.steps ∙ ap (found_at e.steps) chosen ∙ found))
      ])

  -- A click on a row that does something shows that row's record, which is there.
  pub pick_displayed-click_action :
      (s : ExecutionStoreState P) (i j : ℕ)
      → click_action (record_at s.steps i) i ≡ some j
      → let t = view_historical (some j) s in
        (r : StepRecord) × (record_at s.steps i ≡ some r)
        × (pick_displayed_step t.steps t.cursor t.historical_index ≡ some r)
  unfolding click_action view_historical pick_displayed_step
  pick_displayed-click_action s i j h = elim (Option-cases (record_at s.steps i)) [
    | inl nothing ↦ cc (subst (λ o. click_action o i ≡ some j) nothing h)
    | inr (r, found) ↦
        let taken : (if is_completed r.state then some i else none) ≡ some j =
          subst (λ o. click_action o i ≡ some j) found h in
        let at : i ≡ j = ground (arith, taken) in
        (
          r,
          found,
          ap (λ o. pick_candidate o (last_completed_step s.steps s.cursor))
              (ap (record_at s.steps) (sym at) ∙ found),
        )
  ]
