-- ===== src/Scenario/Tabs/Steps/Moved.antt =====
-- tabs/StepsTab.tsx: the order of the list and the selection under moves.
use ocs_testbench.Common.{
  ℕ, zero, suc, ◌≤◌, ◌<◌, ◌≡◌, ◌≢◌, refl, sym, ap, ◌∙◌, inl, inr, false, List, [], ◌∷◌, Option,
  some, length, get_elem?, leb, ◌==◌, ==_iff, arith, if◌then◌else◌, Bool-cases,
}
use ocs_testbench.Scenario.{SessionMode, ScenarioStep}
use ocs_testbench.Scenario.Tabs.Steps.{clamped, remove_step_at, StepsView, move_to, act}

abbrev pub put_in : ℕ → ScenarioStep → List ScenarioStep → List ScenarioStep
put_in j x [] = x ∷ []
put_in zero x (y ∷ ys) = x ∷ y ∷ ys
put_in (suc j) x (y ∷ ys) = y ∷ put_in j x ys

-- What the drag-and-drop library says of `arrayMove`: the item is taken out and put at its new place.
abbrev pub MovesItems : (List ScenarioStep → ℕ → ℕ → List ScenarioStep) → Type 0
MovesItems array_move =
    (xs : List ScenarioStep) (from to : ℕ) (x : ScenarioStep)
    → get_elem? xs from ≡ some x
    → to < length xs
    → array_move xs from to ≡ put_in to x (remove_step_at from xs)

put-remove :
    (i : ℕ) (x : ScenarioStep) (xs : List ScenarioStep)
    → get_elem? xs i ≡ some x
    → put_in i x (remove_step_at i xs) ≡ xs
unfolding remove_step_at
put-remove i x [] h = cc
put-remove zero x (y ∷ []) h = ground arith
put-remove zero x (y ∷ z ∷ ys) h = ground arith
put-remove (suc i) x (y ∷ ys) h = ap (λ l. y ∷ l) (put-remove i x ys h)

get-put :
    (j : ℕ) (x : ScenarioStep) (xs : List ScenarioStep)
    → j ≤ length xs
    → get_elem? (put_in j x xs) j ≡ some x
get-put zero x [] h = refl
get-put (suc j) x [] h = absurd (omega arith)
get-put zero x (y ∷ ys) h = refl
get-put (suc j) x (y ∷ ys) h = get-put j x ys (omega arith)

remove-put :
    (j : ℕ) (x : ScenarioStep) (xs : List ScenarioStep)
    → j ≤ length xs
    → remove_step_at j (put_in j x xs) ≡ xs
unfolding remove_step_at
remove-put zero x [] h = refl
remove-put (suc j) x [] h = absurd (omega arith)
remove-put zero x (y ∷ ys) h = refl
remove-put (suc j) x (y ∷ ys) h = ap (λ l. y ∷ l) (remove-put j x ys (omega arith))

length-put :
    (j : ℕ) (x : ScenarioStep) (xs : List ScenarioStep) → length (put_in j x xs) ≡ suc (length xs)
length-put j x [] = refl
length-put zero x (y ∷ ys) = refl
length-put (suc j) x (y ∷ ys) = ap suc (length-put j x ys)

length-remove :
    (i : ℕ) (x : ScenarioStep) (xs : List ScenarioStep)
    → get_elem? xs i ≡ some x
    → suc (length (remove_step_at i xs)) ≡ length xs
unfolding remove_step_at
length-remove i x [] h = cc
length-remove zero x (y ∷ ys) h = refl
length-remove (suc i) x (y ∷ ys) h = ap suc (length-remove i x ys h)

get-lt :
    (i : ℕ) (x : ScenarioStep) (xs : List ScenarioStep) → get_elem? xs i ≡ some x → i < length xs
get-lt i x [] h = cc
get-lt zero x (y ∷ ys) h = omega arith
get-lt (suc i) x (y ∷ ys) h = omega (arith, get-lt i x ys h)

clamped_inside : (xs : List ScenarioStep) (k : ℕ) → k < length xs → clamped xs k ≡ k
unfolding clamped
clamped_inside xs k h = ground arith

-- The step that the editor shows.
abbrev pub shown : StepsView → Option ScenarioStep
shown v = get_elem? v.steps (clamped v.steps v.selected)

not_same : (a b : ℕ) → a ≢ b → (a == b) ≡ false
not_same a b h = elim (Bool-cases (a == b)) [ inl e ↦ absurd (h ((==_iff a b).0 e)) | inr e ↦ e ]

not_past : (n i : ℕ) → i < n → leb n i ≡ false
not_past n i h = ground arith

module _ (array_move : List ScenarioStep → ℕ → ℕ → List ScenarioStep)
    (moves : MovesItems array_move) (mode : SessionMode) where
  module _ (v : StepsView) (from to : ℕ) (x : ScenarioStep) (at : get_elem? v.steps from ≡ some x)
      (inside : to < length v.steps) where
    act_move :
        from ≢ to
        → act array_move mode (move_to from (some to)) v ≡ record {
          steps = put_in to x (remove_step_at from v.steps);
          selected = if clamped v.steps v.selected == from then to else v.selected;
        }
    unfolding act
    act_move differ =
        rw
          (
            not_same from to differ,
            not_past (length v.steps) to inside,
            moves v.steps from to x at inside,
          )
          refl

    room : to ≤ length (remove_step_at from v.steps)
    room = omega (arith, length-remove from x v.steps at)

    length_kept : length (put_in to x (remove_step_at from v.steps)) ≡ length v.steps
    length_kept = length-put to x (remove_step_at from v.steps) ∙ length-remove from x v.steps at

    abbrev moved_view : ℕ → StepsView
    moved_view k = record { steps = put_in to x (remove_step_at from v.steps); selected = k }

    stands : get_elem? (put_in to x (remove_step_at from v.steps)) to ≡ some x
    stands = get-put to x (remove_step_at from v.steps) room

    restored :
        put_in from x (remove_step_at to (put_in to x (remove_step_at from v.steps))) ≡ v.steps
    restored =
        ap (put_in from x) (remove-put to x (remove_step_at from v.steps) room)
        ∙ put-remove from x v.steps at

    from_inside : from < length (put_in to x (remove_step_at from v.steps))
    from_inside = omega (arith, length_kept, get-lt from x v.steps at)

    to_inside : to < length (put_in to x (remove_step_at from v.steps))
    to_inside = omega (arith, length_kept, inside)

  act_back :
      (v : StepsView) (from to : ℕ) (x : ScenarioStep) (k : ℕ)
      (at : get_elem? v.steps from ≡ some x) (inside : to < length v.steps)
      → to ≢ from
      → act array_move mode (move_to to (some from)) (moved_view v from to x at inside k) ≡ record {
        steps = v.steps;
        selected = if clamped (put_in to x (remove_step_at from v.steps)) k == to then from else k;
      }
  act_back v from to x k at inside differ =
      act_move (moved_view v from to x at inside k) to from x (stands v from to x at inside)
        (from_inside v from to x at inside) differ
      ∙ rw (restored v from to x at inside) refl

  selected_back :
      (v : StepsView) (from to : ℕ) (x : ScenarioStep) (at : get_elem? v.steps from ≡ some x)
      (inside : to < length v.steps)
      → from ≢ to
      → v.selected ≡ from
      → (let after = act array_move mode (move_to from (some to)) v in
          (shown after ≡ some x) × (act array_move mode (move_to to (some from)) after ≡ v))
  selected_back v from to x at inside differ sel =
      let list = put_in to x (remove_step_at from v.steps) in
      let first = act_move v from to x at inside differ in
      let k = if clamped v.steps v.selected == from then to else v.selected in
      let k_is : k ≡ to =
        ap (λ c. if c == from then to else v.selected)
          (ap (clamped v.steps) sel ∙ clamped_inside v.steps from (get-lt from x v.steps at))
        ∙ rw ((==_iff from from).1 refl) refl in
      let at_to = clamped_inside list to (to_inside v from to x at inside) in
      (
        ap shown first
            ∙ ap (λ m. get_elem? list (clamped list m)) k_is
            ∙ ap (get_elem? list) at_to
            ∙ stands v from to x at inside,
        ap (act array_move mode (move_to to (some from))) first
            ∙ act_back v from to x k at inside (λ e. differ (sym e))
            ∙ ap (λ (m : ℕ). record { steps = v.steps; selected = m })
                (ap (λ c. if c == to then from else k) (ap (clamped list) k_is ∙ at_to)
                  ∙ rw ((==_iff to to).1 refl) (sym sel)),
      )

  -- A step that is moved to another place stands there, and moving it back gives the list of before.
  -- If it was the selected step it stays selected, and moving it back restores the selection too.
  pub act-move_back :
      (v : StepsView) (from to : ℕ) (x : ScenarioStep)
      → get_elem? v.steps from ≡ some x
      → to < length v.steps
      → from ≢ to
      → (let after = act array_move mode (move_to from (some to)) v in
          let back = act array_move mode (move_to to (some from)) after in
          (get_elem? after.steps to ≡ some x)
          × (back.steps ≡ v.steps)
          × (v.selected ≡ from → (shown after ≡ some x) × (back ≡ v)))
  act-move_back v from to x at inside differ =
      let first = act_move v from to x at inside differ in
      let k = if clamped v.steps v.selected == from then to else v.selected in
      let second = act_back v from to x k at inside (λ e. differ (sym e)) in
      (
        rw first (stands v from to x at inside),
        ap (λ w. (act array_move mode (move_to to (some from)) w).steps) first
            ∙ ap (λ w. w.steps) second,
        λ sel. selected_back v from to x at inside differ sel,
      )

  -- A move of the step below the selected one to the selected place takes the selection away from the
  -- step that was selected: the moved step is shown.
  pub act-move_jumps :
      (v : StepsView) (k : ℕ) (x : ScenarioStep)
      → v.selected ≡ k
      → get_elem? v.steps (suc k) ≡ some x
      → shown (act array_move mode (move_to (suc k) (some k)) v) ≡ some x
  act-move_jumps v k x sel at =
      let below : k < length v.steps = omega (arith, get-lt (suc k) x v.steps at) in
      let list = put_in k x (remove_step_at (suc k) v.steps) in
      let differ : suc k ≢ k = λ e. absurd (omega (arith, e)) in
      let stays : (if clamped v.steps v.selected == suc k then k else v.selected) ≡ k =
        ap (λ c. if c == suc k then k else v.selected)
          (ap (clamped v.steps) sel ∙ clamped_inside v.steps k below)
        ∙ rw (not_same k (suc k) (λ e. absurd (omega (arith, e)))) sel in
      ap shown (act_move v (suc k) k x at below differ)
      ∙ ap (λ m. get_elem? list (clamped list m)) stays
      ∙ ap (get_elem? list) (clamped_inside list k (to_inside v (suc k) k x at below))
      ∙ stands v (suc k) k x at below
