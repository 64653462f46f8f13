-- ===== src/Scenario/History/Bounds.antt =====
-- The trimming loop, and how many snapshots the stacks hold.
use ocs_testbench.Common.{
  ℕ, zero, suc, ◌+◌, ◌≤◌, ◌≡◌, refl, List, [], ◌∷◌, some, arith, length, take, take_all, Bool-cases,
  ltb, inl, inr, sym, ◌∙◌, ap,
}
use ocs_testbench.Scenario.History.{
  HistoryStacks, history_capacity, shift, trim_from, trim, record_snapshot, undo, redo,
}

module _ {ℓ} {A : Type ℓ} where
  length-shift : (x : A) (xs : List A) → length (shift (x ∷ xs)) ≡ length xs
  unfolding shift
  length-shift x [] = refl
  length-shift x (y ∷ xs) = omega (arith, length-shift y xs)

  length-trim_from :
      (fuel : ℕ) (xs : List A) → length xs ≤ fuel → length (trim_from fuel xs) ≤ history_capacity
  unfolding trim_from
  length-trim_from zero xs h = omega arith
  length-trim_from (suc fuel) [] h = omega arith
  length-trim_from (suc fuel) (x ∷ xs) h =
      ground (arith, length-shift x xs, length-trim_from fuel (shift (x ∷ xs)))

  -- The loop ends with at most `history_capacity` items.
  pub length-trim : (xs : List A) → length (trim xs) ≤ history_capacity
  unfolding trim
  length-trim xs = length-trim_from (length xs) xs (omega arith)

  trim_from_small : (fuel : ℕ) (xs : List A) → length xs ≤ history_capacity → trim_from fuel xs ≡ xs
  unfolding trim_from
  trim_from_small zero xs h = refl
  trim_from_small (suc fuel) xs h = ground arith

  -- Nothing is dropped while there is room.
  pub trim_small : (xs : List A) → length xs ≤ history_capacity → trim xs ≡ xs
  unfolding trim
  trim_small xs h = trim_from_small (length xs) xs h

  take-shift :
      (k : ℕ) (x : A) (xs : List A) → k ≤ length xs → take k (shift (x ∷ xs)) ≡ take k (x ∷ xs)
  unfolding shift
  take-shift zero x xs h = refl
  take-shift (suc k) x [] h = absurd (omega arith)
  take-shift (suc k) x (y ∷ xs) h = ap (λ l. x ∷ l) (take-shift k y xs (omega arith))

  trim_from-eq-take :
      (fuel : ℕ) (xs : List A) → length xs ≤ fuel → trim_from fuel xs ≡ take history_capacity xs
  unfolding trim_from
  trim_from-eq-take zero [] h = refl
  trim_from-eq-take zero (x ∷ xs) h = absurd (omega arith)
  trim_from-eq-take (suc fuel) [] h = refl
  trim_from-eq-take (suc fuel) (x ∷ xs) h =
      elim (Bool-cases (ltb history_capacity (suc (length xs)))) [
        | inl over ↦ rw over (
            trim_from-eq-take fuel (shift (x ∷ xs)) (omega (arith, length-shift x xs))
            ∙ take-shift history_capacity x xs (ground arith))
        | inr fits ↦ rw fits (sym (take_all history_capacity (x ∷ xs) (ground arith)))
      ]

  -- The loop leaves the newest `history_capacity` snapshots.
  pub trim-eq-take : (xs : List A) → trim xs ≡ take history_capacity xs
  unfolding trim
  trim-eq-take xs = trim_from-eq-take (length xs) xs (omega arith)

  -- Both stacks together hold at most `history_capacity` snapshots.
  abbrev pub IsBounded : HistoryStacks A → Type 0
  IsBounded h = length h.undo + length h.redo ≤ history_capacity

  pub record-IsBounded : (s : A) (h : HistoryStacks A) → IsBounded (record_snapshot s h)
  unfolding record_snapshot
  record-IsBounded s h = omega (arith, length-trim (s ∷ h.undo))

  undo_from-IsBounded :
      (us rs : List A) (c e : A) (h' : HistoryStacks A)
      → length us + length rs ≤ history_capacity
      → undo c (record { undo = us; redo = rs }) ≡ some (e, h')
      → IsBounded h'
  unfolding undo
  undo_from-IsBounded [] rs c e h' b p = ground arith
  undo_from-IsBounded (u ∷ us) rs c e h' b p = ground (arith, trim_small (c ∷ rs))

  pub undo-IsBounded :
      (h : HistoryStacks A) (c e : A) (h' : HistoryStacks A)
      → IsBounded h
      → undo c h ≡ some (e, h')
      → IsBounded h'
  undo-IsBounded h c e h' b p = undo_from-IsBounded h.undo h.redo c e h' b p

  redo_from-IsBounded :
      (us rs : List A) (c e : A) (h' : HistoryStacks A)
      → length us + length rs ≤ history_capacity
      → redo c (record { undo = us; redo = rs }) ≡ some (e, h')
      → IsBounded h'
  unfolding redo
  redo_from-IsBounded us [] c e h' b p = ground arith
  redo_from-IsBounded us (r ∷ rs) c e h' b p = ground (arith, trim_small (c ∷ us))

  pub redo-IsBounded :
      (h : HistoryStacks A) (c e : A) (h' : HistoryStacks A)
      → IsBounded h
      → redo c h ≡ some (e, h')
      → IsBounded h'
  redo-IsBounded h c e h' b p = redo_from-IsBounded h.undo h.redo c e h' b p
