-- ===== src/Scenario/History/Inverse.antt =====
-- Undo and redo as moves along one timeline.
use mathlib.Core.List.{reverse, reverse-cons}
use ocs_testbench.Common.{◌+◌, ◌≤◌, ◌≡◌, List, [], ◌∷◌, ◌++◌, some, arith, length, append_assoc}
use ocs_testbench.Scenario.History.{HistoryStacks, history_capacity, undo, redo}
use ocs_testbench.Scenario.History.Bounds.{IsBounded, trim_small}

module _ {ℓ} {A : Type ℓ} where
  -- Every state that undo and redo can reach, oldest first, the current one in its place.
  abbrev pub timeline : A → HistoryStacks A → List A
  timeline current h = reverse h.undo ++ current ∷ h.redo

  undo_cons :
      (u c : A) (us rs : List A)
      → length (u ∷ us) + length rs ≤ history_capacity
      → undo c (record { undo = u ∷ us; redo = rs }) ≡ some (u, record { undo = us; redo = c ∷ rs })
  unfolding undo
  undo_cons u c us rs b = rw (trim_small (c ∷ rs) (omega arith))

  redo_cons :
      (r c : A) (us rs : List A)
      → length us + length (r ∷ rs) ≤ history_capacity
      → redo c (record { undo = us; redo = r ∷ rs }) ≡ some (r, record { undo = c ∷ us; redo = rs })
  unfolding redo
  redo_cons r c us rs b = rw (trim_small (c ∷ us) (omega arith))

  timeline_step :
      (u c : A) (us rs : List A)
      → timeline u (record { undo = us; redo = c ∷ rs })
        ≡ timeline c (record { undo = u ∷ us; redo = rs })
  timeline_step u c us rs = simp (reverse-cons, append_assoc)

  undo_from-inverse :
      (us rs : List A) (c e : A) (h' : HistoryStacks A)
      → length us + length rs ≤ history_capacity
      → undo c (record { undo = us; redo = rs }) ≡ some (e, h')
      → (redo e h' ≡ some (c, record { undo = us; redo = rs }))
        × (timeline e h' ≡ timeline c (record { undo = us; redo = rs }))
  unfolding undo
  undo_from-inverse [] rs c e h' b p = cc
  undo_from-inverse (u ∷ us) rs c e h' b p =
      ground (arith, undo_cons u c us rs b, redo_cons c u us rs, timeline_step u c us rs)

  redo_from-inverse :
      (us rs : List A) (c e : A) (h' : HistoryStacks A)
      → length us + length rs ≤ history_capacity
      → redo c (record { undo = us; redo = rs }) ≡ some (e, h')
      → (undo e h' ≡ some (c, record { undo = us; redo = rs }))
        × (timeline e h' ≡ timeline c (record { undo = us; redo = rs }))
  unfolding redo
  redo_from-inverse us [] c e h' b p = cc
  redo_from-inverse us (r ∷ rs) c e h' b p =
      ground (arith, redo_cons r c us rs b, undo_cons c r us rs, timeline_step c r us rs)

  -- On stacks within their joint bound an undo that finds a snapshot is taken back by redo: the
  -- state and both stacks are as before, and the timeline of reachable states is the same after it.
  pub undo-inverse :
      (h : HistoryStacks A) (c e : A) (h' : HistoryStacks A)
      → IsBounded h
      → undo c h ≡ some (e, h')
      → (redo e h' ≡ some (c, h)) × (timeline e h' ≡ timeline c h)
  undo-inverse h c e h' b p = undo_from-inverse h.undo h.redo c e h' b p

  -- On stacks within their joint bound a redo that finds a snapshot is taken back by undo: the
  -- state and both stacks are as before, and the timeline of reachable states is the same after it.
  pub redo-inverse :
      (h : HistoryStacks A) (c e : A) (h' : HistoryStacks A)
      → IsBounded h
      → redo c h ≡ some (e, h')
      → (undo e h' ≡ some (c, h)) × (timeline e h' ≡ timeline c h)
  redo-inverse h c e h' b p = redo_from-inverse h.undo h.redo c e h' b p
