-- ===== src/Scenario/History.antt =====
-- web/src/pages/scenarios/history.ts: the bounded undo and redo stacks.
-- A stack has its newest snapshot at the head, so `push` is `∷`, `pop` takes the head and `shift`
-- drops the last item. `structuredClone` gives an equal value, and values are not shared here.
pub mod Bounds
pub mod Inverse
use ocs_testbench.Common.{
  ℕ, zero, suc, Bool, List, [], ◌∷◌, Option, none, some, length, ltb, if◌then◌else◌,
}

-- `HISTORY_CAPACITY`
abbrev pub history_capacity : ℕ
history_capacity = 100

pub record HistoryStacks {ℓ} (A : Type ℓ) : Type ℓ where
  pub undo : List A
  pub redo : List A

module _ {ℓ} {A : Type ℓ} where
  -- `Array.prototype.shift`
  unfoldable pub shift : List A → List A
  shift [] = []
  shift (x ∷ []) = []
  shift (x ∷ y ∷ xs) = x ∷ shift (y ∷ xs)

  -- `while (xs.length > HISTORY_CAPACITY) xs.shift();`, on fuel.
  unfoldable pub trim_from : ℕ → List A → List A
  trim_from zero xs = xs
  trim_from (suc fuel) xs =
      let rest = trim_from fuel (shift xs) in if ltb history_capacity (length xs) then rest else xs

  -- Each round drops an item, so the length is fuel enough.
  unfoldable pub trim : List A → List A
  unfolding trim_from
  trim xs = trim_from (length xs) xs

  unfoldable pub create_history : HistoryStacks A
  create_history = record { undo = []; redo = [] }

  unfoldable pub record_snapshot : A → HistoryStacks A → HistoryStacks A
  record_snapshot snapshot h = record { undo = trim (snapshot ∷ h.undo); redo = [] }

  abbrev undo_from : List A → List A → A → Option (A × HistoryStacks A)
  undo_from [] redos current = none
  undo_from (entry ∷ undos) redos current =
      some (entry, record { undo = undos; redo = trim (current ∷ redos) })

  -- `none` is the `null` of an empty stack, where nothing changes.
  unfoldable pub undo : A → HistoryStacks A → Option (A × HistoryStacks A)
  undo current h = undo_from h.undo h.redo current

  abbrev redo_from : List A → List A → A → Option (A × HistoryStacks A)
  redo_from undos [] current = none
  redo_from undos (entry ∷ redos) current =
      some (entry, record { undo = trim (current ∷ undos); redo = redos })

  unfoldable pub redo : A → HistoryStacks A → Option (A × HistoryStacks A)
  redo current h = redo_from h.undo h.redo current

  unfoldable pub clear : HistoryStacks A → HistoryStacks A
  clear h = record { undo = []; redo = [] }

  unfoldable pub can_undo : HistoryStacks A → Bool
  can_undo h = ltb 0 (length h.undo)

  unfoldable pub can_redo : HistoryStacks A → Bool
  can_redo h = ltb 0 (length h.redo)
