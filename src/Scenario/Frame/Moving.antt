-- ===== src/Scenario/Frame/Moving.antt =====
-- avpTree.ts: moving a node among its siblings, into the group before it, and out of its parent.
-- `level_at` follows the path to an array of siblings, and `on_level` is an edit of that array in
-- the cloned tree.
use ocs_testbench.Common.{
  ℕ, ◌+◌, ◌-◌, Bool, false, not, ◌&&◌, ◌||◌, List, [], ◌∷◌, ◌++◌, Option, none, some, length, ltb,
  leb, ◌==◌, if◌then◌else◌,
}
use ocs_testbench.Scenario.{AvpNode, leaf, group, AvpTree}
use ocs_testbench.Scenario.Frame.{
  is_group_node, is_locked_avp, count, nth, put, remove, insert_at, append, swap_at, get_node_at,
  Edited, edited, type_error, with_hole,
}

-- `path.slice(0, -1)` and `path[path.length - 1]`.
abbrev pub init : List ℕ → List ℕ
init [] = []
init (i ∷ []) = []
init (i ∷ j ∷ p) = i ∷ init (j ∷ p)

abbrev pub last : List ℕ → ℕ
last [] = 0
last (i ∷ []) = i
last (i ∷ j ∷ p) = last (j ∷ p)

unfoldable pub level_at : AvpTree → List ℕ → Option AvpTree
level_at t [] = some t
level_at t (i ∷ q) = elim (nth t i) [
  | none ↦ none
  | some n ↦ elim n [ leaf inf ↦ none | group inf kids ↦ level_at kids q ]
]

unfoldable pub on_level : (AvpTree → AvpTree) → AvpTree → List ℕ → AvpTree
on_level f t [] = f t
on_level f t (i ∷ q) = elim (nth t i) [
  | none ↦ t
  | some n ↦ elim n [ leaf inf ↦ t | group inf kids ↦ put t i (group inf (on_level f kids q)) ]
]

unfoldable pub siblings_at : AvpTree → List ℕ → Option AvpTree
unfolding level_at
siblings_at t [] = none
siblings_at t (i ∷ p) = level_at t (init (i ∷ p))

abbrev pub node_locked : Option AvpNode → Bool
node_locked none = false
node_locked (some n) = is_locked_avp n

unfoldable pub parent_at : AvpTree → List ℕ → Option AvpNode
unfolding get_node_at
parent_at t p = if ltb (length p) 2 then none else get_node_at t (init p)

unfoldable pub parent_locked : AvpTree → List ℕ → Bool
unfolding parent_at is_locked_avp
parent_locked t p = node_locked (parent_at t p)

unfoldable pub can_move_up : AvpTree → List ℕ → Bool
unfolding parent_locked
can_move_up t p = ltb 0 (length p) && (ltb 0 (last p) && not (parent_locked t p))

abbrev below_last : Option AvpTree → ℕ → Bool → Bool
below_last none i free = false
below_last (some s) i free = ltb (i + 1) (count s) && free

unfoldable pub can_move_down : AvpTree → List ℕ → Bool
unfolding siblings_at parent_locked
can_move_down t p = below_last (siblings_at t p) (last p) (not (parent_locked t p))

-- The node before, which the code reads without a test that it is there.
abbrev nests : Option AvpNode → Edited Bool
nests none = type_error
nests (some prev) = edited (is_group_node prev && not (is_locked_avp prev))

abbrev indentable : Option AvpTree → ℕ → Bool → Edited Bool
indentable none i locked = edited false
indentable (some s) i locked = if i == 0 || locked then edited false else nests (nth s (i - 1))

unfoldable pub can_indent : AvpTree → List ℕ → Edited Bool
unfolding siblings_at parent_locked is_locked_avp
can_indent t p = indentable (siblings_at t p) (last p) (parent_locked t p)

unfoldable pub can_outdent : AvpTree → List ℕ → Bool
unfolding parent_locked
can_outdent t p = leb 2 (length p) && not (parent_locked t p)

-- `siblingsAt(next, path)!` and a swap of the items `a` and `a + 1`, of which the code checks only
-- one: past the end it writes `undefined`.
abbrev swapped : Option AvpTree → ℕ → AvpTree × List ℕ → Edited (AvpTree × List ℕ)
swapped none a moved = type_error
swapped (some s) a moved = if ltb (a + 1) (count s) then edited moved else with_hole

unfoldable pub move_up : AvpTree → List ℕ → Edited (AvpTree × List ℕ)
unfolding can_move_up siblings_at on_level
move_up t p =
    if not (can_move_up t p)
    then edited (t, p)
    else swapped (siblings_at t p) (last p - 1)
        (on_level (λ s. swap_at s (last p - 1)) t (init p), init p ++ (last p - 1) ∷ [])

unfoldable pub move_down : AvpTree → List ℕ → Edited (AvpTree × List ℕ)
unfolding can_move_down siblings_at on_level
move_down t p =
    if not (can_move_down t p)
    then edited (t, p)
    else swapped (siblings_at t p) (last p)
        (on_level (λ s. swap_at s (last p)) t (init p), init p ++ (last p + 1) ∷ [])

-- `siblings.splice(i, 1)` and `prev.children.push(node)`.
abbrev nest_in : AvpTree → List ℕ → ℕ → Option AvpNode → Option AvpTree → Edited (AvpTree × List ℕ)
nest_in t q a none kids = with_hole
nest_in t q a (some node) none = type_error
nest_in t q a (some node) (some kids) = edited (
  on_level (λ k. append k node) (on_level (λ s. remove s (a + 1)) t q) (q ++ a ∷ []),
  q ++ a ∷ count kids ∷ [],
)

abbrev indent_in : Option AvpTree → AvpTree → List ℕ → ℕ → Edited (AvpTree × List ℕ)
indent_in none t q i = type_error
indent_in (some s) t q i = nest_in t q (i - 1) (nth s i) (level_at t (q ++ (i - 1) ∷ []))

unfoldable pub indent : AvpTree → List ℕ → Edited (AvpTree × List ℕ)
unfolding can_indent siblings_at on_level
indent t p = elim (can_indent t p) [
  | edited allowed ↦
      if allowed then indent_in (siblings_at t p) t (init p) (last p) else edited (t, p)
  | type_error ↦ type_error
  | with_hole ↦ with_hole
]

-- `siblings.splice(i, 1)` and `grandparentChildren.splice(parentIdx + 1, 0, node)`.
abbrev outdent_in : Option AvpTree → AvpTree → List ℕ → ℕ → Edited (AvpTree × List ℕ)
outdent_in none t pp i = type_error
outdent_in (some s) t pp i = elim (nth s i) [
  | none ↦ with_hole
  | some node ↦ edited (
    on_level (λ g. insert_at g (last pp + 1) node) (on_level (λ k. remove k i) t pp) (init pp),
    init pp ++ (last pp + 1) ∷ [],
  )
]

unfoldable pub outdent : AvpTree → List ℕ → Edited (AvpTree × List ℕ)
unfolding can_outdent siblings_at on_level
outdent t p =
    if not (can_outdent t p)
    then edited (t, p)
    else outdent_in (siblings_at t p) t (init p) (last p)
