-- ===== src/Scenario/Frame.antt =====
-- web/src/pages/scenarios/tabs/avpTree.ts: addressing, editing and moving the nodes of an AVP tree.
-- Each operation works on a clone of the tree, so the edits in place are new trees here. An index
-- is a natural number.
pub mod Levels
pub mod Access
pub mod Moving
pub mod Paths
pub mod Moves
pub mod Nesting
use ocs_testbench.Common.{
  ℕ, zero, suc, ◌+◌, ◌-◌, ◌≤◌, String, Bool, true, false, not, ◌&&◌, ◌||◌, List, [], ◌∷◌, ◌++◌,
  Option, none, some, length, ltb, leb, ◌==◌, any, str_eq, if◌then◌else◌,
}
use ocs_testbench.Scenario.{AvpInfo, AvpNode, leaf, group, AvpTree, nil, cons, info}

unfoldable pub is_managed_avp : AvpNode → Bool
is_managed_avp n =
    any (λ s. str_eq s (info n).name)
      ("Multiple-Services-Indicator" ∷ "CC-Request-Type" ∷ "CC-Request-Number" ∷ [])

-- `=== true`
abbrev pub is_true : Option Bool → Bool
is_true (some true) = true
is_true _ = false

unfoldable pub is_locked_avp : AvpNode → Bool
is_locked_avp n = is_true (info n).locked

-- `Array.isArray(node.children)`
abbrev pub is_group_node : AvpNode → Bool
is_group_node (leaf i) = false
is_group_node (group i kids) = true

unfoldable pub is_locked_group : AvpNode → Bool
unfolding is_locked_avp
is_locked_group n = is_locked_avp n && is_group_node n

-- `node.children ?? []`
abbrev pub children : AvpNode → AvpTree
children (leaf i) = nil
children (group i kids) = kids

abbrev pub count : AvpTree → ℕ
count nil = 0
count (cons n ns) = suc (count ns)

abbrev pub nth : AvpTree → ℕ → Option AvpNode
nth nil i = none
nth (cons n ns) zero = some n
nth (cons n ns) (suc i) = nth ns i

-- `nodes[i] = n` within the array, and `nodes.splice(i, 1)`.
abbrev pub put : AvpTree → ℕ → AvpNode → AvpTree
put nil i m = nil
put (cons n ns) zero m = cons m ns
put (cons n ns) (suc i) m = cons n (put ns i m)

abbrev pub remove : AvpTree → ℕ → AvpTree
remove nil i = nil
remove (cons n ns) zero = ns
remove (cons n ns) (suc i) = cons n (remove ns i)

-- `nodes.splice(i, 0, m)`
abbrev pub insert_at : AvpTree → ℕ → AvpNode → AvpTree
insert_at nil i m = cons m nil
insert_at (cons n ns) zero m = cons m (cons n ns)
insert_at (cons n ns) (suc i) m = cons n (insert_at ns i m)

-- `nodes.push(m)`
abbrev pub append : AvpTree → AvpNode → AvpTree
append nil m = cons m nil
append (cons n ns) m = cons n (append ns m)

abbrev pub swap_head : AvpNode → AvpTree → AvpTree
swap_head n nil = cons n nil
swap_head n (cons m ns) = cons m (cons n ns)

-- Swap the nodes at `i` and `i + 1`.
abbrev pub swap_at : AvpTree → ℕ → AvpTree
swap_at nil i = nil
swap_at (cons n ns) zero = swap_head n ns
swap_at (cons n ns) (suc i) = cons n (swap_at ns i)

-- The loop of `getNodeAt`: the current node and the nodes below it.
unfoldable pub walk : Option AvpNode → AvpTree → List ℕ → Option AvpNode
walk cur nodes [] = cur
walk cur nodes (i ∷ p) = elim (nth nodes i) [ none ↦ none | some n ↦ walk (some n) (children n) p ]

unfoldable pub get_node_at : AvpTree → List ℕ → Option AvpNode
unfolding walk
get_node_at tree path = walk none tree path

-- How an edit ends: with a tree; with a TypeError on `undefined` or `null`; or with an array that
-- holds `undefined`, where an index past the end was used.
pub data Edited {ℓ} (A : Type ℓ) : Type ℓ where
  edited : A → Edited A
  type_error : Edited A
  with_hole : Edited A

abbrev pub map_edited {ℓ κ} : {A : Type ℓ} {B : Type κ} → (A → B) → Edited A → Edited B
map_edited f (edited a) = edited (f a)
map_edited f type_error = type_error
map_edited f with_hole = with_hole

-- Put the children back: the node that the loop went through has an array of them now.
abbrev pub with_children : AvpTree → ℕ → AvpNode → AvpTree → AvpTree
with_children nodes i n kids = put nodes i (group (info n) kids)

-- The loop that `setNodeAt`, `removeNodeAt` and `addChildAt` share, with what each does at the last
-- index. A leaf on the way becomes a group with no children.
unfoldable pub edit_at : (ℕ → AvpTree → Edited AvpTree) → AvpTree → List ℕ → Edited AvpTree
edit_at f nodes [] = edited nodes
edit_at f nodes (i ∷ []) = f i nodes
edit_at f nodes (i ∷ j ∷ p) = elim (nth nodes i) [
  | none ↦ type_error
  | some n ↦ map_edited (with_children nodes i n) (edit_at f (children n) (j ∷ p))
]

-- `nodes[i] = m`: at the end it appends, past the end it leaves a hole.
abbrev pub assign : AvpNode → ℕ → AvpTree → Edited AvpTree
assign m i nodes =
    if ltb i (count nodes)
    then edited (put nodes i m)
    else if i == count nodes
    then edited (append nodes m)
    else with_hole

unfoldable pub set_node_at : AvpTree → List ℕ → AvpNode → Edited AvpTree
unfolding edit_at
set_node_at tree path replacement = edit_at (assign replacement) tree path

unfoldable pub remove_node_at : AvpTree → List ℕ → Edited AvpTree
unfolding edit_at
remove_node_at tree path = edit_at (λ i nodes. edited (remove nodes i)) tree path

abbrev pub add_child : AvpNode → ℕ → AvpTree → Edited AvpTree
add_child child i nodes = elim (nth nodes i) [
  | none ↦ type_error
  | some n ↦ edited (with_children nodes i n (append (children n) child))
]

unfoldable pub add_child_at : AvpTree → List ℕ → AvpNode → Edited AvpTree
unfolding edit_at
add_child_at tree [] child = edited (append tree child)
add_child_at tree (i ∷ p) child = edit_at (add_child child) tree (i ∷ p)
