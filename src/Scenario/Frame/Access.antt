-- ===== src/Scenario/Frame/Access.antt =====
-- Reading and writing the node at a path.
use ocs_testbench.Common.{
  ℕ, ◌≡◌, ◌≢◌, refl, sym, ◌∙◌, ap, inl, inr, true, List, [], ◌∷◌, ◌++◌, Option, none, some,
  Option-cases, arith, ==_iff, subst,
}
use ocs_testbench.Scenario.{AvpNode, leaf, group, AvpTree, info}
use ocs_testbench.Scenario.Frame.{
  Edited, edited, type_error, with_hole, map_edited, children, count, nth, put, append, remove,
  with_children, walk, get_node_at, edit_at, assign, set_node_at, remove_node_at, add_child,
  add_child_at, is_group_node,
}
use ocs_testbench.Scenario.Frame.Levels.{
  nth_lt, nth-put_self, put_self, put-put, nth-append, remove-append,
}

map_edited-eq :
    (f : AvpTree → AvpTree) (r : Edited AvpTree) {t : AvpTree}
    → map_edited f r ≡ edited t
    → (u : AvpTree) × (r ≡ edited u) × (t ≡ f u)
map_edited-eq f (edited u) h = (u, refl, cc)
map_edited-eq f type_error h = cc
map_edited-eq f with_hole h = cc

assign-nth : (m : AvpNode) (i : ℕ) (t t' : AvpTree) → assign m i t ≡ edited t' → nth t' i ≡ some m
assign-nth m i t t' h = ground (arith, nth-put_self t i m, nth-append t m, ==_iff i (count t))

pub walk_found :
    (cur : Option AvpNode) (t : AvpTree) (i : ℕ) (p : List ℕ) (n : AvpNode)
    → nth t i ≡ some n
    → walk cur t (i ∷ p) ≡ walk (some n) (children n) p
unfolding walk
walk_found cur t i p n found = rw (found, walk)

pub walk_missing :
    (cur : Option AvpNode) (t : AvpTree) (i : ℕ) (p : List ℕ)
    → nth t i ≡ none
    → walk cur t (i ∷ p) ≡ none
unfolding walk
walk_missing cur t i p missing = rw (missing, walk)

pub edit_at_found :
    (f : ℕ → AvpTree → Edited AvpTree) (t : AvpTree) (i j : ℕ) (p : List ℕ) (n : AvpNode)
    → nth t i ≡ some n
    → edit_at f t (i ∷ j ∷ p) ≡ map_edited (with_children t i n) (edit_at f (children n) (j ∷ p))
unfolding edit_at
edit_at_found f t i j p n found = rw (found, edit_at)

pub edit_at_missing :
    (f : ℕ → AvpTree → Edited AvpTree) (t : AvpTree) (i j : ℕ) (p : List ℕ)
    → nth t i ≡ none
    → edit_at f t (i ∷ j ∷ p) ≡ type_error
unfolding edit_at
edit_at_missing f t i j p missing = rw (missing, edit_at)

walk-edit_at :
    (p : List ℕ) (i : ℕ) (m : AvpNode) (t t' : AvpTree) (cur : Option AvpNode)
    → edit_at (assign m) t (i ∷ p) ≡ edited t'
    → walk cur t' (i ∷ p) ≡ some m
unfolding edit_at
walk-edit_at [] i m t t' cur h =
    walk_found cur t' i [] m (assign-nth m i t t' h) ∙ unfold walk in refl
walk-edit_at (j ∷ p) i m t t' cur h = elim (Option-cases (nth t i)) [
  | inl missing ↦ cc (edit_at_missing (assign m) t i j p missing)
  | inr (n, found) ↦
      let (kids, inner, e) =
        map_edited-eq (with_children t i n) (edit_at (assign m) (children n) (j ∷ p))
          (sym (edit_at_found (assign m) t i j p n found) ∙ h) in
      let stored : nth t' i ≡ some (group (info n) kids) =
        subst (λ u. nth u i ≡ some (group (info n) kids)) (sym e)
          (nth-put_self t i (group (info n) kids) (nth_lt t i found)) in
      walk_found cur t' i (j ∷ p) (group (info n) kids) stored
      ∙ walk-edit_at p j m (children n) kids (some (group (info n) kids)) inner
]

-- Where setting a node succeeds, at a path that is not empty, reading the path gives that node.
pub get-set_node_at :
    (t t' : AvpTree) (p : List ℕ) (m : AvpNode)
    → p ≢ []
    → set_node_at t p m ≡ edited t'
    → get_node_at t' p ≡ some m
unfolding set_node_at get_node_at
get-set_node_at t t' [] m ne h = absurd (ne refl)
get-set_node_at t t' (i ∷ p) m ne h = walk-edit_at p i m t t' none h

is_group-eq : (n : AvpNode) → is_group_node n ≡ true → n ≡ group (info n) (children n)
is_group-eq (leaf i) h = cc
is_group-eq (group i kids) h = refl

-- A node with a child on a path is a group.
group_of_walk :
    (n : AvpNode) (cur : Option AvpNode) (j : ℕ) (p : List ℕ) {m : AvpNode}
    → walk cur (children n) (j ∷ p) ≡ some m
    → n ≡ group (info n) (children n)
unfolding walk
group_of_walk (leaf i) cur j p h = cc
group_of_walk (group i kids) cur j p h = refl

pub walk_last : (cur : Option AvpNode) (t : AvpTree) (i : ℕ) → walk cur t (i ∷ []) ≡ nth t i
unfolding walk
walk_last cur t i = ground arith

edit_at-walk :
    (p : List ℕ) (i : ℕ) (m : AvpNode) (t : AvpTree) (cur : Option AvpNode)
    → walk cur t (i ∷ p) ≡ some m
    → edit_at (assign m) t (i ∷ p) ≡ edited t
edit_at-walk [] i m t cur h =
    let found : nth t i ≡ some m = sym (walk_last cur t i) ∙ h in
    unfold edit_at in ground (arith, nth_lt t i found, put_self t i m found)
edit_at-walk (j ∷ p) i m t cur h = elim (Option-cases (nth t i)) [
  | inl missing ↦ cc (walk_missing cur t i (j ∷ p) missing)
  | inr (n, found) ↦
      let below : walk (some n) (children n) (j ∷ p) ≡ some m =
        sym (walk_found cur t i (j ∷ p) n found) ∙ h in
      edit_at_found (assign m) t i j p n found
      ∙ ap (map_edited (with_children t i n)) (edit_at-walk p j m (children n) (some n) below)
      ∙ ap edited (ap (put t i) (sym (group_of_walk n (some n) j p below)) ∙ put_self t i n found)
]

-- Setting the node that a path leads to to itself succeeds and changes nothing.
pub set-get_node_at :
    (t : AvpTree) (p : List ℕ) (m : AvpNode)
    → get_node_at t p ≡ some m
    → set_node_at t p m ≡ edited t
unfolding set_node_at get_node_at
set-get_node_at t [] m h = unfold walk in cc
set-get_node_at t (i ∷ p) m h = edit_at-walk p i m t none h

abbrev remove_last : ℕ → AvpTree → Edited AvpTree
remove_last i nodes = edited (remove nodes i)

-- Putting back what a level held.
restore :
    (t : AvpTree) (i : ℕ) (n : AvpNode) (kids : AvpTree)
    → nth t i ≡ some n
    → n ≡ group (info n) (children n)
    → with_children (put t i (group (info n) kids)) i (group (info n) kids) (children n) ≡ t
restore t i n kids found is_group =
    put-put t i (group (info n) kids) (group (info n) (children n))
    ∙ ap (put t i) (sym is_group)
    ∙ put_self t i n found

module _ (c : AvpNode) where
  -- Removing the new child below the changed node at `i`, when that removal restores its children.
  remove_below :
      (t t' : AvpTree) (i j : ℕ) (p : List ℕ) (n : AvpNode) (kids : AvpTree)
      → nth t i ≡ some n
      → n ≡ group (info n) (children n)
      → t' ≡ put t i (group (info n) kids)
      → edit_at remove_last kids (j ∷ p) ≡ edited (children n)
      → edit_at remove_last t' (i ∷ j ∷ p) ≡ edited t
  remove_below t t' i j p n kids found is_group e inner =
      let stored : nth t' i ≡ some (group (info n) kids) =
        subst (λ u. nth u i ≡ some (group (info n) kids)) (sym e)
          (nth-put_self t i (group (info n) kids) (nth_lt t i found)) in
      edit_at_found remove_last t' i j p (group (info n) kids) stored
      ∙ ap (map_edited (with_children t' i (group (info n) kids))) inner
      ∙ ap edited (
          ap (λ u. with_children u i (group (info n) kids) (children n)) e
          ∙ restore t i n kids found is_group)

  remove-add_from :
      (p : List ℕ) (i : ℕ) (t t' : AvpTree) (n : AvpNode) (cur : Option AvpNode)
      → walk cur t (i ∷ p) ≡ some n
      → n ≡ group (info n) (children n)
      → edit_at (add_child c) t (i ∷ p) ≡ edited t'
      → edit_at remove_last t' (i ∷ (p ++ count (children n) ∷ [])) ≡ edited t
  remove-add_from [] i t t' n cur w g h =
      let found : nth t i ≡ some n = sym (walk_last cur t i) ∙ w in
      remove_below t t' i (count (children n)) [] n (append (children n) c) found g
        (unfold edit_at in ground arith)
        (unfold edit_at in ap edited (remove-append (children n) c))
  remove-add_from (j ∷ p) i t t' n cur w g h = elim (Option-cases (nth t i)) [
    | inl missing ↦ cc (edit_at_missing (add_child c) t i j p missing)
    | inr (m, found) ↦
        let (kids, inner, e) =
          map_edited-eq (with_children t i m) (edit_at (add_child c) (children m) (j ∷ p))
            (sym (edit_at_found (add_child c) t i j p m found) ∙ h) in
        let below : walk (some m) (children m) (j ∷ p) ≡ some n =
          sym (walk_found cur t i (j ∷ p) m found) ∙ w in
        remove_below t t' i j (p ++ count (children n) ∷ []) m kids found
          (group_of_walk m (some m) j p below) e
          (remove-add_from p j (children m) kids n (some m) below g inner)
  ]

-- A child that is added to a group stands at the end of its children: removing what stands there
-- gives the tree back.
pub remove-add_child_at :
    (t t' : AvpTree) (p : List ℕ) (n c : AvpNode)
    → get_node_at t p ≡ some n
    → is_group_node n ≡ true
    → add_child_at t p c ≡ edited t'
    → remove_node_at t' (p ++ count (children n) ∷ []) ≡ edited t
unfolding get_node_at add_child_at remove_node_at
remove-add_child_at t t' [] n c w g h = unfold walk in cc
remove-add_child_at t t' (i ∷ p) n c w g h = remove-add_from c p i t t' n none w (is_group-eq n g) h
