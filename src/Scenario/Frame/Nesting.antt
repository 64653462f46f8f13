-- ===== src/Scenario/Frame/Nesting.antt =====
-- Moving a node into the group before it and out of it again.
use ocs_testbench.Common.{
  ℕ, zero, suc, leb, ◌≡◌, refl, sym, ◌∙◌, ap, inl, inr, true, false, List, [], ◌∷◌, ◌++◌, none,
  some, Option-cases, arith, length,
}
use ocs_testbench.Scenario.{AvpInfo, AvpNode, leaf, group, AvpTree, nil, cons}
use ocs_testbench.Scenario.Frame.{count, nth, put, walk, get_node_at, edited, is_locked_avp}
use ocs_testbench.Scenario.Frame.Levels.{nth_lt, nth-put_self}
use ocs_testbench.Scenario.Frame.Moving.{level_at, on_level, parent_at, parent_locked, node_locked}
use ocs_testbench.Scenario.Frame.{remove, insert_at, append}
use ocs_testbench.Scenario.Frame.Levels.{nth-append, remove-append}
use ocs_testbench.Scenario.Frame.Moving.{indent, outdent, can_indent, can_outdent}
use ocs_testbench.Scenario.Frame.Paths.{
  init-snoc, last-snoc, level_of_walk, walk_of_level, level_at-on_level, on_level-on_level,
  on_level_id, siblings_at-snoc, on_level-snoc, level_at_found, on_level_found, level_at_missing,
  level_at_leaf, parent_at-snoc,
}

snoc_snoc : (q : List ℕ) (a b : ℕ) → q ++ a ∷ b ∷ [] ≡ (q ++ a ∷ []) ++ b ∷ []
snoc_snoc [] a b = refl
snoc_snoc (i ∷ q) a b = ap (λ l. i ∷ l) (snoc_snoc q a b)

nth-remove_before : (s : AvpTree) (k : ℕ) → nth (remove s (suc k)) k ≡ nth s k
nth-remove_before nil k = refl
nth-remove_before (cons n s) zero = refl
nth-remove_before (cons n s) (suc k) = nth-remove_before s k

insert-remove :
    (s : AvpTree) (k : ℕ) {n : AvpNode} → nth s k ≡ some n → insert_at (remove s k) k n ≡ s
insert-remove nil k h = cc
insert-remove (cons m nil) zero h = cc
insert-remove (cons m (cons l s)) zero h = cc
insert-remove (cons m s) (suc k) h = ap (λ l. cons m l) (insert-remove s k h)

-- The edits of the array of siblings: the node at `suc k` leaves it and joins the group at `k`;
-- later it leaves the group and joins the array again.
abbrev nest_node : ℕ → AvpNode → AvpTree → AvpTree
nest_node k n s = on_level (λ l. append l n) (remove s (suc k)) (k ∷ [])

abbrev lift_node : ℕ → ℕ → AvpNode → AvpTree → AvpTree
lift_node k c n s = insert_at (on_level (λ l. remove l c) s (k ∷ [])) (suc k) n

module _ (s kids : AvpTree) (k : ℕ) (inf : AvpInfo) (n : AvpNode) (stands : nth s (suc k) ≡ some n)
    (before : nth s k ≡ some (group inf kids)) where
  nest_node_eq : nest_node k n s ≡ put (remove s (suc k)) k (group inf (append kids n))
  nest_node_eq =
      on_level_found (λ l. append l n) (remove s (suc k)) k [] inf kids
        (nth-remove_before s k ∙ before)
      ∙ (unfold on_level in refl)

  nth-nest_node : nth (nest_node k n s) k ≡ some (group inf (append kids n))
  nth-nest_node =
      ap (λ u. nth u k) nest_node_eq
      ∙ nth-put_self (remove s (suc k)) k (group inf (append kids n))
          (nth_lt (remove s (suc k)) k (nth-remove_before s k ∙ before))

  lift-nest_node : lift_node k (count kids) n (nest_node k n s) ≡ s
  lift-nest_node =
      ap (λ u. insert_at u (suc k) n)
        (on_level-on_level (λ l. append l n) (λ l. remove l (count kids)) (k ∷ [])
            (remove s (suc k))
          ∙ on_level_id (λ l. remove (append l n) (count kids)) (k ∷ []) (remove s (suc k)) kids
              (level_at_found (remove s (suc k)) k [] inf kids (nth-remove_before s k ∙ before)
                ∙ (unfold level_at in refl))
              (remove-append kids n))
      ∙ insert-remove s (suc k) stands

module _ (t s kids : AvpTree) (q : List ℕ) (k : ℕ) (inf : AvpInfo) (n : AvpNode)
    (at : level_at t q ≡ some s) (stands : nth s (suc k) ≡ some n)
    (before : nth s k ≡ some (group inf kids))
    (free : parent_locked t (q ++ suc k ∷ []) ≡ false) where
  can_indent_lem :
      is_locked_avp (group inf kids) ≡ false → can_indent t (q ++ suc k ∷ []) ≡ edited true
  can_indent_lem unlocked =
      unfold can_indent in
      rw (free, last-snoc q (suc k), siblings_at-snoc q t (suc k), at)
        (ground (arith, before, unlocked))

  indent_lem :
      is_locked_avp (group inf kids) ≡ false
      → level_at t (q ++ k ∷ []) ≡ some kids
      → indent t (q ++ suc k ∷ [])
        ≡ edited (
          on_level (λ l. append l n) (on_level (λ l. remove l (suc k)) t q) (q ++ k ∷ []),
          q ++ k ∷ count kids ∷ [],
        )
  unfolding indent
  indent_lem unlocked below =
      rw
        (
          can_indent_lem unlocked,
          indent,
          last-snoc q (suc k),
          init-snoc q (suc k),
          siblings_at-snoc q t (suc k),
          at,
        )
        (ground (arith, stands, below))

long_enough : (q : List ℕ) (k c : ℕ) → leb 2 (length ((q ++ k ∷ []) ++ c ∷ [])) ≡ true
long_enough [] k c = refl
long_enough (i ∷ []) k c = refl
long_enough (i ∷ j ∷ q) k c = ground arith

outdent_lem :
    (t s : AvpTree) (q : List ℕ) (k c : ℕ) (n : AvpNode)
    → level_at t (q ++ k ∷ []) ≡ some s
    → nth s c ≡ some n
    → parent_locked t ((q ++ k ∷ []) ++ c ∷ []) ≡ false
    → outdent t ((q ++ k ∷ []) ++ c ∷ [])
      ≡ edited (
        on_level (λ l. insert_at l (suc k) n) (on_level (λ l. remove l c) t (q ++ k ∷ [])) q,
        q ++ suc k ∷ [],
      )
outdent_lem t s q k c n at stands free =
    unfold outdent can_outdent in
    rw
      (
        free,
        long_enough q k c,
        last-snoc (q ++ k ∷ []) c,
        init-snoc (q ++ k ∷ []) c,
        siblings_at-snoc (q ++ k ∷ []) t c,
        at,
      )
      (ground (arith, stands, last-snoc q k, init-snoc q k))

level_at-snoc :
    (q : List ℕ) (t s kids : AvpTree) (k : ℕ) (inf : AvpInfo)
    → level_at t q ≡ some s
    → nth s k ≡ some (group inf kids)
    → level_at t (q ++ k ∷ []) ≡ some kids
unfolding level_at
level_at-snoc [] t s kids k inf at found =
    let same : t ≡ s = cc in level_at_found t k [] inf kids (ap (λ u. nth u k) same ∙ found)
level_at-snoc (i ∷ q) t s kids k inf at found = elim (Option-cases (nth t i)) [
  | inl missing ↦ cc (level_at_missing t i q missing)
  | inr (leaf lone, at_i) ↦ cc (level_at_leaf t i q lone at_i)
  | inr (group own below, at_i) ↦
      level_at_found t i (q ++ k ∷ []) own below at_i
      ∙ level_at-snoc q below s kids k inf (sym (level_at_found t i q own below at_i) ∙ at) found
]

parent_at-below :
    (q : List ℕ) (t : AvpTree) (k c : ℕ)
    → parent_at t ((q ++ k ∷ []) ++ c ∷ []) ≡ get_node_at t (q ++ k ∷ [])
parent_at-below [] t k c = parent_at-snoc t k [] c
parent_at-below (i ∷ q) t k c = parent_at-snoc t i (q ++ k ∷ []) c

-- What the tree is after the node has moved into the group: the arrays at both levels, and the two
-- moves as edits of the array at `q`.
module _ (t s kids : AvpTree) (q : List ℕ) (k : ℕ) (inf : AvpInfo) (n : AvpNode)
    (at : level_at t q ≡ some s) (stands : nth s (suc k) ≡ some n)
    (before : nth s k ≡ some (group inf kids)) where
  nested_level : level_at (on_level (nest_node k n) t q) q ≡ some (nest_node k n s)
  nested_level = level_at-on_level (nest_node k n) q t s at

  nested_below : level_at (on_level (nest_node k n) t q) (q ++ k ∷ []) ≡ some (append kids n)
  nested_below =
      level_at-snoc q (on_level (nest_node k n) t q) (nest_node k n s) (append kids n) k inf
        nested_level (nth-nest_node s kids k inf n stands before)

  nested_free :
      is_locked_avp (group inf kids) ≡ false
      → parent_locked (on_level (nest_node k n) t q) ((q ++ k ∷ []) ++ count kids ∷ []) ≡ false
  nested_free unlocked =
      unfold parent_locked in
      ap node_locked (
        parent_at-below q (on_level (nest_node k n) t q) k (count kids)
        ∙ (unfold get_node_at in
            walk_of_level q none (on_level (nest_node k n) t q) (nest_node k n s) k nested_level
            ∙ nth-nest_node s kids k inf n stands before))
      ∙ (unfold is_locked_avp in unlocked)

  nesting_steps :
      on_level (λ l. append l n) (on_level (λ l. remove l (suc k)) t q) (q ++ k ∷ [])
      ≡ on_level (nest_node k n) t q
  nesting_steps =
      on_level-snoc (λ l. append l n) q (on_level (λ l. remove l (suc k)) t q) k
      ∙ on_level-on_level (λ l. remove l (suc k)) (λ l. on_level (λ m. append m n) l (k ∷ [])) q t

  lifting_steps :
      on_level
        (λ l. insert_at l (suc k) n)
        (on_level (λ l. remove l (count kids)) (on_level (nest_node k n) t q) (q ++ k ∷ []))
        q
      ≡ t
  lifting_steps =
      ap (λ u. on_level (λ l. insert_at l (suc k) n) u q)
        (on_level-snoc (λ l. remove l (count kids)) q (on_level (nest_node k n) t q) k)
      ∙ on_level-on_level (λ l. on_level (λ m. remove m (count kids)) l (k ∷ []))
          (λ l. insert_at l (suc k) n) q (on_level (nest_node k n) t q)
      ∙ on_level-on_level (nest_node k n) (lift_node k (count kids) n) q t
      ∙ on_level_id (λ l. lift_node k (count kids) n (nest_node k n l)) q t s at
          (lift-nest_node s kids k inf n stands before)

-- Below a parent that is not locked, a node whose sibling before is a group that is not locked
-- moves into it as its last child, and moving it out gives the tree and the path back.
pub outdent-indent :
    (t : AvpTree) (q : List ℕ) (k : ℕ) (n : AvpNode) (inf : AvpInfo) (kids : AvpTree)
    → get_node_at t (q ++ suc k ∷ []) ≡ some n
    → get_node_at t (q ++ k ∷ []) ≡ some (group inf kids)
    → is_locked_avp (group inf kids) ≡ false
    → parent_locked t (q ++ suc k ∷ []) ≡ false
    → (t' : AvpTree) × (indent t (q ++ suc k ∷ []) ≡ edited (t', q ++ k ∷ count kids ∷ []))
      × (get_node_at t' (q ++ k ∷ count kids ∷ []) ≡ some n)
      × (outdent t' (q ++ k ∷ count kids ∷ []) ≡ edited (t, q ++ suc k ∷ []))
unfolding get_node_at
outdent-indent t q k n inf kids stands_at before_at unlocked free =
    let (s, at, stands) = level_of_walk q none t (suc k) stands_at in
    let before : nth s k ≡ some (group inf kids) =
      sym (walk_of_level q none t s k at) ∙ before_at in
    let t' : AvpTree = on_level (nest_node k n) t q in
    let low : level_at t' (q ++ k ∷ []) ≡ some (append kids n) =
      nested_below t s kids q k inf n at stands before in
    (
      t',
      indent_lem t s kids q k inf n at stands before free unlocked
            (level_at-snoc q t s kids k inf at before)
          ∙ ap (λ u. edited (u, q ++ k ∷ count kids ∷ []))
              (nesting_steps t s kids q k inf n at stands before),
      ap (walk none t') (snoc_snoc q k (count kids))
          ∙ walk_of_level (q ++ k ∷ []) none t' (append kids n) (count kids) low
          ∙ nth-append kids n,
      ap (outdent t') (snoc_snoc q k (count kids))
          ∙ outdent_lem t' (append kids n) q k (count kids) n low (nth-append kids n)
              (nested_free t s kids q k inf n at stands before unlocked)
          ∙ ap (λ u. edited (u, q ++ suc k ∷ []))
              (lifting_steps t s kids q k inf n at stands before),
    )
