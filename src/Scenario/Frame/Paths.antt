-- ===== src/Scenario/Frame/Paths.antt =====
-- Paths that end in the place of a node among its siblings, and edits of the array of siblings.
use ocs_testbench.Common.{
  ℕ, ◌≡◌, refl, sym, ◌∙◌, ap, inl, inr, true, false, List, [], ◌∷◌, ◌++◌, Option, none, some,
  Option-cases, arith, ltb, length,
}
use ocs_testbench.Scenario.{AvpInfo, AvpNode, leaf, group, AvpTree, nil}
use ocs_testbench.Scenario.Frame.{nth, put, walk, get_node_at, is_locked_avp}
use ocs_testbench.Scenario.Frame.Levels.{nth_lt, nth-put_self, put_self, put-put}
use ocs_testbench.Scenario.Frame.Access.{walk_found, walk_missing, walk_last}
use ocs_testbench.Scenario.Frame.Moving.{
  init, last, level_at, on_level, siblings_at, parent_at, parent_locked, node_locked,
}

pub init-snoc : (q : List ℕ) (k : ℕ) → init (q ++ k ∷ []) ≡ q
init-snoc [] k = refl
init-snoc (i ∷ []) k = refl
init-snoc (i ∷ j ∷ q) k = ap (λ l. i ∷ l) (init-snoc (j ∷ q) k)

pub last-snoc : (q : List ℕ) (k : ℕ) → last (q ++ k ∷ []) ≡ k
last-snoc [] k = refl
last-snoc (i ∷ []) k = refl
last-snoc (i ∷ j ∷ q) k = last-snoc (j ∷ q) k

walk_nil : (cur : Option AvpNode) (q : List ℕ) (k : ℕ) → walk cur nil (q ++ k ∷ []) ≡ none
unfolding walk
walk_nil cur [] k = refl
walk_nil cur (i ∷ q) k = refl

pub level_at_found :
    (t : AvpTree) (i : ℕ) (q : List ℕ) (inf : AvpInfo) (kids : AvpTree)
    → nth t i ≡ some (group inf kids)
    → level_at t (i ∷ q) ≡ level_at kids q
unfolding level_at
level_at_found t i q inf kids found = rw (found, level_at)

pub on_level_found :
    (f : AvpTree → AvpTree) (t : AvpTree) (i : ℕ) (q : List ℕ) (inf : AvpInfo) (kids : AvpTree)
    → nth t i ≡ some (group inf kids)
    → on_level f t (i ∷ q) ≡ put t i (group inf (on_level f kids q))
unfolding on_level
on_level_found f t i q inf kids found = rw (found, on_level)

on_level_missing :
    (f : AvpTree → AvpTree) (t : AvpTree) (i : ℕ) (q : List ℕ)
    → nth t i ≡ none
    → on_level f t (i ∷ q) ≡ t
unfolding on_level
on_level_missing f t i q missing = rw (missing, on_level)

on_level_leaf :
    (f : AvpTree → AvpTree) (t : AvpTree) (i : ℕ) (q : List ℕ) (inf : AvpInfo)
    → nth t i ≡ some (leaf inf)
    → on_level f t (i ∷ q) ≡ t
unfolding on_level
on_level_leaf f t i q inf found = rw (found, on_level)

pub level_at_missing :
    (t : AvpTree) (i : ℕ) (q : List ℕ) → nth t i ≡ none → level_at t (i ∷ q) ≡ none
unfolding level_at
level_at_missing t i q missing = rw (missing, level_at)

pub level_at_leaf :
    (t : AvpTree) (i : ℕ) (q : List ℕ) (inf : AvpInfo)
    → nth t i ≡ some (leaf inf)
    → level_at t (i ∷ q) ≡ none
unfolding level_at
level_at_leaf t i q inf found = rw (found, level_at)

-- The node a path leads to stands in the array of its siblings.
pub level_of_walk :
    (q : List ℕ) (cur : Option AvpNode) (t : AvpTree) (k : ℕ) {n : AvpNode}
    → walk cur t (q ++ k ∷ []) ≡ some n
    → (s : AvpTree) × (level_at t q ≡ some s) × (nth s k ≡ some n)
unfolding level_at
level_of_walk [] cur t k h = (t, refl, sym (walk_last cur t k) ∙ h)
level_of_walk (i ∷ q) cur t k h = elim (Option-cases (nth t i)) [
  | inl missing ↦ cc (walk_missing cur t i (q ++ k ∷ []) missing)
  | inr (leaf inf, found) ↦
      cc (walk_found cur t i (q ++ k ∷ []) (leaf inf) found, walk_nil (some (leaf inf)) q k)
  | inr (group inf kids, found) ↦
      let (s, at, stands) =
        level_of_walk q (some (group inf kids)) kids k
          (sym (walk_found cur t i (q ++ k ∷ []) (group inf kids) found) ∙ h) in
      (s, level_at_found t i q inf kids found ∙ at, stands)
]

pub walk_of_level :
    (q : List ℕ) (cur : Option AvpNode) (t s : AvpTree) (k : ℕ)
    → level_at t q ≡ some s
    → walk cur t (q ++ k ∷ []) ≡ nth s k
unfolding level_at
walk_of_level [] cur t s k at = walk_last cur t k ∙ cc
walk_of_level (i ∷ q) cur t s k at = elim (Option-cases (nth t i)) [
  | inl missing ↦ cc (level_at_missing t i q missing)
  | inr (leaf inf, found) ↦ cc (level_at_leaf t i q inf found)
  | inr (group inf kids, found) ↦
      walk_found cur t i (q ++ k ∷ []) (group inf kids) found
      ∙ walk_of_level q (some (group inf kids)) kids s k
          (sym (level_at_found t i q inf kids found) ∙ at)
]

pub longer : (i : ℕ) (q : List ℕ) (k : ℕ) → ltb (length (i ∷ (q ++ k ∷ []))) 2 ≡ false
longer i [] k = refl
longer i (j ∷ q) k = ground arith

pub parent_at-snoc :
    (t : AvpTree) (i : ℕ) (q : List ℕ) (k : ℕ)
    → parent_at t (i ∷ q ++ k ∷ []) ≡ get_node_at t (i ∷ q)
unfolding parent_at
parent_at-snoc t i q k = rw (longer i q k) (ap (get_node_at t) (init-snoc (i ∷ q) k))

module _ (f : AvpTree → AvpTree) where
  pub level_at-on_level :
      (q : List ℕ) (t s : AvpTree)
      → level_at t q ≡ some s
      → level_at (on_level f t q) q ≡ some (f s)
  unfolding level_at on_level
  level_at-on_level [] t s at = cc
  level_at-on_level (i ∷ q) t s at = elim (Option-cases (nth t i)) [
    | inl missing ↦ cc (level_at_missing t i q missing)
    | inr (leaf inf, found) ↦ cc (level_at_leaf t i q inf found)
    | inr (group inf kids, found) ↦
        ap (λ u. level_at u (i ∷ q)) (on_level_found f t i q inf kids found)
        ∙ level_at_found (put t i (group inf (on_level f kids q))) i q inf (on_level f kids q)
            (nth-put_self t i (group inf (on_level f kids q)) (nth_lt t i found))
        ∙ level_at-on_level q kids s (sym (level_at_found t i q inf kids found) ∙ at)
  ]

  pub on_level-on_level :
      (g : AvpTree → AvpTree) (q : List ℕ) (t : AvpTree)
      → on_level g (on_level f t q) q ≡ on_level (λ s. g (f s)) t q
  unfolding on_level
  on_level-on_level g [] t = refl
  on_level-on_level g (i ∷ q) t = elim (Option-cases (nth t i)) [
    | inl missing ↦
        ap (λ u. on_level g u (i ∷ q)) (on_level_missing f t i q missing)
        ∙ on_level_missing g t i q missing
        ∙ sym (on_level_missing (λ s. g (f s)) t i q missing)
    | inr (leaf inf, found) ↦
        ap (λ u. on_level g u (i ∷ q)) (on_level_leaf f t i q inf found)
        ∙ on_level_leaf g t i q inf found
        ∙ sym (on_level_leaf (λ s. g (f s)) t i q inf found)
    | inr (group inf kids, found) ↦
        let low : AvpTree = on_level f kids q in
        ap (λ u. on_level g u (i ∷ q)) (on_level_found f t i q inf kids found)
        ∙ on_level_found g (put t i (group inf low)) i q inf low
            (nth-put_self t i (group inf low) (nth_lt t i found))
        ∙ put-put t i (group inf low) (group inf (on_level g low q))
        ∙ ap (λ u. put t i (group inf u)) (on_level-on_level g q kids)
        ∙ sym (on_level_found (λ s. g (f s)) t i q inf kids found)
  ]

  -- An edit of the array at a longer path is an edit of the array above it.
  pub on_level-snoc :
      (q : List ℕ) (t : AvpTree) (k : ℕ)
      → on_level f t (q ++ k ∷ []) ≡ on_level (λ s. on_level f s (k ∷ [])) t q
  unfolding on_level
  on_level-snoc [] t k = refl
  on_level-snoc (i ∷ q) t k = elim (Option-cases (nth t i)) [
    | inl missing ↦
        on_level_missing f t i (q ++ k ∷ []) missing
        ∙ sym (on_level_missing (λ s. on_level f s (k ∷ [])) t i q missing)
    | inr (leaf inf, found) ↦
        on_level_leaf f t i (q ++ k ∷ []) inf found
        ∙ sym (on_level_leaf (λ s. on_level f s (k ∷ [])) t i q inf found)
    | inr (group inf kids, found) ↦
        on_level_found f t i (q ++ k ∷ []) inf kids found
        ∙ ap (λ u. put t i (group inf u)) (on_level-snoc q kids k)
        ∙ sym (on_level_found (λ s. on_level f s (k ∷ [])) t i q inf kids found)
  ]

  pub on_level_id :
      (q : List ℕ) (t s : AvpTree) → level_at t q ≡ some s → f s ≡ s → on_level f t q ≡ t
  unfolding level_at on_level
  on_level_id [] t s at same = cc
  on_level_id (i ∷ q) t s at same = elim (Option-cases (nth t i)) [
    | inl missing ↦ on_level_missing f t i q missing
    | inr (leaf inf, found) ↦ on_level_leaf f t i q inf found
    | inr (group inf kids, found) ↦
        on_level_found f t i q inf kids found
        ∙ ap (λ u. put t i (group inf u))
            (on_level_id q kids s (sym (level_at_found t i q inf kids found) ∙ at) same)
        ∙ put_self t i (group inf kids) found
  ]

  locked-on_level :
      (q : List ℕ) (t : AvpTree) (c d : Option AvpNode)
      → node_locked c ≡ node_locked d
      → node_locked (walk c (on_level f t q) q) ≡ node_locked (walk d t q)
  unfolding walk on_level is_locked_avp
  locked-on_level [] t c d same = same
  locked-on_level (i ∷ q) t c d same = elim (Option-cases (nth t i)) [
    | inl missing ↦
        ap (λ u. node_locked (walk c u (i ∷ q))) (on_level_missing f t i q missing)
        ∙ ap node_locked (walk_missing c t i q missing ∙ sym (walk_missing d t i q missing))
    | inr (leaf inf, found) ↦
        ap (λ u. node_locked (walk c u (i ∷ q))) (on_level_leaf f t i q inf found)
        ∙ ap node_locked
            (walk_found c t i q (leaf inf) found ∙ sym (walk_found d t i q (leaf inf) found))
    | inr (group inf kids, found) ↦
        let low : AvpTree = on_level f kids q in
        ap (λ u. node_locked (walk c u (i ∷ q))) (on_level_found f t i q inf kids found)
        ∙ ap node_locked (
            walk_found c (put t i (group inf low)) i q (group inf low)
              (nth-put_self t i (group inf low) (nth_lt t i found)))
        ∙ locked-on_level q kids (some (group inf low)) (some (group inf kids)) refl
        ∙ sym (ap node_locked (walk_found d t i q (group inf kids) found))
  ]

  -- An edit of an array leaves the group it stands in as locked as it was.
  pub parent_locked-on_level :
      (q : List ℕ) (t : AvpTree) (j k : ℕ)
      → parent_locked (on_level f t q) (q ++ j ∷ []) ≡ parent_locked t (q ++ k ∷ [])
  unfolding parent_locked parent_at get_node_at
  parent_locked-on_level [] t j k = refl
  parent_locked-on_level (i ∷ q) t j k =
      ap node_locked (parent_at-snoc (on_level f t (i ∷ q)) i q j)
      ∙ locked-on_level (i ∷ q) t none none refl
      ∙ sym (ap node_locked (parent_at-snoc t i q k))

pub siblings_at-snoc :
    (q : List ℕ) (t : AvpTree) (k : ℕ) → siblings_at t (q ++ k ∷ []) ≡ level_at t q
unfolding siblings_at
siblings_at-snoc [] t k = refl
siblings_at-snoc (i ∷ q) t k = ap (level_at t) (init-snoc (i ∷ q) k)

pub some_length : (q : List ℕ) (k : ℕ) → ltb 0 (length (q ++ k ∷ [])) ≡ true
some_length [] k = refl
some_length (i ∷ q) k = ground arith
