-- ===== src/Scenario/Frame/Moves.antt =====
-- Moving a node up or down: the move back, and where the node is afterwards.
use ocs_testbench.Common.{
  ℕ, suc, ◌<◌, ◌≡◌, sym, ◌∙◌, ap, false, List, [], ◌∷◌, ◌++◌, none, some, arith, subst,
}
use ocs_testbench.Scenario.{AvpNode, AvpTree}
use ocs_testbench.Scenario.Frame.{count, nth, swap_at, get_node_at, edited}
use ocs_testbench.Scenario.Frame.Levels.{nth_lt, swap_swap, count-swap, nth-swap, nth-swap_suc}
use ocs_testbench.Scenario.Frame.Moving.{
  level_at, on_level, parent_locked, can_move_up, can_move_down, move_up, move_down,
}
use ocs_testbench.Scenario.Frame.Paths.{
  init-snoc, last-snoc, level_of_walk, walk_of_level, level_at-on_level, on_level-on_level,
  on_level_id, parent_locked-on_level, siblings_at-snoc, some_length,
}

pub move_up_lem :
    (t s : AvpTree) (q : List ℕ) (k : ℕ)
    → level_at t q ≡ some s
    → suc k < count s
    → parent_locked t (q ++ suc k ∷ []) ≡ false
    → move_up t (q ++ suc k ∷ []) ≡ edited (on_level (λ l. swap_at l k) t q, q ++ k ∷ [])
move_up_lem t s q k at within free =
    unfold move_up can_move_up in
    rw
      (
        free,
        some_length q (suc k),
        last-snoc q (suc k),
        init-snoc q (suc k),
        siblings_at-snoc q t (suc k),
        at,
      )
      (ground arith)

pub move_down_lem :
    (t s : AvpTree) (q : List ℕ) (k : ℕ)
    → level_at t q ≡ some s
    → suc k < count s
    → parent_locked t (q ++ k ∷ []) ≡ false
    → move_down t (q ++ k ∷ []) ≡ edited (on_level (λ l. swap_at l k) t q, q ++ suc k ∷ [])
move_down_lem t s q k at within free =
    unfold move_down can_move_down in
    rw (free, last-snoc q k, init-snoc q k, siblings_at-snoc q t k, at) (ground arith)

module _ (t s : AvpTree) (q : List ℕ) (k : ℕ) (at : level_at t q ≡ some s) where
  -- The node at the place `j` of the changed array.
  moved_to :
      (j : ℕ) {n : AvpNode}
      → nth (swap_at s k) j ≡ some n
      → get_node_at (on_level (λ l. swap_at l k) t q) (q ++ j ∷ []) ≡ some n
  unfolding get_node_at
  moved_to j h =
      walk_of_level q none (on_level (λ l. swap_at l k) t q) (swap_at s k) j
        (level_at-on_level (λ l. swap_at l k) q t s at)
      ∙ h

  swapped_back : on_level (λ l. swap_at l k) (on_level (λ l. swap_at l k) t q) q ≡ t
  swapped_back =
      on_level-on_level (λ l. swap_at l k) (λ l. swap_at l k) q t
      ∙ on_level_id (λ l. swap_at (swap_at l k) k) q t s at (swap_swap s k)

-- A node that is not the first of its siblings, below a parent that is not locked, moves up: it
-- stands one place before, and moving it down from there gives the tree and the path back.
pub move_down-move_up :
    (t : AvpTree) (q : List ℕ) (k : ℕ) (n : AvpNode)
    → get_node_at t (q ++ suc k ∷ []) ≡ some n
    → parent_locked t (q ++ suc k ∷ []) ≡ false
    → (t' : AvpTree) × (move_up t (q ++ suc k ∷ []) ≡ edited (t', q ++ k ∷ []))
      × (get_node_at t' (q ++ k ∷ []) ≡ some n)
      × (move_down t' (q ++ k ∷ []) ≡ edited (t, q ++ suc k ∷ []))
unfolding get_node_at
move_down-move_up t q k n stands free =
    let (s, at, here) = level_of_walk q none t (suc k) stands in
    let within : suc k < count s = nth_lt s (suc k) here in
    let t' : AvpTree = on_level (λ l. swap_at l k) t q in
    (
      t',
      move_up_lem t s q k at within free,
      moved_to t s q k at k (nth-swap s k within ∙ here),
      move_down_lem t' (swap_at s k) q k (level_at-on_level (λ l. swap_at l k) q t s at)
            (subst (λ c. suc k < c) (sym (count-swap s k)) within)
            (parent_locked-on_level (λ l. swap_at l k) q t k (suc k) ∙ free)
          ∙ ap (λ u. edited (u, q ++ suc k ∷ [])) (swapped_back t s q k at),
    )

-- A node that is not the last of its siblings, below a parent that is not locked, moves down: it
-- stands one place after, and moving it up from there gives the tree and the path back.
pub move_up-move_down :
    (t : AvpTree) (q : List ℕ) (k : ℕ) (n m : AvpNode)
    → get_node_at t (q ++ k ∷ []) ≡ some n
    → get_node_at t (q ++ suc k ∷ []) ≡ some m
    → parent_locked t (q ++ k ∷ []) ≡ false
    → (t' : AvpTree) × (move_down t (q ++ k ∷ []) ≡ edited (t', q ++ suc k ∷ []))
      × (get_node_at t' (q ++ suc k ∷ []) ≡ some n)
      × (move_up t' (q ++ suc k ∷ []) ≡ edited (t, q ++ k ∷ []))
unfolding get_node_at
move_up-move_down t q k n m stands next free =
    let (s, at, after) = level_of_walk q none t (suc k) next in
    let within : suc k < count s = nth_lt s (suc k) after in
    let here : nth s k ≡ some n = sym (walk_of_level q none t s k at) ∙ stands in
    let t' : AvpTree = on_level (λ l. swap_at l k) t q in
    (
      t',
      move_down_lem t s q k at within free,
      moved_to t s q k at (suc k) (nth-swap_suc s k within ∙ here),
      move_up_lem t' (swap_at s k) q k (level_at-on_level (λ l. swap_at l k) q t s at)
            (subst (λ c. suc k < c) (sym (count-swap s k)) within)
            (parent_locked-on_level (λ l. swap_at l k) q t (suc k) k ∙ free)
          ∙ ap (λ u. edited (u, q ++ k ∷ [])) (swapped_back t s q k at),
    )
