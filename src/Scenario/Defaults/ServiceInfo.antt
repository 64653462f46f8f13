-- ===== src/Scenario/Defaults/ServiceInfo.antt =====
-- The Service-Information node of an AVP tree.
use ocs_testbench.Common.{
  suc, ◌≤◌, ◌≡◌, refl, ap, arith, true, false, List, [], ◌∷◌, Option, none, some, length, inl, inr,
  Bool-cases, Option-cases, subst, if◌then◌else◌,
}
use ocs_testbench.Scenario.{AvpNode, AvpTree, nil, cons, ServiceType, ServiceProfile}
use ocs_testbench.Scenario.Defaults.Tree.{
  service_info_group, is_service_info, put_service_info, drop_service_info, build_service_info_node,
  replace_service_info_node,
}

-- The top-level nodes that are not Service-Information, and those that are.
abbrev pub others : AvpTree → List AvpNode
others nil = []
others (cons n ns) = if is_service_info n then others ns else n ∷ others ns

abbrev pub service_infos : AvpTree → List AvpNode
service_infos nil = []
service_infos (cons n ns) = if is_service_info n then n ∷ service_infos ns else service_infos ns

abbrev pub option_list : Option AvpNode → List AvpNode
option_list none = []
option_list (some n) = n ∷ []

others-put :
    (m : AvpNode) (t : AvpTree)
    → is_service_info m ≡ true
    → others (put_service_info m t) ≡ others t
unfolding put_service_info
others-put m nil h = rw h refl
others-put m (cons n t) h = elim (Bool-cases (is_service_info n)) [
  | inl yes_info ↦ rw yes_info (rw h refl)
  | inr other ↦ rw other (rw other (ap (λ l. n ∷ l) (others-put m t h)))
]

others-drop : (t : AvpTree) → others (drop_service_info t) ≡ others t
unfolding drop_service_info
others-drop nil = refl
others-drop (cons n t) = elim (Bool-cases (is_service_info n)) [
  | inl yes_info ↦ rw yes_info refl
  | inr other ↦ rw other (rw other (ap (λ l. n ∷ l) (others-drop t)))
]

nil_of_length : (xs : List AvpNode) → length xs ≤ 0 → xs ≡ []
nil_of_length [] h = refl
nil_of_length (x ∷ xs) h = absurd (omega arith)

-- Where there is at most one such node and it is the first, there is none after it.
only_first :
    (n : AvpNode) (t : AvpTree)
    → is_service_info n ≡ true
    → length (service_infos (cons n t)) ≤ 1
    → service_infos t ≡ []
only_first n t yes_info le =
    let short : suc (length (service_infos t)) ≤ 1 =
      subst (λ b. length (if b then n ∷ service_infos t else service_infos t) ≤ 1) yes_info le in
    nil_of_length (service_infos t) (omega (arith, short))

not_first :
    (n : AvpNode) (t : AvpTree)
    → is_service_info n ≡ false
    → length (service_infos (cons n t)) ≤ 1
    → length (service_infos t) ≤ 1
not_first n t other le =
    subst (λ b. length (if b then n ∷ service_infos t else service_infos t) ≤ 1) other le

infos-put :
    (m : AvpNode) (t : AvpTree)
    → is_service_info m ≡ true
    → length (service_infos t) ≤ 1
    → service_infos (put_service_info m t) ≡ m ∷ []
unfolding put_service_info
infos-put m nil h le = rw h refl
infos-put m (cons n t) h le = elim (Bool-cases (is_service_info n)) [
  | inl yes_info ↦ rw yes_info (rw h (ap (λ l. m ∷ l) (only_first n t yes_info le)))
  | inr other ↦ rw other (rw other (infos-put m t h (not_first n t other le)))
]

infos-drop : (t : AvpTree) → length (service_infos t) ≤ 1 → service_infos (drop_service_info t) ≡ []
unfolding drop_service_info
infos-drop nil le = refl
infos-drop (cons n t) le = elim (Bool-cases (is_service_info n)) [
  | inl yes_info ↦ rw yes_info (only_first n t yes_info le)
  | inr other ↦ rw other (rw other (infos-drop t (not_first n t other le)))
]

group_info :
    (kids : AvpTree) (m : AvpNode) → service_info_group kids ≡ some m → is_service_info m ≡ true
group_info nil m h = cc
group_info (cons n ns) m h =
    subst (λ o. elim o [ none ↦ Unit | some k ↦ is_service_info k ≡ true ]) h refl

built_info :
    (type : Option ServiceType) (profile : Option ServiceProfile) (m : AvpNode)
    → build_service_info_node type profile ≡ some m
    → is_service_info m ≡ true
unfolding build_service_info_node
built_info none profile m h = cc
built_info (some t) profile m h = group_info _ m h

-- Choosing a service type and profile for a tree with at most one Service-Information node keeps
-- the other nodes in their order, and leaves as Service-Information exactly the node that the
-- choice builds, or none where it builds none.
pub replace_service_info_node_lem :
    (t : AvpTree) (type : Option ServiceType) (profile : Option ServiceProfile)
    → length (service_infos t) ≤ 1
    → (others (replace_service_info_node t type profile) ≡ others t)
      × (service_infos (replace_service_info_node t type profile)
          ≡ option_list (build_service_info_node type profile))
unfolding replace_service_info_node
replace_service_info_node_lem t type profile le =
    elim (Option-cases (build_service_info_node type profile)) [
      | inl nothing ↦ rw nothing (others-drop t, infos-drop t le)
      | inr (m, built) ↦
          let info_node = built_info type profile m built in
          rw built (others-put m t info_node, infos-put m t info_node le)
    ]
