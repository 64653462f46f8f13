-- ===== src/Examples/Frames.antt =====
-- A small AVP tree, with a group, an empty group and two leaves.
use ocs_testbench.Common.{ℕ, ◌≡◌, refl, String, [], ◌∷◌, none, some}
use ocs_testbench.Scenario.{AvpInfo, AvpNode, leaf, group, AvpTree, nil, cons}
use ocs_testbench.Scenario.Frame.{
  edited, get_node_at, set_node_at, remove_node_at, type_error, with_hole,
}
use ocs_testbench.Scenario.Frame.Moving.{indent, outdent}
use ocs_testbench.Scenario.Frame.Nesting.{outdent-indent}

abbrev avp : String → ℕ → AvpInfo
avp name code = record {
  name = name;
  code = code;
  vendor_id = none;
  value_ref = none;
  locked = none;
}

abbrev type_leaf : AvpNode
type_leaf = leaf (avp "Subscription-Id-Type" 450)

abbrev data_leaf : AvpNode
data_leaf = leaf (avp "Subscription-Id-Data" 444)

abbrev origin_leaf : AvpNode
origin_leaf = leaf (avp "Origin-Host" 264)

abbrev id_kids : AvpTree
id_kids = cons type_leaf (cons data_leaf nil)

abbrev id_group : AvpNode
id_group = group (avp "Subscription-Id" 443) id_kids

abbrev tree : AvpTree
tree = cons id_group (cons origin_leaf nil)

abbrev tree_after : AvpTree
tree_after =
    cons (group (avp "Subscription-Id" 443) (cons type_leaf (cons origin_leaf nil)))
      (cons origin_leaf nil)

abbrev tree_added : AvpTree
tree_added =
    cons
      (group (avp "Subscription-Id" 443) (cons type_leaf (cons data_leaf (cons origin_leaf nil))))
      (cons origin_leaf nil)

outdent-indent_example :
    (t' : AvpTree) × (indent tree (1 ∷ []) ≡ edited (t', 0 ∷ 2 ∷ []))
    × (get_node_at t' (0 ∷ 2 ∷ []) ≡ some origin_leaf)
    × (outdent t' (0 ∷ 2 ∷ []) ≡ edited (tree, 1 ∷ []))
unfolding get_node_at indent outdent
outdent-indent_example =
    outdent-indent tree [] 0 origin_leaf (avp "Subscription-Id" 443) id_kids refl refl refl refl

-- A write past the end of an array leaves a hole, and a step through a missing node is a TypeError.
set_past_end : set_node_at tree (5 ∷ []) origin_leaf ≡ with_hole
unfolding set_node_at
set_past_end = refl

remove_through_missing : remove_node_at tree (5 ∷ 0 ∷ []) ≡ type_error
unfolding remove_node_at
remove_through_missing = refl
