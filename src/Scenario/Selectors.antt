-- ===== src/Scenario/Selectors.antt =====
-- web/src/pages/scenarios/selectors.ts: where a scenario refers to a variable, and the renaming of
-- those references. A path is a list of indices, the outermost first.
pub mod Fresh
pub mod Free
use ocs_testbench.Common.{
  ℕ, ◌+◌, String, Bool, true, false, ◌&&◌, ◌||◌, List, [], ◌∷◌, ◌++◌, Option, none, some, map,
  opt_is, str_eq, if◌then◌else◌, truthy,
}
use Prim.Native.String
use ocs_testbench.Common.Objects.{insert, has_key}
use ocs_testbench.Common.Text.{number_text, ◌⧺◌}
use ocs_testbench.Scenario.{
  VarValue, AvpInfo, AvpNode, leaf, group, AvpTree, nil, cons, Service, StepKind, request, consume,
  ScenarioStep, Scenario,
}

pub data ServiceField : Type 0 where
  rating_group service_identifier requested_units used_units : ServiceField

pub data UsageLocation : Type 0 where
  avp : (path : List ℕ) (node_name : String) → UsageLocation
  service : (index : ℕ) (field : ServiceField) → UsageLocation
  step_override : (step_index : ℕ) → UsageLocation

pub data UsageTab : Type 0 where
  frame services steps : UsageTab

pub record UsageRef : Type 0 where
  pub location : UsageLocation
  pub tab : UsageTab
  pub select : Option String
  pub field : Option ServiceField
  pub label : String

-- `path.join('.')`
pub join_dots : List ℕ → String
join_dots [] = ""
join_dots (i ∷ []) = number_text i
join_dots (i ∷ j ∷ is) = number_text i ⧺ "." ⧺ join_dots (j ∷ is)

unfoldable pub avp_ref : List ℕ → AvpInfo → UsageRef
avp_ref path inf = record {
  location = avp path inf.name;
  tab = frame;
  select = some ("avp:" ⧺ join_dots path);
  field = none;
  label = "Frame · " ⧺ inf.name ⧺ " (code " ⧺ number_text inf.code ⧺ ")";
}

-- The callback that `findUsages` hands to `walkAvp`.
abbrev pub own_usage : String → List ℕ → AvpInfo → List UsageRef
own_usage name path inf = if opt_is inf.value_ref name then avp_ref path inf ∷ [] else []

-- `walkAvp` with that callback: each node, then its children, from index `i` on.
unfoldable mutual
  pub node_usages : String → List ℕ → AvpNode → List UsageRef
  node_usages name here (leaf inf) = own_usage name here inf
  node_usages name here (group inf kids) = own_usage name here inf ++ tree_usages name here 0 kids

  pub tree_usages : String → List ℕ → ℕ → AvpTree → List UsageRef
  tree_usages name path i nil = []
  tree_usages name path i (cons n ns) =
      node_usages name (path ++ i ∷ []) n ++ tree_usages name path (i + 1) ns

abbrev pub field_text : ServiceField → String
field_text rating_group = "ratingGroup"
field_text service_identifier = "serviceIdentifier"
field_text requested_units = "requestedUnits"
field_text used_units = "usedUnits"

unfoldable pub service_ref : ℕ → String → ServiceField → UsageRef
service_ref i id field = record {
  location = service i field;
  tab = services;
  select = some ("mscc:" ⧺ id);
  field = some field;
  label = "Services · " ⧺ (if truthy (some id) then id else "root") ⧺ " · " ⧺ field_text field;
}

abbrev pub field_usage : String → ℕ → String → ServiceField → Option String → List UsageRef
field_usage name i id field value = if opt_is value name then service_ref i id field ∷ [] else []

unfoldable pub service_usages : String → ℕ → List Service → List UsageRef
service_usages name i [] = []
service_usages name i (svc ∷ svcs) =
    field_usage name i svc.id rating_group svc.rating_group
    ++ (field_usage name i svc.id service_identifier svc.service_identifier
        ++ (field_usage name i svc.id requested_units (some svc.requested_units)
            ++ (field_usage name i svc.id used_units svc.used_units
                ++ service_usages name (i + 1) svcs)))

abbrev pub may_override : StepKind → Bool
may_override request = true
may_override consume = true
may_override _ = false

abbrev pub has_override : Option (List (String × VarValue)) → String → Bool
has_override none name = false
has_override (some m) name = has_key name m

abbrev pub overrides_name : ScenarioStep → String → Bool
overrides_name s name = may_override s.kind && has_override s.overrides name

unfoldable pub step_ref : ℕ → UsageRef
step_ref i = record {
  location = step_override i;
  tab = steps;
  select = some ("step:" ⧺ number_text i);
  field = none;
  label = "Steps · step " ⧺ number_text (i + 1) ⧺ " · override";
}

unfoldable pub step_usages : String → ℕ → List ScenarioStep → List UsageRef
step_usages name i [] = []
step_usages name i (s ∷ ss) =
    (if overrides_name s name then step_ref i ∷ [] else []) ++ step_usages name (i + 1) ss

unfoldable pub find_usages : Scenario → String → List UsageRef
find_usages s name =
    tree_usages name [] 0 s.avp_tree
    ++ (service_usages name 0 s.services ++ step_usages name 0 s.steps)

module _ (old_name new_name : String) where
  abbrev pub rename_field : Option String → Option String
  rename_field v = if opt_is v old_name then some new_name else v

  abbrev pub rename_required : String → String
  rename_required v = if str_eq v old_name then new_name else v

  abbrev pub rename_info : AvpInfo → AvpInfo
  rename_info inf = record inf { value_ref = rename_field inf.value_ref }

  unfoldable mutual
    pub rename_avp_node : AvpNode → AvpNode
    rename_avp_node (leaf inf) = leaf (rename_info inf)
    rename_avp_node (group inf kids) = group (rename_info inf) (rename_avp_tree kids)

    pub rename_avp_tree : AvpTree → AvpTree
    rename_avp_tree nil = nil
    rename_avp_tree (cons n ns) = cons (rename_avp_node n) (rename_avp_tree ns)

  unfoldable pub rename_service : Service → Service
  rename_service svc = record svc {
    rating_group = rename_field svc.rating_group;
    service_identifier = rename_field svc.service_identifier;
    requested_units = rename_required svc.requested_units;
    used_units = rename_field svc.used_units;
  }

  -- `for (const [k, v] of Object.entries(overrides)) next[k === oldName ? newName : k] = v;`
  unfoldable pub rename_entries :
      List (String × VarValue) → List (String × VarValue) → List (String × VarValue)
  rename_entries next [] = next
  rename_entries next ((k, v) ∷ m) = rename_entries (insert (rename_required k) v next) m

  abbrev pub rename_overrides :
      Option (List (String × VarValue)) → Option (List (String × VarValue))
  rename_overrides none = none
  rename_overrides (some m) = some (rename_entries [] m)

  unfoldable pub rename_step : ScenarioStep → ScenarioStep
  unfolding rename_entries
  rename_step s =
      if overrides_name s old_name then record s { overrides = rename_overrides s.overrides } else s

unfoldable pub rename_usages : Scenario → String → String → Scenario
unfolding rename_avp_tree rename_service rename_step
rename_usages s old_name new_name = if str_eq old_name new_name then s else record s {
  avp_tree = rename_avp_tree old_name new_name s.avp_tree;
  services = map (rename_service old_name new_name) s.services;
  steps = map (rename_step old_name new_name) s.steps;
}
