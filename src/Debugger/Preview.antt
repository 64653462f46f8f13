-- ===== src/Debugger/Preview.antt =====
-- web/src/pages/debugger/ccrPreview.ts and stepEditorLogic.ts: the preview of the request that a
-- step would send. An object of variables has its own keys alone.
pub mod Toggled
pub mod Flattened
use ocs_testbench.Common.{
  ℕ, String, Bool, true, false, List, [], ◌∷◌, ◌++◌, Option, none, some, map, get_elem?, filter_by,
  truthy, or_else, if◌then◌else◌,
}
use ocs_testbench.Common.Objects.{lookup, spread}
use ocs_testbench.Common.Text.{◌⧺◌, number_text}
use ocs_testbench.Scenario.{
  VarValue, text, number, boolean, null, AvpInfo, AvpNode, leaf, group, AvpTree, nil, cons, Service,
  ServiceSelection, fixed, random, RequestType, initial, update, terminate, event_request, StepKind,
  request, ScenarioStep, Scenario, ServiceModel, root, single_mscc, multi_mscc,
}
use ocs_testbench.Execution.{ExecutionContextSnapshot}
use ocs_testbench.Debugger.Actions.{set_has}

abbrev pub ContextVars : Type 0
ContextVars = List (String × VarValue)

-- The fields of a preview node but for its children.
pub record PreviewInfo : Type 0 where
  pub name : String
  pub code : ℕ
  pub vendor_id : Option ℕ
  pub value_ref : Option String
  pub value : Option String

-- A node without `children` has an empty list of them.
mutual
  pub data PreviewAvpNode : Type 0 where
    preview : PreviewInfo → PreviewTree → PreviewAvpNode

  pub data PreviewTree : Type 0 where
    none_below : PreviewTree
    beside : PreviewAvpNode → PreviewTree → PreviewTree

-- `String(raw)`
abbrev pub value_text : VarValue → String
value_text (text s) = s
value_text (number n) = number_text n
value_text (boolean true) = "true"
value_text (boolean false) = "false"
value_text null = "null"

abbrev pub shown_value : String → Option VarValue → String
shown_value name none = "{{" ⧺ name ⧺ "}}"
shown_value name (some raw) = value_text raw

unfoldable pub resolve_value : String → ContextVars → String
resolve_value name context_vars = shown_value name (lookup name context_vars)

abbrev resolve_ref : Option String → ContextVars → Option String
unfolding resolve_value
resolve_ref none context_vars = none
resolve_ref (some name) context_vars = some (resolve_value name context_vars)

unfoldable pub resolve_info : AvpInfo → ContextVars → PreviewInfo
unfolding resolve_ref
resolve_info i context_vars = record {
  name = i.name;
  code = i.code;
  vendor_id = i.vendor_id;
  value_ref = i.value_ref;
  value = resolve_ref i.value_ref context_vars;
}

unfoldable mutual
  unfolding resolve_info

  pub resolve_node : AvpNode → ContextVars → PreviewAvpNode
  resolve_node (leaf i) context_vars = preview (resolve_info i context_vars) none_below
  resolve_node (group i kids) context_vars =
      preview (resolve_info i context_vars) (resolve_tree kids context_vars)

  pub resolve_tree : AvpTree → ContextVars → PreviewTree
  resolve_tree nil context_vars = none_below
  resolve_tree (cons n rest) context_vars =
      beside (resolve_node n context_vars) (resolve_tree rest context_vars)

abbrev pub append_tree : PreviewTree → PreviewTree → PreviewTree
append_tree none_below more = more
append_tree (beside n rest) more = beside n (append_tree rest more)

-- A leaf that shows a variable.
abbrev pub variable_leaf : String → ℕ → String → ContextVars → PreviewAvpNode
unfolding resolve_value
variable_leaf name code value_ref context_vars =
    preview
      (record {
        name = name;
        code = code;
        vendor_id = none;
        value_ref = some value_ref;
        value = some (resolve_value value_ref context_vars);
      })
      none_below

unfoldable pub rsu_leaf : Service → ContextVars → PreviewAvpNode
rsu_leaf svc context_vars =
    variable_leaf "Requested-Service-Unit" 437 svc.requested_units context_vars

-- The leaf of used units, which is called for a service that has them.
unfoldable pub usu_leaf : Service → ContextVars → PreviewAvpNode
usu_leaf svc context_vars =
    variable_leaf "Used-Service-Unit" 446 (or_else svc.used_units "") context_vars

abbrev pub push_if : Bool → PreviewAvpNode → PreviewTree → PreviewTree
push_if true n rest = beside n rest
push_if false n rest = rest

-- The units of a service, in either place.
abbrev pub unit_leaves : Service → ContextVars → PreviewTree
unfolding rsu_leaf usu_leaf
unit_leaves svc context_vars =
    beside (rsu_leaf svc context_vars)
      (push_if (truthy svc.used_units) (usu_leaf svc context_vars) none_below)

abbrev pub root_avps : List Service → ContextVars → PreviewTree
root_avps [] context_vars = none_below
root_avps (svc ∷ rest) context_vars = unit_leaves svc context_vars

unfoldable pub build_root_service_avps : Scenario → ContextVars → PreviewTree
unfolding unit_leaves
build_root_service_avps scenario context_vars = root_avps scenario.services context_vars

unfoldable pub build_mscc_block : Service → ContextVars → PreviewAvpNode
unfolding unit_leaves variable_leaf
build_mscc_block service context_vars =
    preview
      (record {
        name = "Multiple-Services-Credit-Control";
        code = 456;
        vendor_id = none;
        value_ref = none;
        value = none;
      })
      (push_if (truthy service.rating_group)
        (variable_leaf "Rating-Group" 432 (or_else service.rating_group "") context_vars)
        (push_if (truthy service.service_identifier)
          (variable_leaf "Service-Identifier" 439 (or_else service.service_identifier "")
            context_vars)
          (unit_leaves service context_vars)))

abbrev pub msi : ℕ → PreviewAvpNode
msi value =
    preview
      (record {
        name = "Multiple-Services-Indicator";
        code = 455;
        vendor_id = none;
        value_ref = none;
        value = some (number_text value);
      })
      none_below

abbrev pub blocks_of : List PreviewAvpNode → PreviewTree
blocks_of [] = none_below
blocks_of (n ∷ ns) = beside n (blocks_of ns)

abbrev pub single_block : List Service → ContextVars → PreviewTree
unfolding build_mscc_block
single_block [] context_vars = none_below
single_block (single ∷ rest) context_vars =
    beside (msi 0) (beside (build_mscc_block single context_vars) none_below)

-- What the service model adds behind the scenario's tree.
unfoldable pub service_avps : ServiceModel → Scenario → ContextVars → List String → PreviewTree
unfolding build_root_service_avps single_block build_mscc_block
service_avps root scenario context_vars services_enabled =
    build_root_service_avps scenario context_vars
service_avps single_mscc scenario context_vars services_enabled =
    single_block scenario.services context_vars
service_avps multi_mscc scenario context_vars services_enabled = beside (msi 1) (
    blocks_of (
      map (λ s. build_mscc_block s context_vars)
        (filter_by (λ s. set_has s.id services_enabled) scenario.services)))

unfoldable pub resolve_ccr_preview : Scenario → ℕ → ContextVars → List String → PreviewTree
unfolding resolve_tree service_avps
resolve_ccr_preview scenario step_index context_vars services_enabled =
    append_tree (resolve_tree scenario.avp_tree context_vars)
      (service_avps scenario.service_model scenario context_vars services_enabled)

-- The step's own selection of services, if it has one.
abbrev pub selected : Option ScenarioStep → Option ServiceSelection
selected none = none
selected (some step) = request_selection step.kind step.services
  where
    request_selection : StepKind → Option ServiceSelection → Option ServiceSelection
    request_selection request services = services
    request_selection kind services = none

abbrev pub selected_ids : Option ServiceSelection → List String → List String
selected_ids none all_ids = all_ids
selected_ids (some (fixed service_ids)) all_ids = service_ids
selected_ids (some (random from least most)) all_ids = from

abbrev default_by : ServiceModel → Option ScenarioStep → List String → List String
default_by multi_mscc step all_ids = selected_ids (selected step) all_ids
default_by model step all_ids = all_ids

-- A set in order of insertion; an id that comes twice is harmless.
unfoldable pub default_services_for_step : Scenario → ℕ → List String
default_services_for_step scenario step_index =
    default_by scenario.service_model (get_elem? scenario.steps step_index)
      (map (λ s. s.id) scenario.services)

-- `{ ...extracted, ...system, ...user }`
unfoldable pub flatten_context : ExecutionContextSnapshot → ContextVars
flatten_context snapshot =
    spread (spread (spread [] snapshot.extracted) snapshot.system) snapshot.user

pub record StepHeader : Type 0 where
  pub title : String
  pub kind_label : String
  pub kind_color : String

abbrev request_title : RequestType → String
request_title initial = "CCR-INITIAL — start of session"
request_title update = "CCR-UPDATE — interim charge / refill"
request_title terminate = "CCR-TERMINATE — end of session"
request_title event_request = "CCR-EVENT — one-shot charge"

unfoldable pub header_of_step : Option ScenarioStep → Option StepHeader
header_of_step none = none
header_of_step (some step) = some (record {
  title = or_else step.label (request_title step.request_type);
  kind_label = "Request";
  kind_color = "blue";
})

unfoldable pub build_step_header : Scenario → ℕ → Option StepHeader
unfolding header_of_step
build_step_header scenario step_index = header_of_step (get_elem? scenario.steps step_index)
