-- ===== src/Scenario/Defaults.antt =====
-- web/src/pages/scenarios/defaults.ts: what a new scenario holds, and what a change of its
-- service type or profile puts in.
pub mod Tree
pub mod Variables
pub mod ServiceInfo
pub mod Upsert
use ocs_testbench.Common.{
  ℕ, String, Bool, true, false, List, [], ◌∷◌, ◌++◌, Option, none, some, map, filter_by, not, any,
  or_else, truthy, str_eq, if◌then◌else◌,
}
use ocs_testbench.Common.Objects.{lookup, spread}
use ocs_testbench.Scenario.{
  SessionMode, session, event, ServiceModel, single_mscc, user, ServiceType, voice, data_service,
  sms, ussd1, ussd2, ServiceProfile, three_gpp, huawei, RequestType, initial, update, terminate,
  event_request, VarValue, text, number, literal, once, generator, bound, subscriber, Variable,
  AvpNode, leaf, group, AvpTree, nil, cons, info, Service, request, ScenarioStep, Scenario,
}
use ocs_testbench.Scenario.Defaults.Tree.{build_service_info_node}
use ocs_testbench.Scenario.Defaults.Variables.{
  literal_variable, default_variables_for_service_type, merge_variables,
}

unfoldable pub default_session_mode : Option ServiceType → SessionMode
default_session_mode (some ussd1) = event
default_session_mode _ = session

abbrev pub request_step : RequestType → ScenarioStep
request_step t = record {
  kind = request;
  label = none;
  request_type = t;
  services = none;
  overrides = none;
  repeat_until = none;
}

unfoldable pub default_steps_for_mode : SessionMode → List ScenarioStep
default_steps_for_mode event = request_step event_request ∷ []
default_steps_for_mode session =
    request_step initial ∷ request_step update ∷ request_step terminate ∷ []

abbrev base_avp_tree : AvpTree
base_avp_tree =
    cons
      (group
        (record {
          name = "Subscription-Id";
          code = 443;
          vendor_id = none;
          value_ref = none;
          locked = none;
        })
        (cons
          (leaf (record {
            name = "Subscription-Id-Type";
            code = 450;
            vendor_id = none;
            value_ref = some "SUB_ID_TYPE";
            locked = none;
          }))
          (cons
            (leaf (record {
              name = "Subscription-Id-Data";
              code = 444;
              vendor_id = none;
              value_ref = some "MSISDN";
              locked = none;
            }))
            nil)))
      nil

abbrev base_variables : List Variable
base_variables =
    record {
      name = "MSISDN";
      source = bound subscriber "msisdn";
      description = some "Subscriber MSISDN — bound to the bound subscriber.";
    }
    ∷ literal_variable "RATING_GROUP" "Rating-Group AVP value." (number 100)
    ∷ literal_variable "RSU_TOTAL" "Requested service-units quantity." (number 10)
    ∷ literal_variable "USU_TOTAL"
        "Used service-units quantity reported in UPDATE and TERMINATE requests." (number 10)
    ∷ []

abbrev default_service : Service
default_service = record {
  id = "100";
  rating_group = some "RATING_GROUP";
  service_identifier = none;
  requested_units = "RSU_TOTAL";
  used_units = none;
}

abbrev append_node : AvpTree → Option AvpNode → AvpTree
append_node nil none = nil
append_node nil (some n) = cons n nil
append_node (cons m ms) n = cons m (append_node ms n)

-- `updated_at` is the clock's reading.
unfoldable pub make_new_scenario_draft : (updated_at : String) → Scenario
unfolding build_service_info_node merge_variables default_variables_for_service_type
    default_steps_for_mode
make_new_scenario_draft updated_at = record {
  id = "";
  name = "";
  description = some "";
  service_type = some voice;
  service_profile = some three_gpp;
  session_mode = session;
  service_model = single_mscc;
  origin = user;
  favourite = some false;
  subscriber_id = some "";
  peer_id = some "";
  service_context_id = none;
  step_count = 1;
  updated_at = updated_at;
  avp_tree = append_node base_avp_tree (build_service_info_node (some voice) (some three_gpp));
  services = default_service ∷ [];
  variables =
      merge_variables base_variables
        (default_variables_for_service_type (some voice) (some three_gpp));
  steps = default_steps_for_mode session;
}

pub record ScenarioInput : Type 0 where
  pub name : String
  pub description : Option String
  pub service_type : Option ServiceType
  pub service_profile : Option ServiceProfile
  pub session_mode : SessionMode
  pub service_model : ServiceModel
  pub favourite : Bool
  pub subscriber_id : String
  pub peer_id : String
  pub service_context_id : Option String
  pub avp_tree : AvpTree
  pub services : List Service
  pub variables : List Variable
  pub steps : List ScenarioStep

-- `s || undefined`
abbrev pub or_undefined : Option String → Option String
or_undefined s = if truthy s then s else none

unfoldable pub to_scenario_input : Scenario → ScenarioInput
to_scenario_input s = record {
  name = s.name;
  description = s.description;
  service_type = s.service_type;
  service_profile = s.service_profile;
  session_mode = s.session_mode;
  service_model = s.service_model;
  favourite = or_else s.favourite false;
  subscriber_id = or_else s.subscriber_id "";
  peer_id = or_else s.peer_id "";
  service_context_id = or_undefined s.service_context_id;
  avp_tree = s.avp_tree;
  services = s.services;
  variables = s.variables;
  steps = s.steps;
}
