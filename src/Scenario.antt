-- ===== src/Scenario.antt =====
-- The data of a charging scenario, web/src/api/schema.d.ts: AVP trees, services, variables, steps.
-- Numbers are natural; an optional field is an `Option`.
pub mod History
pub mod Defaults
pub mod Provision
pub mod Selectors
pub mod Options
pub mod Draft
pub mod Frame
pub mod Validators
pub mod Tabs
pub mod Server
pub mod Page
use ocs_testbench.Common.{ℕ, String, Bool, List, Option}

pub data UnitType : Type 0 where
  volume time event_units : UnitType

pub data SessionMode : Type 0 where
  session event : SessionMode

pub data ServiceModel : Type 0 where
  root single_mscc multi_mscc : ServiceModel

pub data ScenarioOrigin : Type 0 where
  system user : ScenarioOrigin

pub data ServiceType : Type 0 where
  voice data_service sms ussd1 ussd2 : ServiceType

pub data ServiceProfile : Type 0 where
  three_gpp huawei : ServiceProfile

pub data RequestType : Type 0 where
  initial update terminate event_request : RequestType

-- `string | number | boolean | null`
pub data VarValue : Type 0 where
  text : String → VarValue
  number : ℕ → VarValue
  boolean : Bool → VarValue
  null : VarValue

pub data GeneratorStrategy : Type 0 where
  literal uuid incrementer random_int random_string random_choice : GeneratorStrategy

pub data GeneratorRefresh : Type 0 where
  once per_send : GeneratorRefresh

pub data BoundFrom : Type 0 where
  subscriber peer config step : BoundFrom

pub data VariableSource : Type 0 where
  generator :
      (strategy : GeneratorStrategy) (refresh : GeneratorRefresh)
      (params : List (String × VarValue))
      → VariableSource
  bound : (from : BoundFrom) (field : String) → VariableSource
  extracted : (path : String) (transform : Option String) → VariableSource

pub record Variable : Type 0 where
  pub name : String
  pub source : VariableSource
  pub description : Option String

-- The fields of an AVP but for its children.
pub record AvpInfo : Type 0 where
  pub name : String
  pub code : ℕ
  pub vendor_id : Option ℕ
  pub value_ref : Option String
  pub locked : Option Bool

-- `AvpNode` and `AvpNode[]`: a leaf has no `children`, a group has an array of them.
mutual
  pub data AvpNode : Type 0 where
    leaf : AvpInfo → AvpNode
    group : AvpInfo → AvpTree → AvpNode

  pub data AvpTree : Type 0 where
    nil : AvpTree
    cons : AvpNode → AvpTree → AvpTree

abbrev pub info : AvpNode → AvpInfo
info (leaf i) = i
info (group i kids) = i

pub record Service : Type 0 where
  pub id : String
  pub rating_group : Option String
  pub service_identifier : Option String
  pub requested_units : String
  pub used_units : Option String

pub data ServiceSelection : Type 0 where
  fixed : (service_ids : List String) → ServiceSelection
  random : (from : List String) (min max : ℕ) → ServiceSelection

-- The kinds that the code tells apart.
pub data StepKind : Type 0 where
  request consume wait pause : StepKind

-- `repeat_until` is the condition of a repeated step, whose expression may name variables. Left out
-- are the numbers of repetition and delay, which only the step's editor and the server read.
pub record ScenarioStep : Type 0 where
  pub kind : StepKind
  pub label : Option String
  pub request_type : RequestType
  pub services : Option ServiceSelection
  pub overrides : Option (List (String × VarValue))
  pub repeat_until : Option String

pub record Scenario : Type 0 where
  pub id : String
  pub name : String
  pub description : Option String
  pub service_type : Option ServiceType
  pub service_profile : Option ServiceProfile
  pub session_mode : SessionMode
  pub service_model : ServiceModel
  pub origin : ScenarioOrigin
  pub favourite : Option Bool
  pub subscriber_id : Option String
  pub peer_id : Option String
  pub service_context_id : Option String
  pub step_count : ℕ
  pub updated_at : String
  pub avp_tree : AvpTree
  pub services : List Service
  pub variables : List Variable
  pub steps : List ScenarioStep
