-- ===== src/Execution.antt =====
-- The data of an execution, web/src/api/schema.d.ts. Types here share constructor names, which are
-- written behind their type. An instant is the number of milliseconds that its text stands for.
use ocs_testbench.Common.{ℕ, String, List, Option}
use ocs_testbench.Scenario.{RequestType, StepKind, VarValue}

pub data ExecutionState : Type 0 where
  pending running paused success failure aborted error : ExecutionState

pub data ExecutionMode : Type 0 where
  interactive continuous : ExecutionMode

pub data StepState : Type 0 where
  pending running success failure error skipped : StepState

-- The fields of a step's record that the client computes with.
pub record StepRecord : Type 0 where
  pub n : ℕ
  pub kind : StepKind
  pub request_type : Option RequestType
  pub label : Option String
  pub state : StepState
  pub started_at : Option ℕ
  pub finished_at : Option ℕ
  pub duration_ms : Option ℕ
  pub error_detail : Option String

pub record ExecutionContextSnapshot : Type 0 where
  pub system : List (String × VarValue)
  pub user : List (String × VarValue)
  pub extracted : List (String × VarValue)

pub record ExecutionSummary : Type 0 where
  pub id : String
  pub scenario_id : String
  pub scenario_name : String
  pub mode : ExecutionMode
  pub peer_id : Option String
  pub subscriber_id : Option String
  pub batch_id : Option String
  pub state : ExecutionState
  pub started_at : ℕ
  pub finished_at : Option ℕ

pub record Execution : Type 0 where
  pub summary : ExecutionSummary
  pub open summary use *
  pub current_step : ℕ
  pub total_steps : ℕ
  pub steps : List StepRecord
  pub context : ExecutionContextSnapshot
