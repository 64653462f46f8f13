-- ===== src/Scenario/Validators.antt =====
-- web/src/pages/scenarios/validators.ts and tabs/stepsValidation.ts: which scenarios may be saved.
pub mod Legal
use ocs_testbench.Common.{
  ℕ, ◌+◌, String, Bool, true, false, not, ◌||◌, List, [], ◌∷◌, ◌++◌, Option, none, some, truthy,
  or_else, if◌then◌else◌,
}
use ocs_testbench.Common.Text.{number_text, ◌⧺◌}
use ocs_testbench.Scenario.{
  UnitType, volume, time, event_units, SessionMode, session, event, ServiceModel, root, single_mscc,
  multi_mscc, ServiceType, voice, data_service, sms, ussd1, ussd2, RequestType, initial, update,
  terminate, event_request, Service, StepKind, request, ScenarioStep,
}

pub record MatrixCell : Type 0 where
  pub allowed : Bool
  pub hint : Option String

unfoldable pub derive_unit_type : Option ServiceType → UnitType
derive_unit_type (some voice) = time
derive_unit_type (some ussd2) = time
derive_unit_type (some data_service) = volume
derive_unit_type _ = event_units

unfoldable pub matrix : UnitType → ServiceModel → MatrixCell
matrix volume root = record {
  allowed = false;
  hint = some "VOLUME requires MSCC. Use Single or Multi MSCC.";
}
matrix time multi_mscc = record {
  allowed = false;
  hint = some "Multi-MSCC is only valid with VOLUME unit type.";
}
matrix event_units multi_mscc = record {
  allowed = false;
  hint = some "Multi-MSCC is only valid with VOLUME unit type.";
}
matrix _ _ = record { allowed = true; hint = none }

pub record ValidationIssue : Type 0 where
  pub path : String
  pub message : String

-- The matrix's issue, if the cell is not allowed.
abbrev pub cell_issues : MatrixCell → List ValidationIssue
cell_issues cell =
    if not cell.allowed
    then record {
      path = "/serviceModel";
      message = or_else cell.hint "serviceModel × serviceType combination not allowed";
    }
      ∷ []
    else []

abbrev is_mscc : ServiceModel → Bool
is_mscc root = false
is_mscc _ = true

abbrev model_text : ServiceModel → String
model_text root = "root"
model_text single_mscc = "single-mscc"
model_text multi_mscc = "multi-mscc"

abbrev rating_group_issue : ServiceModel → ℕ → ValidationIssue
rating_group_issue model i = record {
  path = "/services/" ⧺ number_text i ⧺ "/ratingGroup";
  message =
      "Service "
      ⧺ number_text (i + 1)
      ⧺ ": Rating-Group is required for "
      ⧺ model_text model
      ⧺ " scenarios";
}

-- The services from index `i` on.
unfoldable pub service_issues : ServiceModel → ℕ → List Service → List ValidationIssue
service_issues model i [] = []
service_issues model i (svc ∷ svcs) =
    (if not (truthy svc.rating_group) then rating_group_issue model i ∷ [] else [])
    ++ service_issues model (i + 1) svcs

abbrev is_request : StepKind → Bool
is_request request = true
is_request _ = false

abbrev is_event : RequestType → Bool
is_event event_request = true
is_event _ = false

abbrev request_type_issue : ℕ → String → ValidationIssue
request_type_issue i message = record {
  path = "/steps/" ⧺ number_text i ⧺ "/requestType";
  message = message;
}

-- What one step adds. A step of another kind, or with no request type, is passed over.
abbrev pub step_issue : SessionMode → ℕ → StepKind → Option RequestType → List ValidationIssue
step_issue session i request (some event_request) =
    request_type_issue i "EVENT is only legal under sessionMode=event" ∷ []
step_issue event i request (some t) =
    if not (is_event t)
    then request_type_issue i "Only EVENT is legal under sessionMode=event" ∷ []
    else []
step_issue mode i kind t = []

-- A step as the validator takes it.
pub record StepInput : Type 0 where
  pub kind : StepKind
  pub request_type : Option RequestType

-- The steps from index `i` on.
unfoldable pub step_issues : SessionMode → ℕ → List StepInput → List ValidationIssue
step_issues mode i [] = []
step_issues mode i (s ∷ ss) = step_issue mode i s.kind s.request_type ++ step_issues mode (i + 1) ss

pub record ValidateInput : Type 0 where
  pub service_type : Option ServiceType
  pub service_model : ServiceModel
  pub session_mode : SessionMode
  pub services : List Service
  pub steps : List StepInput

unfoldable pub validate_scenario : ValidateInput → List ValidationIssue
unfolding derive_unit_type matrix service_issues step_issues
validate_scenario input =
    cell_issues (matrix (derive_unit_type input.service_type) input.service_model)
    ++ (if is_mscc input.service_model
        then service_issues input.service_model 0 input.services
        else [])
    ++ step_issues input.session_mode 0 input.steps

-- stepsValidation.ts
unfoldable pub legal_request_types : SessionMode → List RequestType
legal_request_types session = initial ∷ update ∷ terminate ∷ []
legal_request_types event = event_request ∷ []

abbrev same_request_type : RequestType → RequestType → Bool
same_request_type initial initial = true
same_request_type update update = true
same_request_type terminate terminate = true
same_request_type event_request event_request = true
same_request_type _ _ = false

unfoldable pub includes_type : List RequestType → RequestType → Bool
includes_type [] t = false
includes_type (u ∷ us) t = same_request_type u t || includes_type us t

unfoldable pub is_legal_request_type : SessionMode → RequestType → Bool
unfolding legal_request_types includes_type
is_legal_request_type mode t = includes_type (legal_request_types mode) t
