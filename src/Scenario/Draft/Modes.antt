-- ===== src/Scenario/Draft/Modes.antt =====
-- Session modes, steps and what the validator says of a draft.
use ocs_testbench.Common.{◌≡◌, ◌≢◌, refl, List, [], ◌∷◌, map, some, true, arith, All, subst, sym}
use mathlib.Core.List.{Memᴰ}
use ocs_testbench.Scenario.Defaults.{default_session_mode, default_steps_for_mode}
use ocs_testbench.Scenario.{
  root, SessionMode, session, event, ussd1, RequestType, event_request, request, ScenarioStep,
  Scenario,
}
use ocs_testbench.Scenario.Validators.{
  StepInput, ValidateInput, validate_scenario, derive_unit_type, is_legal_request_type,
}
use ocs_testbench.Scenario.Validators.Legal.{
  Allowed, HasRatingGroup, IsLegalStep, validate_scenario-eq-nil_iff,
}
use ocs_testbench.Scenario.Draft.{mutate, set_session_mode, set_service_type}

abbrev pub step_input : ScenarioStep → StepInput
step_input p = record { kind = p.kind; request_type = some p.request_type }

-- What `ScenarioBuilderPage` hands to the validator before it saves.
abbrev pub validate_input : Scenario → ValidateInput
validate_input s = record {
  service_type = s.service_type;
  service_model = s.service_model;
  session_mode = s.session_mode;
  services = s.services;
  steps = map step_input s.steps;
}

steps_legal :
    (mode : SessionMode) (s : Scenario)
    → All (IsLegalStep mode) (validate_input (mutate (set_session_mode mode) s)).steps
unfolding mutate default_steps_for_mode is_legal_request_type
steps_legal session s =
    ((λ t p q. ground arith), ((λ t p q. ground arith), ((λ t p q. ground arith), tt)))
steps_legal event s = ((λ t p q. ground arith), tt)

-- Choosing a session mode gives the draft steps that are legal for it: the draft can be saved if
-- its unit type and service model are an allowed pair and its MSCC services have rating groups.
pub set_session_mode-savable :
    (mode : SessionMode) (s : Scenario)
    → Allowed (derive_unit_type s.service_type) s.service_model
    → (s.service_model ≢ root → All HasRatingGroup s.services)
    → validate_scenario (validate_input (mutate (set_session_mode mode) s)) ≡ []
unfolding mutate
set_session_mode-savable mode s allowed rated =
    (validate_scenario-eq-nil_iff (validate_input (mutate (set_session_mode mode) s))).1
      (record { allowed = allowed; rated = rated; legal = steps_legal mode s })

All-map_mem :
    (mode : SessionMode) (ps : List ScenarioStep) (p : ScenarioStep)
    → Memᴰ p ps
    → All (IsLegalStep mode) (map step_input ps)
    → IsLegalStep mode (step_input p)
All-map_mem mode [] p m h = elim m [ ]
All-map_mem mode (q ∷ ps) p (Memᴰ.head e) (h, hs) =
    subst (λ r. IsLegalStep mode (step_input r)) (sym e) h
All-map_mem mode (q ∷ ps) p (Memᴰ.tail m) (h, hs) = All-map_mem mode ps p m hs

event_only : (t : RequestType) → is_legal_request_type event t ≡ true → t ≡ event_request
unfolding is_legal_request_type
event_only t h = ground arith

-- Choosing the service type USSD1 moves the draft to event mode but keeps its steps: if one of
-- them is a request of another type than EVENT, the draft cannot be saved.
pub set_service_type_ussd1-ne-nil :
    (s : Scenario) (p : ScenarioStep)
    → Memᴰ p s.steps
    → p.kind ≡ request
    → p.request_type ≢ event_request
    → validate_scenario (validate_input (mutate (set_service_type (some ussd1)) s)) ≢ []
unfolding mutate default_session_mode
set_service_type_ussd1-ne-nil s p m k ne e =
    let draft = mutate (set_service_type (some ussd1)) s in
    let legal = ((validate_scenario-eq-nil_iff (validate_input draft)).0 e).legal in
    ne (event_only p.request_type (All-map_mem event s.steps p m legal p.request_type k refl))
