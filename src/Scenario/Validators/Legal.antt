-- ===== src/Scenario/Validators/Legal.antt =====
-- validators.ts: three conditions on a scenario, stated by themselves.
use ocs_testbench.Common.{
  ℕ, ◌+◌, ◌≡◌, refl, ◌≢◌, ◌↔◌, true, List, [], ◌∷◌, Option, some, All, truthy, arith,
  append-eq-nil_iff, if◌then◌else◌,
}
use ocs_testbench.Scenario.{
  SessionMode, session, event, ServiceModel, root, single_mscc, Service, StepKind, request,
  RequestType, initial, update, terminate, event_request, UnitType, volume, time, event_units,
  multi_mscc,
}
use ocs_testbench.Scenario.Validators.{
  StepInput, ValidateInput, cell_issues, is_mscc, matrix, derive_unit_type, service_issues,
  step_issue, step_issues, validate_scenario, is_legal_request_type,
}

-- The combinations that the documentation's table allows.
abbrev pub Allowed : UnitType → ServiceModel → Type 0
Allowed u root = u ≢ volume
Allowed u single_mscc = Unit
Allowed u multi_mscc = u ≡ volume

abbrev pub HasRatingGroup : Service → Type 0
HasRatingGroup svc = truthy svc.rating_group ≡ true

-- A request step that names a type names one that is legal for the mode.
abbrev pub IsLegalStep : SessionMode → StepInput → Type 0
IsLegalStep mode s =
    (t : RequestType)
    → s.kind ≡ request
    → s.request_type ≡ some t
    → is_legal_request_type mode t ≡ true

pub record IsSavable (input : ValidateInput) : Type 0 where
  pub allowed : Allowed (derive_unit_type input.service_type) input.service_model
  pub rated : input.service_model ≢ root → All HasRatingGroup input.services
  pub legal : All (IsLegalStep input.session_mode) input.steps

cell_issues_iff : (u : UnitType) (m : ServiceModel) → (cell_issues (matrix u m) ≡ []) ↔ Allowed u m
unfolding matrix
cell_issues_iff volume root = (λ e. cc, λ a. absurd (a refl))
cell_issues_iff volume single_mscc = (λ e. tt, λ a. refl)
cell_issues_iff u single_mscc = (λ e. tt, λ a. refl)
cell_issues_iff volume multi_mscc = (λ e. refl, λ a. refl)
cell_issues_iff time root = (λ e p. cc, λ a. refl)
cell_issues_iff event_units root = (λ e p. cc, λ a. refl)
cell_issues_iff time multi_mscc = (λ e. cc, λ a. cc)
cell_issues_iff event_units multi_mscc = (λ e. cc, λ a. cc)

service_issues_iff :
    (m : ServiceModel) (i : ℕ) (svcs : List Service)
    → (service_issues m i svcs ≡ []) ↔ All HasRatingGroup svcs
unfolding service_issues
service_issues_iff m i [] = (λ e. tt, λ a. refl)
service_issues_iff m i (svc ∷ svcs) = ground (arith, service_issues_iff m (i + 1) svcs)

step_issue_iff :
    (mode : SessionMode) (i : ℕ) (k : StepKind) (o : Option RequestType)
    → (step_issue mode i k o ≡ []) ↔ IsLegalStep mode (record { kind = k; request_type = o })
unfolding is_legal_request_type
step_issue_iff session i request (some event_request) =
    (λ e. cc, λ h. cc (h event_request refl refl))
step_issue_iff event i request (some initial) = (λ e. cc, λ h. cc (h initial refl refl))
step_issue_iff event i request (some update) = (λ e. cc, λ h. cc (h update refl refl))
step_issue_iff event i request (some terminate) = (λ e. cc, λ h. cc (h terminate refl refl))
step_issue_iff mode i k o = (λ e t p q. ground arith, λ h. refl)

step_issues_iff :
    (mode : SessionMode) (i : ℕ) (ss : List StepInput)
    → (step_issues mode i ss ≡ []) ↔ All (IsLegalStep mode) ss
unfolding step_issues
step_issues_iff mode i [] = (λ e. tt, λ a. refl)
step_issues_iff mode i (s ∷ ss) =
    let (to, from) =
      append-eq-nil_iff (step_issue mode i s.kind s.request_type) (step_issues mode (i + 1) ss) in
    let one = step_issue_iff mode i s.kind s.request_type in
    let rest = step_issues_iff mode (i + 1) ss in
    (λ e. (one.0 (to e).0, rest.0 (to e).1), λ a. from (one.1 a.0, rest.1 a.1))

rated_iff :
    (m : ServiceModel) (svcs : List Service)
    → ((if is_mscc m then service_issues m 0 svcs else []) ≡ [])
      ↔ (m ≢ root → All HasRatingGroup svcs)
rated_iff root svcs = (λ e ne. absurd (ne refl), λ h. refl)
rated_iff m svcs =
    (λ e ne. (service_issues_iff m 0 svcs).0 e, λ h. (service_issues_iff m 0 svcs).1 (h (λ e. cc)))

-- The validator reports nothing exactly when the unit type and the service model are an allowed
-- pair, every service of an MSCC model has a rating group, and every request step that names a
-- type names one that the Steps tab offers for the session mode.
pub validate_scenario-eq-nil_iff :
    (input : ValidateInput) → (validate_scenario input ≡ []) ↔ IsSavable input
unfolding validate_scenario
validate_scenario-eq-nil_iff input =
    let cell = cell_issues_iff (derive_unit_type input.service_type) input.service_model in
    let rated = rated_iff input.service_model input.services in
    let legal = step_issues_iff input.session_mode 0 input.steps in
    let (to, from) = append-eq-nil_iff _ (step_issues input.session_mode 0 input.steps) in
    let (to_front, from_front) =
      append-eq-nil_iff
        (cell_issues (matrix (derive_unit_type input.service_type) input.service_model)) _ in
    (
      λ e. record {
        allowed = cell.0 (to_front (to e).0).0;
        rated = rated.0 (to_front (to e).0).1;
        legal = legal.0 (to e).1;
      },
      λ v. from (from_front (cell.1 v.allowed, rated.1 v.rated), legal.1 v.legal),
    )
