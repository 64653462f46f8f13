-- ===== src/Scenario/Tabs/Services/Declared.antt =====
-- tabs/ServicesTab.tsx: which variables are declared after a service was added, and after the model
-- became `multi-mscc`.
use ocs_testbench.Common.{
  ◌≡◌, refl, ap, ◌∙◌, String, true, false, ◌||◌, List, [], ◌∷◌, ◌++◌, some, All, str_eq, Bool-cases,
  length, ◌+◌, truthy, eq_iff, sym, subst, inl, inr,
}
use text.Mathlib.TextLemmas.{append_assoc, cons-append, cons-ne-nil}
use ocs_testbench.Common.Text.{number_text, ◌⧺◌}
use ocs_testbench.Scenario.{root, multi_mscc, Scenario, Service, Variable}
use ocs_testbench.Scenario.Defaults.Variables.{has_name}
use ocs_testbench.Scenario.Draft.{ScenarioDraftState, dispatch_all, dispatch, commit, mutate}
use ocs_testbench.Scenario.Provision.{provision_variables, ensure_var, rsu_total, usu_total}
use ocs_testbench.Scenario.Provision.Fills.{provision_variables-Added, provision_variables-last}
use ocs_testbench.Scenario.Tabs.{apply_edits}
use ocs_testbench.Scenario.Tabs.Services.{
  seeded, keeps_services, with_services, handle_segment, new_service, add_service,
}

abbrev pub after_add : Scenario → Scenario
after_add d =
    let next = with_services d (d.services ++ new_service d.services ∷ []) in
    record next { variables = provision_variables next }

prefixed : (at tail : String) → ("RG" ⧺ at ⧺ "_") ⧺ tail ≡ "RG" ⧺ at ⧺ "_" ⧺ tail
prefixed at tail = append_assoc "RG" (at ⧺ "_") tail ∙ ap (λ s. "RG" ⧺ s) (append_assoc at "_" tail)

-- A text that begins with "RG" is not empty.
truthy-prefixed : (rest : String) → truthy (some ("RG" ⧺ rest)) ≡ true
truthy-prefixed rest = elim (Bool-cases (str_eq ("RG" ⧺ rest) "")) [
  | inl t ↦
      absurd (cons-ne-nil _ _ (sym (cons-append "R" "G" rest) ∙ (eq_iff ("RG" ⧺ rest) "").0 t))
  | inr f ↦ rw f refl
]

-- After "Add service" on a draft of the model `multi-mscc` the draft has one service more, at the end,
-- which names variables for its rating group, its requested and its used units; the draft declares all
-- three; and every variable that it declared before it still has, as it was.
pub add_service-declared :
    (d : Scenario) (s : ScenarioDraftState)
    → s.draft ≡ some d
    → d.service_model ≡ multi_mscc
    → (t : Scenario) × ((apply_edits (add_service d) s).draft ≡ some t)
      × (svc : Service) × (t.services ≡ d.services ++ svc ∷ [])
      × (group : String) × (svc.rating_group ≡ some group)
      × (used : String) × (svc.used_units ≡ some used)
      × All (λ n. has_name n t.variables ≡ true) (group ∷ svc.requested_units ∷ used ∷ [])
      × (extra : List Variable) × (t.variables ≡ d.variables ++ extra)
unfolding apply_edits dispatch_all dispatch commit mutate add_service
add_service-declared d s loaded multi =
    let svc = new_service d.services in
    let next = with_services d (d.services ++ svc ∷ []) in
    let (extra, e, _) = provision_variables-Added next in
    let at : String = number_text (length d.services + 1) in
    let filled = truthy-prefixed in
    let (group, req, used) =
      provision_variables-last next d.services svc multi refl (filled (at ⧺ "_RATING_GROUP"))
        (filled (at ⧺ "_UNITS_REQ")) (filled (at ⧺ "_UNITS_USED")) in
    let IsDeclared : String → Type 0 = λ n. has_name n (provision_variables next) ≡ true in
    let declared : All (λ n. has_name n (provision_variables next) ≡ true)
        (("RG" ⧺ at ⧺ "_RATING_GROUP")
          ∷ ("RG" ⧺ at ⧺ "_UNITS_REQ")
          ∷ ("RG" ⧺ at ⧺ "_UNITS_USED")
          ∷ []) =
      (
        subst IsDeclared (prefixed at "RATING_GROUP") group,
        (
          subst IsDeclared (prefixed at "UNITS_REQ") req,
          (subst IsDeclared (prefixed at "UNITS_USED") used, tt),
        ),
      ) in
    (after_add d, rw loaded refl, svc, refl, _, refl, _, refl, declared, extra, e)

has_name-ensure_var :
    (n : String) (vs : List Variable) (v : Variable)
    → str_eq v.name n ≡ false
    → has_name n (ensure_var vs v.name v) ≡ has_name n vs
unfolding ensure_var
has_name-ensure_var n vs v h = elim (Bool-cases (has_name v.name vs)) [
  | inl t ↦ rw t refl
  | inr t ↦ rw t (has_name-snoc vs)
]
  where
    has_name-snoc : (us : List Variable) → has_name n (us ++ v ∷ []) ≡ has_name n us
    has_name-snoc [] = rw h refl
    has_name-snoc (u ∷ us) = ap (λ b. str_eq u.name n || b) (has_name-snoc us)

-- Where a draft of the model `root` whose services are to be seeded becomes `multi-mscc`, it gets the
-- two seeded services, but no variable but RSU_TOTAL and USU_TOTAL is declared that was not before:
-- the variables are provisioned for the model that the draft had.
pub handle_segment-undeclared :
    (d : Scenario) (s : ScenarioDraftState) (n : String)
    → s.draft ≡ some d
    → d.service_model ≡ root
    → keeps_services d.services ≡ false
    → str_eq "RSU_TOTAL" n ≡ false
    → str_eq "USU_TOTAL" n ≡ false
    → (t : Scenario) × ((apply_edits (handle_segment multi_mscc d) s).draft ≡ some t)
      × (t.service_model ≡ multi_mscc)
      × (t.services ≡ seeded)
      × (has_name n t.variables ≡ has_name n d.variables)
unfolding apply_edits dispatch_all dispatch commit mutate handle_segment provision_variables
handle_segment-undeclared d s n loaded model seeds r u =
    let vs = ensure_var (ensure_var d.variables "RSU_TOTAL" rsu_total) "USU_TOTAL" usu_total in
    (
      record d { service_model = multi_mscc; services = seeded; variables = vs },
      rw (loaded, seeds, model) refl,
      refl,
      refl,
      has_name-ensure_var n (ensure_var d.variables "RSU_TOTAL" rsu_total) usu_total u
          ∙ has_name-ensure_var n d.variables rsu_total r,
    )
