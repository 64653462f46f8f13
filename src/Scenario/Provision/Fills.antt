-- ===== src/Scenario/Provision/Fills.antt =====
-- provisionVariables.ts, as the filling of a list of wanted variables.
use ocs_testbench.Common.{
  ℕ, ◌+◌, ◌≡◌, refl, sym, ◌∙◌, ap, String, Bool, true, false, List, [], ◌∷◌, ◌++◌, append-nil,
  append_assoc, some, All, truthy, arith, Bool-cases, inl, inr, eq_refl, ◌||◌, length, subst,
}
use ocs_testbench.Scenario.{
  ServiceModel, root, single_mscc, multi_mscc, Variable, Service, Scenario,
}
use ocs_testbench.Scenario.Defaults.Variables.{has_name}
use ocs_testbench.Scenario.Provision.{
  ensure_var, ensure_if, rating_group_variable, units_req_variable, units_used_variable,
  provision_service, provision_services, rsu_total, usu_total, provision_for, provision_variables,
}

abbrev one_if : Bool → Variable → List Variable
one_if true v = v ∷ []
one_if false v = []

abbrev wanted_by : Bool → ℕ → Service → List Variable
wanted_by multi i svc =
    one_if (truthy svc.rating_group) (rating_group_variable multi i svc)
    ++ one_if (truthy (some svc.requested_units)) (units_req_variable multi i)
    ++ one_if (truthy svc.used_units) (units_used_variable multi i)

abbrev wanted_from : Bool → ℕ → List Service → List Variable
wanted_from multi i [] = []
wanted_from multi i (svc ∷ svcs) = wanted_by multi i svc ++ wanted_from multi (i + 1) svcs

-- The variables that provisioning by the model and the positions of the services declares, in order.
-- Whether the services refer to these names is a matter of the services.
abbrev pub wanted : ServiceModel → List Service → List Variable
wanted root svcs = rsu_total ∷ usu_total ∷ []
wanted single_mscc svcs = wanted_from false 0 svcs
wanted multi_mscc svcs = wanted_from true 0 svcs

abbrev fill : List Variable → List Variable → List Variable
fill vs [] = vs
fill vs (w ∷ ws) = fill (ensure_var vs w.name w) ws

fill-append : (vs ws us : List Variable) → fill vs (ws ++ us) ≡ fill (fill vs ws) us
fill-append vs [] us = refl
fill-append vs (w ∷ ws) us = fill-append (ensure_var vs w.name w) ws us

ensure_if-eq-fill :
    (b : Bool) (v : Variable) (vs : List Variable) → ensure_if b v vs ≡ fill vs (one_if b v)
ensure_if-eq-fill true v vs = refl
ensure_if-eq-fill false v vs = refl

provision_service-eq-fill :
    (multi : Bool) (i : ℕ) (svc : Service) (vs : List Variable)
    → provision_service multi i svc vs ≡ fill vs (wanted_by multi i svc)
unfolding provision_service
provision_service-eq-fill multi i svc vs = simp (ensure_if-eq-fill, fill-append)

provision_services-eq-fill :
    (multi : Bool) (i : ℕ) (svcs : List Service) (vs : List Variable)
    → provision_services multi i svcs vs ≡ fill vs (wanted_from multi i svcs)
unfolding provision_services
provision_services-eq-fill multi i [] vs = refl
provision_services-eq-fill multi i (svc ∷ svcs) vs =
    provision_services-eq-fill multi (i + 1) svcs (provision_service multi i svc vs)
    ∙ ap (λ l. fill l (wanted_from multi (i + 1) svcs)) (provision_service-eq-fill multi i svc vs)
    ∙ sym (fill-append vs (wanted_by multi i svc) (wanted_from multi (i + 1) svcs))

provision_for-eq-fill :
    (m : ServiceModel) (svcs : List Service) (vs : List Variable)
    → provision_for m svcs vs ≡ fill vs (wanted m svcs)
provision_for-eq-fill root svcs vs = refl
provision_for-eq-fill single_mscc svcs vs = provision_services-eq-fill false 0 svcs vs
provision_for-eq-fill multi_mscc svcs vs = provision_services-eq-fill true 0 svcs vs

has_name-append :
    (n : String) (vs us : List Variable) → has_name n (vs ++ us) ≡ (has_name n vs || has_name n us)
has_name-append n [] us = refl
has_name-append n (v ∷ vs) us = ground (arith, has_name-append n vs us)

has_name-ensure_var_self :
    (vs : List Variable) (w : Variable) → has_name w.name (ensure_var vs w.name w) ≡ true
unfolding ensure_var
has_name-ensure_var_self vs w = ground (arith, has_name-append w.name vs (w ∷ []), eq_refl w.name)

has_name-ensure_var :
    (n : String) (vs : List Variable) (w : Variable)
    → has_name n vs ≡ true
    → has_name n (ensure_var vs w.name w) ≡ true
unfolding ensure_var
has_name-ensure_var n vs w h = ground (arith, has_name-append n vs (w ∷ []))

has_name-fill :
    (n : String) (vs ws : List Variable) → has_name n vs ≡ true → has_name n (fill vs ws) ≡ true
has_name-fill n vs [] h = h
has_name-fill n vs (w ∷ ws) h =
    has_name-fill n (ensure_var vs w.name w) ws (has_name-ensure_var n vs w h)

abbrev HasAll : List Variable → List Variable → Type 0
HasAll vs ws = All (λ w. has_name w.name vs ≡ true) ws

fill-HasAll : (vs ws : List Variable) → HasAll (fill vs ws) ws
fill-HasAll vs [] = tt
fill-HasAll vs (w ∷ ws) = (
  has_name-fill w.name (ensure_var vs w.name w) ws (has_name-ensure_var_self vs w),
  fill-HasAll (ensure_var vs w.name w) ws,
)

fill_of_HasAll : (vs ws : List Variable) → HasAll vs ws → fill vs ws ≡ vs
unfolding ensure_var
fill_of_HasAll vs [] h = refl
fill_of_HasAll vs (w ∷ ws) (p, h) = rw p (fill_of_HasAll vs ws h)

-- What filling adds: new names only, each wanted.
abbrev pub Added : List Variable → List Variable → List Variable → Type 0
Added vs ws extra = All (λ v. (has_name v.name vs ≡ false) × (has_name v.name ws ≡ true)) extra

Added-cons :
    (vs ws : List Variable) (w : Variable) (extra : List Variable)
    → Added vs ws extra
    → Added vs (w ∷ ws) extra
Added-cons vs ws w [] h = tt
Added-cons vs ws w (v ∷ extra) ((p, q), h) = ((p, ground arith), Added-cons vs ws w extra h)

Added-snoc :
    (vs ws : List Variable) (w : Variable) (extra : List Variable)
    → Added (vs ++ w ∷ []) ws extra
    → Added vs (w ∷ ws) extra
Added-snoc vs ws w [] h = tt
Added-snoc vs ws w (v ∷ extra) ((p, q), h) =
    ((ground (arith, has_name-append v.name vs (w ∷ [])), ground arith), Added-snoc vs ws w extra h)

fill-Added :
    (vs ws : List Variable)
    → (extra : List Variable) × (fill vs ws ≡ vs ++ extra) × Added vs ws extra
unfolding ensure_var
fill-Added vs [] = ([], sym (append-nil vs), tt)
fill-Added vs (w ∷ ws) = elim (Bool-cases (has_name w.name vs)) [
  | inl known ↦
      rw known (let (extra, e, a) = fill-Added vs ws in (extra, e, Added-cons vs ws w extra a))
  | inr new ↦ rw new (
      let (extra, e, a) = fill-Added (vs ++ w ∷ []) ws in
      (
        w ∷ extra,
        e ∙ append_assoc vs (w ∷ []) extra,
        ((new, ground (arith, eq_refl w.name)), Added-snoc vs ws w extra a),
      ))
]

-- Provisioning keeps every variable in its place and appends only variables that are wanted for the
-- model and the positions of the services and whose names it did not have: it never overwrites one.
pub provision_variables-Added :
    (s : Scenario)
    → (extra : List Variable) × (provision_variables s ≡ s.variables ++ extra)
      × Added s.variables (wanted s.service_model s.services) extra
unfolding provision_variables
provision_variables-Added s =
    rw (provision_for-eq-fill s.service_model s.services s.variables)
      (fill-Added s.variables (wanted s.service_model s.services))

-- After provisioning every name that is wanted for the model and the positions of the services is
-- there, and provisioning again changes nothing.
pub provision_variables_complete :
    (s : Scenario)
    → All (λ w. has_name w.name (provision_variables s) ≡ true) (wanted s.service_model s.services)
      × (provision_variables (record s { variables = provision_variables s })
          ≡ provision_variables s)
unfolding provision_variables
provision_variables_complete s =
    let ws = wanted s.service_model s.services in
    let e = provision_for-eq-fill s.service_model s.services in
    let have = fill-HasAll s.variables ws in
    (
      rw (e s.variables) have,
      rw (e s.variables) (e (fill s.variables ws) ∙ fill_of_HasAll (fill s.variables ws) ws have),
    )

wanted_from-snoc :
    (multi : Bool) (i n : ℕ) (svcs : List Service) (svc : Service)
    → n ≡ i + length svcs
    → wanted_from multi i (svcs ++ svc ∷ []) ≡ wanted_from multi i svcs ++ wanted_by multi n svc
wanted_from-snoc multi i n [] svc e =
    append-nil (wanted_by multi i svc)
    ∙ ap (λ k. wanted_by multi k svc) (let here : i ≡ n = omega arith in here)
wanted_from-snoc multi i n (s ∷ svcs) svc e =
    ap (λ l. wanted_by multi i s ++ l) (wanted_from-snoc multi (i + 1) n svcs svc (omega arith))
    ∙ sym (
        append_assoc (wanted_by multi i s) (wanted_from multi (i + 1) svcs) (wanted_by multi n svc))

HasAll-right : (vs us ws : List Variable) → HasAll vs (us ++ ws) → HasAll vs ws
HasAll-right vs [] ws h = h
HasAll-right vs (u ∷ us) ws h = HasAll-right vs us ws h.1

HasAll-wanted_by :
    (vs : List Variable) (i : ℕ) (svc : Service)
    → truthy svc.rating_group ≡ true
    → truthy (some svc.requested_units) ≡ true
    → truthy svc.used_units ≡ true
    → HasAll vs (wanted_by true i svc)
    → (has_name (rating_group_variable true i svc).name vs ≡ true)
      × (has_name (units_req_variable true i).name vs ≡ true)
      × (has_name (units_used_variable true i).name vs ≡ true)
HasAll-wanted_by vs i svc g r u = rw (g, r, u) (λ h. (let (a, (b, (c, _))) = h in (a, b, c)))

-- The last service of a `multi-mscc` scenario has, if its three fields are filled, its variables
-- after provisioning.
pub provision_variables-last :
    (s : Scenario) (svcs : List Service) (svc : Service)
    → s.service_model ≡ multi_mscc
    → s.services ≡ svcs ++ svc ∷ []
    → truthy svc.rating_group ≡ true
    → truthy (some svc.requested_units) ≡ true
    → truthy svc.used_units ≡ true
    → (let vs = provision_variables s in
        (has_name (rating_group_variable true (length svcs) svc).name vs ≡ true)
        × (has_name (units_req_variable true (length svcs)).name vs ≡ true)
        × (has_name (units_used_variable true (length svcs)).name vs ≡ true))
provision_variables-last s svcs svc multi last g r u =
    let vs = provision_variables s in
    let ws = wanted_from true 0 svcs in
    HasAll-wanted_by vs (length svcs) svc g r u (
      HasAll-right vs ws (wanted_by true (length svcs) svc) (
        subst (λ l. HasAll vs l)
          (ap (λ m. wanted m s.services) multi
            ∙ ap (wanted multi_mscc) last
            ∙ wanted_from-snoc true 0 (length svcs) svcs svc (omega arith))
          (provision_variables_complete s).0))
