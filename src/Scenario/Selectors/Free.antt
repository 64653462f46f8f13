-- ===== src/Scenario/Selectors/Free.antt =====
-- Which scenarios do not refer to a variable, stated on the data, and what `findUsages` finds.
use ocs_testbench.Common.{
  ℕ, ◌+◌, ◌≡◌, ◌≢◌, ◌⊎◌, ◌↔◌, refl, ap, inl, inr, String, Bool, true, false, ◌&&◌, List, [], ◌∷◌,
  ◌++◌, Option, none, some, opt_is, str_eq, eq_iff, append-eq-nil_iff, All, Bool-cases,
  if◌then◌else◌,
}
use ocs_testbench.Common.Objects.{has_key}
use ocs_testbench.Scenario.{
  AvpInfo, AvpNode, leaf, group, AvpTree, nil, cons, Service, StepKind, request, consume, wait,
  pause, VarValue, ScenarioStep, Scenario,
}
use ocs_testbench.Scenario.Selectors.{
  rating_group, service_identifier, requested_units, used_units, own_usage, node_usages,
  tree_usages, field_usage, service_usages, overrides_name, step_usages, find_usages, ServiceField,
  UsageRef, avp_ref, service_ref, step_ref, may_override, has_override,
}

one_if_iff :
    {Q : Type 0} (b : Bool) (x : UsageRef) → (b ≡ false) ↔ Q → ((if b then x ∷ [] else []) ≡ []) ↔ Q
one_if_iff true x (f, g) = (λ h. cc, λ q. cc (g q))
one_if_iff false x (f, g) = (λ h. f refl, λ q. refl)

append_iff :
    {Q R : Type 0} (xs ys : List UsageRef)
    → (xs ≡ []) ↔ Q
    → (ys ≡ []) ↔ R
    → (xs ++ ys ≡ []) ↔ (Q × R)
append_iff xs ys (f, g) (h, k) =
    let (apart, joined) = append-eq-nil_iff xs ys in
    (λ e. (f (apart e).0, h (apart e).1), λ r. joined (g r.0, k r.1))

module _ (name : String) where
  -- No node of the tree takes its value from the variable.
  unfoldable mutual
    pub NodeIsFree : AvpNode → Type 0
    NodeIsFree (leaf inf) = inf.value_ref ≢ some name
    NodeIsFree (group inf kids) = (inf.value_ref ≢ some name) × TreeIsFree kids

    pub TreeIsFree : AvpTree → Type 0
    TreeIsFree nil = Unit
    TreeIsFree (cons n ns) = NodeIsFree n × TreeIsFree ns

  abbrev pub ServiceIsFree : Service → Type 0
  ServiceIsFree svc =
      (svc.rating_group ≢ some name)
      × (svc.service_identifier ≢ some name)
      × (some svc.requested_units ≢ some name)
      × (svc.used_units ≢ some name)

  -- No request or consume step gives the variable a value of its own.
  abbrev pub StepIsFree : ScenarioStep → Type 0
  StepIsFree s =
      (m : List (String × VarValue))
      → (s.kind ≡ request) ⊎ (s.kind ≡ consume)
      → s.overrides ≡ some m
      → has_key name m ≡ false

  -- Neither the AVPs nor the services nor the overrides of the steps name the variable. The conditions
  -- of repeated steps are not looked at.
  abbrev pub IsFree : Scenario → Type 0
  IsFree d = TreeIsFree d.avp_tree × All ServiceIsFree d.services × All StepIsFree d.steps

  opt_is_iff : (o : Option String) → (opt_is o name ≡ false) ↔ (o ≢ some name)
  opt_is_iff none = (λ h e. cc, λ n. refl)
  opt_is_iff (some v) = (
    λ h e. (let same : v ≡ name = cc in let t = (eq_iff v name).1 same in cc),
    λ n. elim (Bool-cases (str_eq v name)) [
      | inl t ↦ absurd (n (ap some ((eq_iff v name).0 t)))
      | inr f ↦ f
    ],
  )

  own_iff : (p : List ℕ) (inf : AvpInfo) → (own_usage name p inf ≡ []) ↔ (inf.value_ref ≢ some name)
  own_iff p inf = one_if_iff (opt_is inf.value_ref name) (avp_ref p inf) (opt_is_iff inf.value_ref)

  field_iff :
      (i : ℕ) (id : String) (f : ServiceField) (o : Option String)
      → (field_usage name i id f o ≡ []) ↔ (o ≢ some name)
  field_iff i id f o = one_if_iff (opt_is o name) (service_ref i id f) (opt_is_iff o)

  mutual
    unfolding node_usages tree_usages NodeIsFree TreeIsFree

    node_iff : (n : AvpNode) (p : List ℕ) → (node_usages name p n ≡ []) ↔ NodeIsFree n
    node_iff (leaf inf) p = own_iff p inf
    node_iff (group inf kids) p =
        append_iff (own_usage name p inf) (tree_usages name p 0 kids) (own_iff p inf)
          (tree_iff kids p 0)

    tree_iff : (t : AvpTree) (p : List ℕ) (i : ℕ) → (tree_usages name p i t ≡ []) ↔ TreeIsFree t
    tree_iff nil p i = (λ h. tt, λ h. refl)
    tree_iff (cons n ns) p i =
        append_iff (node_usages name (p ++ i ∷ []) n) (tree_usages name p (i + 1) ns)
          (node_iff n (p ++ i ∷ [])) (tree_iff ns p (i + 1))

  services_iff :
      (i : ℕ) (svcs : List Service) → (service_usages name i svcs ≡ []) ↔ All ServiceIsFree svcs
  unfolding service_usages
  services_iff i [] = (λ h. tt, λ h. refl)
  services_iff i (svc ∷ svcs) =
      let a = field_iff i svc.id rating_group svc.rating_group in
      let b = field_iff i svc.id service_identifier svc.service_identifier in
      let c = field_iff i svc.id requested_units (some svc.requested_units) in
      let d = field_iff i svc.id used_units svc.used_units in
      let all =
        append_iff _ _ a
          (append_iff _ _ b (append_iff _ _ c (append_iff _ _ d (services_iff (i + 1) svcs)))) in
      (
        (λ h. let (p, (q, (r, (s, more)))) = all.0 h in ((p, q, r, s), more)),
        (λ h. let ((p, q, r, s), more) = h in all.1 (p, (q, (r, (s, more))))),
      )

  no_override_iff :
      (k : StepKind) (o : Option (List (String × VarValue)))
      → (may_override k && has_override o name ≡ false) ↔ (
          (m : List (String × VarValue))
          → (k ≡ request) ⊎ (k ≡ consume)
          → o ≡ some m
          → has_key name m ≡ false)
  no_override_iff request none = (λ h m k e. cc, λ f. refl)
  no_override_iff request (some o) = (λ h m k e. cc, λ f. f o (inl refl) refl)
  no_override_iff consume none = (λ h m k e. cc, λ f. refl)
  no_override_iff consume (some o) = (λ h m k e. cc, λ f. f o (inr refl) refl)
  no_override_iff wait o = (λ h m k e. elim k [ inl x ↦ cc | inr x ↦ cc ], λ f. refl)
  no_override_iff pause o = (λ h m k e. elim k [ inl x ↦ cc | inr x ↦ cc ], λ f. refl)

  step_iff : (s : ScenarioStep) → (overrides_name s name ≡ false) ↔ StepIsFree s
  step_iff s = no_override_iff s.kind s.overrides

  steps_iff : (i : ℕ) (ss : List ScenarioStep) → (step_usages name i ss ≡ []) ↔ All StepIsFree ss
  unfolding step_usages
  steps_iff i [] = (λ h. tt, λ h. refl)
  steps_iff i (s ∷ ss) =
      append_iff _ _ (one_if_iff (overrides_name s name) (step_ref i) (step_iff s))
        (steps_iff (i + 1) ss)

  -- `findUsages` finds nothing exactly if no AVP, no field of a service and no override names the
  -- variable.
  pub find_usages-eq-nil_iff : (d : Scenario) → (find_usages d name ≡ []) ↔ IsFree d
  unfolding find_usages
  find_usages-eq-nil_iff d =
      let (apart, joined) =
        append_iff _ _ (tree_iff d.avp_tree [] 0)
          (append_iff _ _ (services_iff 0 d.services) (steps_iff 0 d.steps)) in
      (
        λ e. (let (t, (s, u)) = apart e in (t, s, u)),
        λ f. (let (t, s, u) = f in joined (t, (s, u))),
      )
