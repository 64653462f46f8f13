-- ===== src/Scenario/Tabs/Variables/Names.antt =====
-- Lists of variables with different names, under what the tab does to them.
use ocs_testbench.Common.{
  ℕ, ◌+◌, ◌≡◌, ◌⊎◌, refl, sym, ap, ◌∙◌, inl, inr, String, Bool, true, false, ◌||◌, List, [], ◌∷◌,
  ◌++◌, some, filter_by, str_eq, eq_iff, truthy, arith, Bool-cases,
}
use ocs_testbench.Scenario.{
  ServiceModel, root, single_mscc, multi_mscc, Variable, Service, Scenario,
}
use ocs_testbench.Scenario.Defaults.Variables.{has_name}
use ocs_testbench.Scenario.Draft.{replace_variable}
use ocs_testbench.Scenario.Provision.{
  ensure_var, ensure_if, provision_service, provision_services, provision_variables,
}

abbrev pub AreDistinct : List Variable → Type 0
AreDistinct [] = Unit {0}
AreDistinct (v ∷ vs) = (has_name v.name vs ≡ false) × AreDistinct vs

has_name-snoc :
    (n : String) (vs : List Variable) (w : Variable)
    → has_name n (vs ++ w ∷ []) ≡ (has_name n vs || str_eq w.name n)
has_name-snoc n [] w = ground arith
has_name-snoc n (v ∷ vs) w = ground (arith, has_name-snoc n vs w)

pub snoc-AreDistinct :
    (vs : List Variable) (w : Variable)
    → has_name w.name vs ≡ false
    → AreDistinct vs
    → AreDistinct (vs ++ w ∷ [])
snoc-AreDistinct [] w e h = (refl, tt)
snoc-AreDistinct (v ∷ vs) w e (d, h) = (
  has_name-snoc v.name vs w ∙ ground (arith, eq_iff v.name w.name, eq_iff w.name v.name),
  snoc-AreDistinct vs w (ground arith) h,
)

ensure_var-AreDistinct :
    (vs : List Variable) (w : Variable) → AreDistinct vs → AreDistinct (ensure_var vs w.name w)
unfolding ensure_var
ensure_var-AreDistinct vs w h = elim (Bool-cases (has_name w.name vs)) [
  | inl t ↦ rw t h
  | inr t ↦ rw t (snoc-AreDistinct vs w t h)
]

ensure_if-AreDistinct :
    (b : Bool) (w : Variable) (vs : List Variable) → AreDistinct vs → AreDistinct (ensure_if b w vs)
ensure_if-AreDistinct true w vs h = ensure_var-AreDistinct vs w h
ensure_if-AreDistinct false w vs h = h

services-AreDistinct :
    (multi : Bool) (i : ℕ) (svcs : List Service) (vs : List Variable)
    → AreDistinct vs
    → AreDistinct (provision_services multi i svcs vs)
unfolding provision_services provision_service
services-AreDistinct multi i [] vs h = h
services-AreDistinct multi i (svc ∷ svcs) vs h =
    services-AreDistinct multi (i + 1) svcs (provision_service multi i svc vs) (
      ensure_if-AreDistinct (truthy svc.used_units) _ _ (
        ensure_if-AreDistinct (truthy (some svc.requested_units)) _ _
          (ensure_if-AreDistinct (truthy svc.rating_group) _ vs h)))

pub provision-AreDistinct :
    (m : ServiceModel) (d : Scenario)
    → d.service_model ≡ m
    → AreDistinct d.variables
    → AreDistinct (provision_variables d)
unfolding provision_variables
provision-AreDistinct root d e h =
    rw e (ensure_var-AreDistinct _ _ (ensure_var-AreDistinct d.variables _ h))
provision-AreDistinct single_mscc d e h =
    rw e (services-AreDistinct false 0 d.services d.variables h)
provision-AreDistinct multi_mscc d e h = rw e (services-AreDistinct true 0 d.services d.variables h)

module _ (p : Variable → Bool) where
  has_name-filter :
      (n : String) (vs : List Variable)
      → has_name n vs ≡ false
      → has_name n (filter_by p vs) ≡ false
  has_name-filter n [] h = refl
  has_name-filter n (v ∷ vs) h = ground (arith, has_name-filter n vs)

  pub filter-AreDistinct : (vs : List Variable) → AreDistinct vs → AreDistinct (filter_by p vs)
  filter-AreDistinct [] h = h
  filter-AreDistinct (v ∷ vs) (d, h) = elim (Bool-cases (p v)) [
    | inl t ↦ rw t (has_name-filter v.name vs d, filter-AreDistinct vs h)
    | inr t ↦ rw t (filter-AreDistinct vs h)
  ]

module _ (old : String) (w : Variable) where
  replace-absent : (vs : List Variable) → has_name old vs ≡ false → replace_variable old w vs ≡ vs
  replace-absent [] h = refl
  replace-absent (v ∷ vs) h = ground (arith, replace-absent vs)

  has_name-replace :
      (n : String) (vs : List Variable)
      → has_name n vs ≡ false
      → str_eq w.name n ≡ false
      → has_name n (replace_variable old w vs) ≡ false
  has_name-replace n [] h e = refl
  has_name-replace n (v ∷ vs) h e = ground (arith, has_name-replace n vs)

  -- The new name is the old one, or free.
  pub replace-AreDistinct :
      (vs : List Variable)
      → (w.name ≡ old) ⊎ (has_name w.name vs ≡ false)
      → AreDistinct vs
      → AreDistinct (replace_variable old w vs)
  replace-AreDistinct [] f h = h
  replace-AreDistinct (v ∷ vs) (inl same) (d, h) = elim (Bool-cases (str_eq v.name old)) [
    | inl t ↦
        let e : v.name ≡ old = (eq_iff v.name old).0 t in
        let absent : has_name old vs ≡ false = ap (λ n. has_name n vs) (sym e) ∙ d in
        rw (t, replace-absent vs absent) (ap (λ n. has_name n vs) same ∙ absent, h)
    | inr t ↦ rw t (
      has_name-replace v.name vs d (ground (arith, eq_iff w.name v.name, eq_iff v.name old, same)),
      replace-AreDistinct vs (inl same) h,
    )
  ]
  replace-AreDistinct (v ∷ vs) (inr free) (d, h) = elim (Bool-cases (str_eq v.name old)) [
    | inl t ↦
        let e : v.name ≡ old = (eq_iff v.name old).0 t in
        let absent : has_name old vs ≡ false = ap (λ n. has_name n vs) (sym e) ∙ d in
        rw (t, replace-absent vs absent) (ground arith, h)
    | inr t ↦ rw t (
      has_name-replace v.name vs d (ground (arith, eq_iff w.name v.name, eq_iff v.name w.name)),
      replace-AreDistinct vs (inr (ground arith)) h,
    )
  ]
