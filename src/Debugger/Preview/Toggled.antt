-- ===== src/Debugger/Preview/Toggled.antt =====
-- What a click on a service does to the preview.
use ocs_testbench.Common.{
  ℕ, ◌≡◌, refl, sym, ap, ◌∙◌, subst, inl, inr, String, Bool, true, false, not, ◌||◌, List, [], ◌∷◌,
  ◌++◌, map, filter_by, str_eq, eq_iff, if◌then◌else◌, Bool-cases,
}
use ocs_testbench.Scenario.{ServiceModel, root, single_mscc, multi_mscc, Scenario}
use ocs_testbench.Debugger.Store.{ExecutionStoreState}
use ocs_testbench.Debugger.Actions.{set_has, toggle, toggle_service}
use ocs_testbench.Debugger.Preview.{
  ContextVars, service_avps, resolve_ccr_preview, build_mscc_block, blocks_of, beside, msi,
  append_tree, resolve_tree,
}

or_comm : (a b : Bool) → (a || b) ≡ (b || a)
or_comm true true = refl
or_comm true false = refl
or_comm false true = refl
or_comm false false = refl

or_assoc : (a b c : Bool) → (a || (b || c)) ≡ ((a || b) || c)
or_assoc true b c = refl
or_assoc false b c = refl

if_same : (b : Bool) → (if b then false else false) ≡ false
if_same true = refl
if_same false = refl

dropped : (b c : Bool) → (if b then false else c) ≡ (if b then false else (b || c))
dropped true c = refl
dropped false c = refl

kept :
    (b a c : Bool)
    → (b ≡ true → a ≡ false)
    → (a || (if b then false else c)) ≡ (if b then false else (a || c))
kept true a c h = rw (h refl) refl
kept false a c h = refl

not-not : (b : Bool) → not (not b) ≡ b
not-not true = refl
not-not false = refl

set_has-append :
    (x y : String) (xs : List String) → set_has x (xs ++ y ∷ []) ≡ (set_has x xs || str_eq y x)
set_has-append x y [] = or_comm (str_eq y x) false
set_has-append x y (z ∷ xs) =
    ap (λ b. str_eq z x || b) (set_has-append x y xs)
    ∙ or_assoc (str_eq z x) (set_has x xs) (str_eq y x)

-- Whether `x` is in the set without `y`.
set_has-filter_by :
    (x y : String) (xs : List String)
    → set_has x (filter_by (λ z. not (str_eq z y)) xs)
      ≡ (if str_eq y x then false else set_has x xs)
set_has-filter_by x y [] = sym (if_same (str_eq y x))
set_has-filter_by x y (z ∷ xs) = elim (Bool-cases (str_eq z y)) [
  | inl same ↦
      let e : z ≡ y = (eq_iff z y).0 same in
      rw same (
        set_has-filter_by x y xs
        ∙ subst
            (λ u.
              (if str_eq y x then false else set_has x xs)
              ≡ (if str_eq y x then false else (str_eq u x || set_has x xs)))
            (sym e) (dropped (str_eq y x) (set_has x xs)))
  | inr other ↦ rw other (
      ap (λ b. str_eq z x || b) (set_has-filter_by x y xs)
      ∙ kept (str_eq y x) (str_eq z x) (set_has x xs)
          (λ same. subst (λ u. str_eq z u ≡ false) ((eq_iff y x).0 same) other))
]

set_has-toggle :
    (x y : String) (xs : List String)
    → set_has x (toggle y xs) ≡ (if str_eq y x then not (set_has x xs) else set_has x xs)
unfolding toggle
set_has-toggle x y xs = elim (Bool-cases (str_eq y x)) [
  | inl same ↦ elim (Bool-cases (set_has y xs)) [
    | inl there ↦
        rw (there, set_has-filter_by x y xs, same)
          (rw (subst (λ u. set_has u xs ≡ true) ((eq_iff y x).0 same) there) refl)
    | inr away ↦
        rw (away, set_has-append x y xs, same)
          (rw (subst (λ u. set_has u xs ≡ false) ((eq_iff y x).0 same) away) refl)
  ]
  | inr other ↦ elim (Bool-cases (set_has y xs)) [
    | inl there ↦ rw (there, set_has-filter_by x y xs, other) refl
    | inr away ↦ rw (away, set_has-append x y xs, other) (or_comm (set_has x xs) false)
  ]
]

toggled_twice :
    (b c : Bool) → (if b then not (if b then not c else c) else (if b then not c else c)) ≡ c
toggled_twice true c = not-not c
toggled_twice false c = refl

set_has-toggle-toggle :
    (x y : String) (xs : List String) → set_has x (toggle y (toggle y xs)) ≡ set_has x xs
set_has-toggle-toggle x y xs =
    set_has-toggle x y (toggle y xs)
    ∙ ap (λ c. if str_eq y x then not c else c) (set_has-toggle x y xs)
    ∙ toggled_twice (str_eq y x) (set_has x xs)

filter_by_ext {ℓ} :
    {A : Type ℓ} (p q : A → Bool) (xs : List A)
    → ((x : A) → p x ≡ q x)
    → filter_by p xs ≡ filter_by q xs
filter_by_ext p q [] h = refl
filter_by_ext p q (x ∷ xs) h = elim (Bool-cases (q x)) [
  | inl t ↦ rw (h x, t) (ap (λ l. x ∷ l) (filter_by_ext p q xs h))
  | inr f ↦ rw (h x, f) (filter_by_ext p q xs h)
]

-- The preview depends on the services that are in the set, not on the order they came in.
enabled-service_avps :
    (m : ServiceModel) (scenario : Scenario) (vars : ContextVars) (xs ys : List String)
    → ((id : String) → set_has id xs ≡ set_has id ys)
    → service_avps m scenario vars xs ≡ service_avps m scenario vars ys
unfolding service_avps
enabled-service_avps root scenario vars xs ys h = refl
enabled-service_avps single_mscc scenario vars xs ys h = refl
enabled-service_avps multi_mscc scenario vars xs ys h =
    ap (λ ss. beside (msi 1) (blocks_of (map (λ s. build_mscc_block s vars) ss)))
      (filter_by_ext _ _ scenario.services (λ s. h s.id))

module _ {ℓ} {P : Type ℓ} where
  -- Two clicks on a service of the step editor give the preview back, whichever the service model
  -- and whichever services were enabled in whichever order.
  pub preview-toggle_service :
      (scenario : Scenario) (i : ℕ) (vars : ContextVars) (id : String) (s : ExecutionStoreState P)
      → resolve_ccr_preview scenario i vars
          (toggle_service id (toggle_service id s)).edit.services_enabled
        ≡ resolve_ccr_preview scenario i vars s.edit.services_enabled
  unfolding resolve_ccr_preview toggle_service
  preview-toggle_service scenario i vars id s =
      ap (append_tree (resolve_tree scenario.avp_tree vars)) (
        enabled-service_avps scenario.service_model scenario vars _ _
          (λ x. set_has-toggle-toggle x id s.edit.services_enabled))
