-- ===== src/Scenario/Options/Offered.antt =====
-- Which names the fields offer.
use ocs_testbench.Common.{
  ◌≡◌, refl, sym, ap, ◌∙◌, subst, inl, inr, String, Bool, true, false, not, ◌&&◌, ◌||◌, List, [],
  ◌∷◌, Option, map, any, filter_by, str_eq, eq_iff, Bool-cases,
}
use ocs_testbench.Scenario.{Variable}
use ocs_testbench.Scenario.Options.{
  OptionsContext, VariableOption, VariableOptionGroup, list_system_variables, names_of, user_names,
  has_text, push_group, wrap, build_variable_options,
}

-- Whether a name is an item of one of the groups.
abbrev pub is_item : String → List VariableOption → Bool
is_item name items = any (λ i. str_eq i.value name) items

abbrev pub is_offered : String → List VariableOptionGroup → Bool
is_offered name groups = any (λ g. is_item name g.items) groups

wrapped :
    (name : String) (names : List String) → is_item name (map wrap names) ≡ has_text name names
wrapped name [] = refl
wrapped name (n ∷ names) = ap (λ b. str_eq n name || b) (wrapped name names)

pushed :
    (name title : String) (names : List String) (rest : List VariableOptionGroup)
    → is_offered name (push_group title names rest) ≡ (has_text name names || is_offered name rest)
pushed name title [] rest = refl
pushed name title (n ∷ names) rest = ap (λ b. b || is_offered name rest) (wrapped name (n ∷ names))

none_left : (b : Bool) → false ≡ (b && false)
none_left true = refl
none_left false = refl

pull : (e q h : Bool) → (e ≡ true → q ≡ true) → (e || (q && h)) ≡ (q && (e || h))
pull e true h f = refl
pull true false h f = let e : false ≡ true = f refl in cc
pull false false h f = refl

skipped : (e q h : Bool) → (e ≡ true → q ≡ false) → (q && h) ≡ (q && (e || h))
skipped e false h f = refl
skipped true true h f = let e : true ≡ false = f refl in cc
skipped false true h f = refl

only_false : (s u : Bool) → (not s && u) ≡ true → s ≡ false
only_false true u h = cc
only_false false u h = refl

merge : (s u : Bool) → (s || ((not s && u) || false)) ≡ (s || u)
merge true u = refl
merge false true = refl
merge false false = refl

-- Whether a name is left by the filter.
kept :
    (name : String) (p : String → Bool) (names : List String)
    → has_text name (filter_by p names) ≡ (p name && has_text name names)
kept name p [] = none_left (p name)
kept name p (n ∷ names) = elim (Bool-cases (p n)) [
  | inl t ↦ rw t (
      ap (λ b. str_eq n name || b) (kept name p names)
      ∙ pull (str_eq n name) (p name) (has_text name names)
          (λ same. subst (λ x. p x ≡ true) ((eq_iff n name).0 same) t))
  | inr f ↦ rw f (
      kept name p names
      ∙ skipped (str_eq n name) (p name) (has_text name names)
          (λ same. subst (λ x. p x ≡ false) ((eq_iff n name).0 same) f))
]

-- A name is offered exactly if it is a system variable or the user declared it.
pub is_offered-build_variable_options :
    (name : String) (vs : List Variable) (context : Option OptionsContext)
    → is_offered name (build_variable_options vs context).0 ≡ (
        has_text name (names_of (list_system_variables context))
        || has_text name (map (λ v. v.name) vs))
unfolding build_variable_options user_names
is_offered-build_variable_options name vs context =
    let system = names_of (list_system_variables context) in
    let declared = map (λ (v : Variable). v.name) vs in
    pushed name "System" system (push_group "User" (user_names vs context) [])
    ∙ ap (λ b. has_text name system || b)
        (pushed name "User" (user_names vs context) []
          ∙ ap (λ b. b || false) (kept name (λ x. not (has_text x system)) declared))
    ∙ merge (has_text name system) (has_text name declared)

-- No field offers a name in two groups: what the user's group has is no system variable.
pub user_names-has_text :
    (name : String) (vs : List Variable) (context : Option OptionsContext)
    → has_text name (user_names vs context) ≡ true
    → has_text name (names_of (list_system_variables context)) ≡ false
unfolding user_names
user_names-has_text name vs context h =
    let system = names_of (list_system_variables context) in
    only_false (has_text name system) (has_text name (map (λ (v : Variable). v.name) vs))
      (sym (kept name (λ x. not (has_text x system)) (map (λ (v : Variable). v.name) vs)) ∙ h)
