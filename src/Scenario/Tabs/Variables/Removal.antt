-- ===== src/Scenario/Tabs/Variables/Removal.antt =====
-- tabs/VariablesTab.tsx: the removal and the renaming of a variable, and what refers to it.
use ocs_testbench.Common.{
  ◌≡◌, ◌≢◌, ◌⊎◌, refl, ◌∙◌, inl, inr, String, false, not, ◌||◌, List, [], ◌∷◌, some, filter_by,
  str_eq, eq_iff, arith, map, ap, Bool-cases,
}
use ocs_testbench.Scenario.{Variable, ScenarioStep, Scenario}
use ocs_testbench.Scenario.Defaults.Variables.{has_name}
use ocs_testbench.Scenario.Draft.{mutate, update_variable}
use ocs_testbench.Scenario.Options.{has_text}
use ocs_testbench.Scenario.Selectors.{
  UsageRef, find_usages, overrides_name, rename_step, rename_usages,
}
use ocs_testbench.Scenario.Selectors.Free.{IsFree, find_usages-eq-nil_iff}
use ocs_testbench.Scenario.Selectors.Fresh.{find_usages-rename_new, find_usages-rename_old}
use ocs_testbench.Scenario.Tabs.{mutate_all}
use ocs_testbench.Scenario.Tabs.Variables.{
  system_names, user_variables, selected_user, VariablesView, request_remove, confirm_remove,
  change, confirm, act,
}
use ocs_testbench.Scenario.Tabs.Variables.Distinct.{run}

has_name-removed :
    (name : String) (vs : List Variable)
    → has_name name (filter_by (λ v. not (str_eq v.name name)) vs) ≡ false
has_name-removed name [] = refl
has_name-removed name (v ∷ vs) = ground (arith, has_name-removed name vs)

flipped : (a b : String) → str_eq a b ≡ false → str_eq b a ≡ false
flipped a b h = ground (arith, eq_iff a b, eq_iff b a)

differs : (a b : String) → str_eq a b ≡ false → b ≢ a
differs a b h e = ground (arith, eq_iff a b, e)

module _ (trim : String → String) where
  -- What a request and its confirmation leave of a draft: all of it where an AVP, a service or an
  -- override names the variable; else the variable is gone.
  abbrev pub Removed : String → Scenario → Scenario → Type 0
  Removed name d t =
      ((¬ (IsFree name d)) × (t ≡ d))
      ⊎ (IsFree name d × IsFree name t × (has_name name t.variables ≡ false))

  confirmed :
      (name : String) (d : Scenario) (v : VariablesView) (us : List UsageRef)
      → find_usages d name ≡ us
      → Removed name d
          (mutate_all (confirm trim (some (record { name = name; usages = us })) d v).0 d)
  unfolding confirm mutate_all mutate
  confirmed name d v [] e =
      let free = (find_usages-eq-nil_iff name d).0 e in
      inr (free, free, has_name-removed name d.variables)
  confirmed name d v (u ∷ us) e =
      inl ((λ free. let none_left = (find_usages-eq-nil_iff name d).1 free in cc), refl)

  -- Asking to remove a variable and confirming it: if no AVP, no field of a service and no override of
  -- a request or consume step names the variable, it is removed, and still none of these names it;
  -- else the draft stays as it is. The conditions of repeated steps are not looked at.
  pub run-remove :
      (name : String) (d : Scenario) (v : VariablesView)
      → Removed name d (run trim (request_remove name ∷ confirm_remove ∷ []) d v).0
  unfolding run act mutate_all
  run-remove name d v = confirmed name d _ (find_usages d name) refl

  usages-update :
      (old name : String) (w : Variable) (d : Scenario)
      → str_eq old w.name ≡ false
      → find_usages (mutate (update_variable old w) d) name
        ≡ find_usages (rename_usages d old w.name) name
  unfolding mutate find_usages
  usages-update old name w d h = rw h refl

  conditions-steps :
      (old name : String) (ss : List ScenarioStep)
      → map (λ s. s.repeat_until) (map (rename_step old name) ss) ≡ map (λ s. s.repeat_until) ss
  unfolding rename_step
  conditions-steps old name [] = refl
  conditions-steps old name (s ∷ ss) = elim (Bool-cases (overrides_name s old)) [
    | inl t ↦ rw t (ap (λ l. s.repeat_until ∷ l) (conditions-steps old name ss))
    | inr f ↦ rw f (ap (λ l. s.repeat_until ∷ l) (conditions-steps old name ss))
  ]

  conditions-update :
      (old : String) (w : Variable) (d : Scenario)
      → str_eq old w.name ≡ false
      → map (λ s. s.repeat_until) (mutate (update_variable old w) d).steps
        ≡ map (λ s. s.repeat_until) d.steps
  unfolding mutate rename_usages
  conditions-update old w d h = rw h (conditions-steps old w.name d.steps)

  -- A change of the selected variable to a name that is, trimmed, another one, not empty, not that of a
  -- variable that the tab shows and not named by an AVP, a service or an override of the draft: the
  -- usages of the old name that the code finds are then those of the new one, in the same places;
  -- no AVP, no service and no override names the old one; and the conditions of repeated steps are as
  -- they were, also where they name it.
  pub run-change_renames :
      (updated u : Variable) (d : Scenario) (v : VariablesView)
      → selected_user v.selected d ≡ some u
      → str_eq (trim updated.name) u.name ≡ false
      → str_eq (trim updated.name) "" ≡ false
      → (has_text (trim updated.name) (system_names d)
          || has_name (trim updated.name) (user_variables d))
        ≡ false
      → IsFree (trim updated.name) d
      → (let t = (run trim (change updated ∷ []) d v).0 in
          (find_usages t (trim updated.name) ≡ find_usages d u.name)
          × IsFree u.name t
          × (map (λ s. s.repeat_until) t.steps ≡ map (λ s. s.repeat_until) d.steps))
  unfolding run act mutate_all
  run-change_renames updated u d v chosen other filled free spare =
      let unused = (find_usages-eq-nil_iff (trim updated.name) d).1 spare in
      let n = trim updated.name in
      let w : Variable = record updated { name = trim updated.name } in
      let ne : u.name ≢ n = differs n u.name other in
      let back : str_eq u.name n ≡ false = flipped n u.name other in
      (
        rw (chosen, other, filled, free)
            (usages-update u.name n w d back ∙ find_usages-rename_new u.name n ne d unused),
        (find_usages-eq-nil_iff u.name ((run trim (change updated ∷ []) d v).0)).0 (
            rw (chosen, other, filled, free)
              (usages-update u.name u.name w d back ∙ find_usages-rename_old u.name n ne d)),
        rw (chosen, other, filled, free) (conditions-update u.name w d back),
      )
