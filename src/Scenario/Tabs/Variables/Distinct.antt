-- ===== src/Scenario/Tabs/Variables/Distinct.antt =====
-- tabs/VariablesTab.tsx: the names of the variables of a draft.
use ocs_testbench.Common.{
  ◌≡◌, refl, ap, ◌∙◌, inl, inr, String, Bool, false, not, ◌||◌, List, [], ◌∷◌, Option, none, some,
  filter_by, str_eq, eq_iff, arith, Bool-cases,
}
use ocs_testbench.Scenario.{Variable, Scenario}
use ocs_testbench.Scenario.Defaults.Variables.{has_name}
use ocs_testbench.Scenario.Draft.{mutate, replace_variable, update_variable}
use ocs_testbench.Scenario.Options.{has_text}
use ocs_testbench.Scenario.Selectors.{rename_usages}
use ocs_testbench.Scenario.Tabs.{mutate_all}
use ocs_testbench.Scenario.Tabs.Variables.{
  PendingDelete, is_none_left, system_names, user_variables, selected_user, VariablesView,
  added_name, added_variable, VariablesAction, select, add, provision, change, request_remove,
  cancel_remove, confirm_remove, change_selected, confirm, act,
}
use ocs_testbench.Scenario.Tabs.Variables.Names.{
  AreDistinct, filter-AreDistinct, provision-AreDistinct, replace-AreDistinct, snoc-AreDistinct,
}

-- A name that is neither a system variable's nor one of the user's variables is no variable's.
free_name :
    (names : List String) (n : String) (vs : List Variable)
    → has_text n names ≡ false
    → has_name n (filter_by (λ v. not (has_text v.name names)) vs) ≡ false
    → has_name n vs ≡ false
free_name names n [] s h = refl
free_name names n (v ∷ vs) s h = elim (Bool-cases (str_eq v.name n)) [
  | inl t ↦
      let kept : has_text v.name names ≡ false =
        ap (λ m. has_text m names) ((eq_iff v.name n).0 t) ∙ s in
      absurd (ground arith)
  | inr t ↦ rw t (free_name names n vs s (ground arith))
]

variables-rename :
    (d : Scenario) (old new : String) → (rename_usages d old new).variables ≡ d.variables
unfolding rename_usages
variables-rename d old new = ground arith

mutate-update :
    (old : String) (w : Variable) (d : Scenario)
    → (mutate (update_variable old w) d).variables ≡ replace_variable old w d.variables
unfolding mutate
mutate-update old w d = elim (Bool-cases (str_eq old w.name)) [
  | inl t ↦ rw t refl
  | inr t ↦ rw (t, variables-rename d old w.name) refl
]

or_left : (a b : Bool) → (a || b) ≡ false → a ≡ false
or_left a b h = ground arith

or_right : (a b : Bool) → (a || b) ≡ false → b ≡ false
or_right a b h = ground arith

-- An added variable's name is not one that the user has.
unfoldable pub Fits : VariablesAction → Scenario → Type 0
unfolding added_name
Fits add d = has_name (added_name d) (user_variables d) ≡ false
Fits a d = Unit {0}

module _ (trim : String → String) where
  change-AreDistinct :
      (o : Option Variable) (updated : Variable) (d : Scenario) (v : VariablesView)
      → AreDistinct d.variables
      → AreDistinct (mutate_all (change_selected trim o updated d v).0 d).variables
  unfolding change_selected mutate_all user_variables
  change-AreDistinct none updated d v h = h
  change-AreDistinct (some u) updated d v h =
      let n = trim updated.name in
      let w : Variable = record updated { name = trim updated.name } in
      elim (Bool-cases (str_eq n u.name)) [
        | inl same ↦
            rw (same, mutate-update u.name w d)
              (replace-AreDistinct u.name w d.variables (inl ((eq_iff n u.name).0 same)) h)
        | inr other ↦ elim (Bool-cases (str_eq n "")) [
          | inl empty ↦ rw (other, empty) h
          | inr some_text ↦
              elim (Bool-cases (has_text n (system_names d) || has_name n (user_variables d))) [
                | inl taken ↦ rw (other, some_text, taken) h
                | inr free ↦
                    let absent : has_name n d.variables ≡ false =
                      free_name (system_names d) n d.variables
                        (or_left (has_text n (system_names d)) (has_name n (user_variables d)) free)
                        (or_right (has_text n (system_names d)) (has_name n (user_variables d))
                          free) in
                    rw (other, some_text, free, mutate-update u.name w d)
                      (replace-AreDistinct u.name w d.variables (inr absent) h)
              ]
        ]
      ]

  confirm-AreDistinct :
      (o : Option PendingDelete) (d : Scenario) (v : VariablesView)
      → AreDistinct d.variables
      → AreDistinct (mutate_all (confirm trim o d v).0 d).variables
  unfolding confirm mutate_all mutate
  confirm-AreDistinct none d v h = h
  confirm-AreDistinct (some p) d v h = elim (Bool-cases (is_none_left p.usages)) [
    | inl t ↦ rw t (filter-AreDistinct (λ u. not (str_eq u.name p.name)) d.variables h)
    | inr t ↦ rw t h
  ]

  act-AreDistinct :
      (a : VariablesAction) (d : Scenario) (v : VariablesView)
      → Fits a d
      → AreDistinct d.variables
      → AreDistinct (mutate_all (act trim a d v).0 d).variables
  unfolding act mutate_all mutate Fits user_variables added_variable added_name
  act-AreDistinct (select s) d v f h = h
  act-AreDistinct add d v f h =
      snoc-AreDistinct (user_variables d) (added_variable d) f
        (filter-AreDistinct (λ u. not (has_text u.name (system_names d))) d.variables h)
  act-AreDistinct provision d v f h = provision-AreDistinct d.service_model d refl h
  act-AreDistinct (change updated) d v f h =
      change-AreDistinct (selected_user v.selected d) updated d v h
  act-AreDistinct (request_remove name) d v f h = h
  act-AreDistinct cancel_remove d v f h = h
  act-AreDistinct confirm_remove d v f h = confirm-AreDistinct v.pending_delete d v h

  -- The draft and the tab after some actions.
  unfoldable pub run : List VariablesAction → Scenario → VariablesView → Scenario × VariablesView
  unfolding act mutate_all
  run [] d v = (d, v)
  run (a ∷ actions) d v =
      let (edits, next) = act trim a d v in run actions (mutate_all edits d) next

  unfoldable pub AllFit : List VariablesAction → Scenario → VariablesView → Type 0
  unfolding Fits act mutate_all
  AllFit [] d v = Unit {0}
  AllFit (a ∷ actions) d v =
      let (edits, next) = act trim a d v in Fits a d × AllFit actions (mutate_all edits d) next

  -- Whatever is done on the Variables tab, the variables of the draft keep different names, if that holds
  -- at the start and "Add variable" is only used where the user has no variable of the name that
  -- it makes up.
  pub run-AreDistinct :
      (actions : List VariablesAction) (d : Scenario) (v : VariablesView)
      → AllFit actions d v
      → AreDistinct d.variables
      → AreDistinct (run actions d v).0.variables
  unfolding run AllFit
  run-AreDistinct [] d v f h = h
  run-AreDistinct (a ∷ actions) d v (f, fs) h =
      run-AreDistinct actions (mutate_all (act trim a d v).0 d) (act trim a d v).1 fs
        (act-AreDistinct a d v f h)
