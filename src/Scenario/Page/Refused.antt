-- ===== src/Scenario/Page/Refused.antt =====
-- ScenarioBuilderPage.tsx: a save of a draft that is not valid.
use ocs_testbench.Common.{◌≡◌, ◌≢◌, refl, subst, sym, List, [], ◌∷◌, none, some}
use ocs_testbench.Scenario.{Scenario}
use ocs_testbench.Scenario.Draft.Modes.{validate_input}
use ocs_testbench.Scenario.Validators.{ValidationIssue, validate_scenario}
use ocs_testbench.Scenario.Page.{
  PageState, save, act, save_clicked, save_draft, save_checked, errors_from,
}

-- The page has reported the issues of a draft and done nothing else.
pub HasReported : List ValidationIssue → PageState → PageState → Type 0
HasReported issues p p' =
    (p'.server ≡ p.server)
    × (p'.store ≡ p.store)
    × (p'.left ≡ p.left)
    × (p'.field_errors ≡ errors_from [] issues)

checked-refused :
    (issues : List ValidationIssue) (d : Scenario) (p : PageState)
    → issues ≢ []
    → HasReported issues p (save_checked issues d p)
unfolding HasReported save_checked
checked-refused [] d p ne = absurd (ne refl)
checked-refused (i ∷ is) d p ne = (refl, refl, refl, refl)

-- A save of a draft that is not valid leaves the server and the draft as they are, reports every
-- issue at its path and does not leave the page.
pub save-refused :
    (d : Scenario) (p : PageState)
    → p.saving ≡ none
    → p.store.draft ≡ some d
    → validate_scenario (validate_input d) ≢ []
    → HasReported (validate_scenario (validate_input d)) p (act save p)
unfolding act
save-refused d p idle loaded invalid =
    let issues = validate_scenario (validate_input d) in
    subst (λ o. HasReported issues p (save_clicked o p)) (sym idle)
      (subst (λ o. HasReported issues p (save_draft o p)) (sym loaded)
        (checked-refused issues d p invalid))
