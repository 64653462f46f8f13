-- ===== src/Live/Optimistic.antt =====
-- web/src/pages/executions/optimisticPrepend.ts: the rows that the dialog puts in front of a page
-- before the server's events tell of them.
use ocs_testbench.Common.{
  ◌+◌, ◌≡◌, refl, subst, inl, inr, true, ◌||◌, List, [], ◌∷◌, ◌++◌, Option, none, some, map, length,
  str_eq, Bool-cases,
}
use ocs_testbench.Execution.{ExecutionSummary}
use ocs_testbench.Live.{
  ListExecutionsParams, ExecutionRow, ExecutionPage, created_row, has_row, prepend_row,
}

abbrev pub prepend_page : List ExecutionSummary → ExecutionPage → ExecutionPage
prepend_page created prev =
    let meta = prev.page in
    record {
      items = map created_row created ++ prev.items;
      page = record meta { total = meta.total + length created };
    }

unfoldable pub prepend_executions :
    Option ExecutionPage → List ExecutionSummary → Option ExecutionPage
prepend_executions none created = none
prepend_executions (some prev) [] = some prev
prepend_executions (some prev) (c ∷ created) = some (prepend_page (c ∷ created) prev)

has_row-append :
    (s : ExecutionSummary) (created : List ExecutionSummary) (items : List ExecutionRow)
    → has_row s.id (map created_row created) ≡ true
    → has_row s.id (map created_row created ++ items) ≡ true
has_row-append s [] items h = cc
has_row-append s (c ∷ created) items h = elim (Bool-cases (str_eq c.id s.id)) [
  | inl same ↦ rw same refl
  | inr other ↦ rw other (
      has_row-append s created items
        (subst (λ b. (b || has_row s.id (map created_row created)) ≡ true) other h))
]

-- The server's event of a run that the dialog has put in front of a page does not put it there
-- again.
pub prepend_row-prepend_executions :
    (params : ListExecutionsParams) (prev : Option ExecutionPage) (s : ExecutionSummary)
    (created : List ExecutionSummary)
    → has_row s.id (map created_row created) ≡ true
    → prepend_row params s (prepend_executions prev created) ≡ prepend_executions prev created
unfolding prepend_row prepend_executions
prepend_row-prepend_executions params none s created h = refl
prepend_row-prepend_executions params (some prev) s [] h = cc
prepend_row-prepend_executions params (some prev) s (c ∷ created) h =
    rw (has_row-append s (c ∷ created) prev.items h) refl
