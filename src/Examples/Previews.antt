-- ===== src/Examples/Previews.antt =====
-- A preview in the step editor.
use ocs_testbench.Common.{ℕ, ◌≡◌, [], ◌∷◌}
use ocs_testbench.Scenario.{Scenario, multi_mscc, text}
use ocs_testbench.Debugger.Store.{ExecutionStoreState, create_execution_store}
use ocs_testbench.Debugger.Actions.{toggle_service}
use ocs_testbench.Debugger.Preview.{ContextVars, resolve_ccr_preview}
use ocs_testbench.Debugger.Preview.Toggled.{preview-toggle_service}
use ocs_testbench.Examples.Drafts.{new_draft}

abbrev multi : Scenario
multi = record new_draft { service_model = multi_mscc }

abbrev variables : ContextVars
variables = ("MSISDN", text "2782") ∷ []

abbrev opened : ExecutionStoreState ℕ
unfolding create_execution_store
opened = create_execution_store "7"

preview-toggle_service_example :
    resolve_ccr_preview multi 0 variables
      (toggle_service "svc-1" (toggle_service "svc-1" opened)).edit.services_enabled
    ≡ resolve_ccr_preview multi 0 variables opened.edit.services_enabled
preview-toggle_service_example = preview-toggle_service multi 0 variables "svc-1" opened
