-- ===== src/Scenario/Tabs.antt =====
-- The tabs of the scenario builder, web/src/pages/scenarios/tabs: what their controls do to the draft.
-- A handler sees the draft that was rendered, and its calls of the store follow one another.
pub mod Services
pub mod Steps
pub mod Variables
use ocs_testbench.Common.{List, [], ◌∷◌, map}
use ocs_testbench.Scenario.Draft.{ScenarioDraftState, Edit, edit, mutate, dispatch_all}
use ocs_testbench.Scenario.{Scenario}

-- The calls of the store that a handler makes, in order.
unfoldable pub apply_edits : List Edit → ScenarioDraftState → ScenarioDraftState
unfolding dispatch_all
apply_edits edits s = dispatch_all (map edit edits) s

-- The same calls, on a draft that is loaded.
unfoldable pub mutate_all : List Edit → Scenario → Scenario
unfolding mutate
mutate_all [] d = d
mutate_all (e ∷ edits) d = mutate_all edits (mutate e d)
