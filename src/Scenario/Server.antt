-- ===== src/Scenario/Server.antt =====
-- The mock server of scenarios, web/src/mocks/fakeApi/scenariosFakeApi.ts. Its state is the array of
-- scenarios and the next number of an id; the platform's `trim` and the clock are arguments. Copies by
-- `structuredClone` are the values themselves.
pub mod Fresh
use ocs_testbench.Common.{
  ℕ, zero, suc, ◌+◌, String, Bool, true, false, not, ◌&&◌, List, [], ◌∷◌, ◌++◌, Option, none, some,
  map, length, any, str_eq, truthy, or_else, if◌then◌else◌,
}
use ocs_testbench.Common.Decimal.{pad_three}
use ocs_testbench.Common.Text.{◌⧺◌, has_prefix}
use ocs_testbench.Scenario.{user, Scenario}
use ocs_testbench.Scenario.Defaults.{ScenarioInput}

abbrev pub scenario_id : ℕ → String
scenario_id n = "scn-user-" ⧺ pad_three n

abbrev pub is_taken : ℕ → List Scenario → Bool
is_taken n scenarios = any (λ s. str_eq s.id (scenario_id n)) scenarios

-- The loop of `newScenarioId`: the first number from `n` on whose id is free. `none` means that the
-- fuel ran out.
unfoldable pub free_number : ℕ → ℕ → List Scenario → Option ℕ
unfolding pad_three
free_number zero n scenarios = none
free_number (suc fuel) n scenarios =
    let more = free_number fuel (n + 1) scenarios in if is_taken n scenarios then more else some n

-- The row of the list, which drops the four heavy fields.
pub record ScenarioSummary : Type 0 where
  pub id : String
  pub name : String
  pub step_count : ℕ

abbrev pub apply_input : String → (updated_at : String) → ScenarioInput → Scenario
apply_input id updated_at input = record {
  id = id;
  name = input.name;
  description = input.description;
  service_type = input.service_type;
  service_profile = input.service_profile;
  session_mode = input.session_mode;
  service_model = input.service_model;
  origin = user;
  favourite = some input.favourite;
  subscriber_id = some input.subscriber_id;
  peer_id = some input.peer_id;
  service_context_id = none;
  step_count = length input.steps;
  updated_at = updated_at;
  avp_tree = input.avp_tree;
  services = input.services;
  variables = input.variables;
  steps = input.steps;
}

unfoldable pub find_scenario : String → List Scenario → Option Scenario
find_scenario id [] = none
find_scenario id (s ∷ ss) = if str_eq s.id id then some s else find_scenario id ss

unfoldable pub put_scenario : String → Scenario → List Scenario → List Scenario
put_scenario id next [] = []
put_scenario id next (s ∷ ss) = if str_eq s.id id then next ∷ ss else s ∷ put_scenario id next ss

unfoldable pub drop_scenario : String → List Scenario → List Scenario
drop_scenario id [] = []
drop_scenario id (s ∷ ss) = if str_eq s.id id then ss else s ∷ drop_scenario id ss

abbrev pub summary : Scenario → ScenarioSummary
summary s = record { id = s.id; name = s.name; step_count = s.step_count }

pub record ServerState : Type 0 where
  pub scenarios : List Scenario
  pub next_id : ℕ

pub data ServerReply : Type 0 where
  listed : List ScenarioSummary → ServerReply
  answered : Scenario → ServerReply
  removed : ServerReply
  name_missing : ServerReply
  unparsable : ServerReply
  forced_failure : ServerReply
  not_found : (id : String) → ServerReply
  out_of_fuel : ServerReply

abbrev pub Answer : Type 0
Answer = ServerState × ServerReply

-- A new scenario under the next free id.
abbrev pub push_new : Option ℕ → (String → Scenario) → ServerState → Answer
push_new none make s = (s, out_of_fuel)
push_new (some n) make s = (
  record { scenarios = s.scenarios ++ make (scenario_id n) ∷ []; next_id = n + 1 },
  answered (make (scenario_id n)),
)

abbrev pub push_scenario : (String → Scenario) → ServerState → Answer
unfolding free_number
push_scenario make s = push_new (free_number (length s.scenarios + 1) s.next_id s.scenarios) make s

abbrev pub with_scenario : Option Scenario → String → ServerState → (Scenario → Answer) → Answer
with_scenario none id s reply = (s, not_found id)
with_scenario (some found) id s reply = reply found

unfoldable pub post_scenario : (now : String) → Option ScenarioInput → ServerState → Answer
unfolding push_scenario
post_scenario now none s = (s, name_missing)
post_scenario now (some input) s =
    if not (truthy (some input.name))
    then (s, name_missing)
    else push_scenario (λ id. apply_input id now input) s

abbrev pub replace_found :
    Option ScenarioInput → (now : String) → String → ServerState → Scenario → Answer
unfolding put_scenario
replace_found none now id s found = (s, unparsable)
replace_found (some input) now id s found =
    let next = apply_input found.id now input in
    (record s { scenarios = put_scenario id next s.scenarios }, answered next)

unfoldable pub put_request : (now : String) → String → Option ScenarioInput → ServerState → Answer
unfolding find_scenario replace_found
put_request now id input s =
    if has_prefix "error-" id
    then (s, forced_failure)
    else with_scenario (find_scenario id s.scenarios) id s (replace_found input now id s)

unfoldable pub get_request : String → ServerState → Answer
unfolding find_scenario
get_request id s = with_scenario (find_scenario id s.scenarios) id s (λ found. (s, answered found))

unfoldable pub list_request : ServerState → Answer
list_request s = (s, listed (map summary s.scenarios))

unfoldable pub delete_request : String → ServerState → Answer
unfolding find_scenario drop_scenario
delete_request id s =
    with_scenario (find_scenario id s.scenarios) id s
      (λ found. (record s { scenarios = drop_scenario id s.scenarios }, removed))

abbrev copy_name : (trim : String → String) → Option String → Scenario → String
copy_name trim none src = src.name ⧺ " (copy)"
copy_name trim (some name) src =
    if truthy (some name) && not (str_eq (trim name) "") then name else src.name ⧺ " (copy)"

unfoldable pub duplicate_request :
    (trim : String → String)
    → (now : String) → String
    → (name : Option String) → ServerState
    → Answer
unfolding find_scenario push_scenario
duplicate_request trim now id name s = with_scenario (find_scenario id s.scenarios) id s (λ src.
    push_scenario
      (λ new_id. record src {
        id = new_id;
        name = copy_name trim name src;
        origin = user;
        favourite = some false;
        updated_at = now;
      })
      s)
