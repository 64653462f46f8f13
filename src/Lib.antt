-- ===== src/Lib.antt =====
-- OCS Testbench: the logic of the web client (web/src). The client authors charging scenarios,
-- starts executions of them on the Go backend, and follows and steps an execution in a debugger.
--
-- The parts and how they interact
--   The scenario builder keeps a draft of a scenario in a store (Scenario/Draft, of
--   web/src/pages/scenarios/scenarioDraftStore.ts). Every edit goes through `commit`, which records
--   the draft before it in a history of undo and redo snapshots (Scenario/History, of history.ts).
--   The edits use the defaults of a service type (Scenario/Defaults and its Tree and Variables, of
--   defaults.ts) and the renaming of variables (Scenario/Selectors, of selectors.ts); the fields
--   offer variables by name (Scenario/Options, of selectors.ts), and Scenario/Selectors/Free says on
--   the data which drafts do not name a variable. The tabs of the builder edit the
--   draft's AVP tree (Scenario/Frame and Scenario/Frame/Moving, of tabs/avpTree.ts) and declare the
--   variables that its services name (Scenario/Provision, of provisionVariables.ts). Before a save
--   the draft is validated (Scenario/Validators, of validators.ts and tabs/stepsValidation.ts).
--   The controls of the tabs hand such edits to the store (Scenario/Tabs and its Services, Steps and
--   Variables, of tabs/ServicesTab.tsx, StepsTab.tsx and VariablesTab.tsx). The page saves, discards,
--   deletes and closes (Scenario/Page, of ScenarioBuilderPage.tsx); the answer to its request comes
--   later, and edits and the hotkeys of undo and redo may come between. It talks to a mock server of
--   scenarios (Scenario/Server, of web/src/mocks/fakeApi/scenariosFakeApi.ts).
--   The data are in Scenario and Execution, of web/src/api/schema.d.ts.
--   The debugger page keeps the state of one execution (Debugger/Store and Debugger/Actions, of
--   web/src/pages/debugger/executionStore.ts): snapshots that are read, events that the server
--   sends, and the user's clicks arrive in any order, and each is one function on the state.
--   The server's messages of the execution become events of the store (Debugger/Bridge, of
--   useExecutionSseDriver.ts).
--   A mock feed of these events plays a scenario's plan on the platform's timers (Feed and
--   Feed/Driver, of web/src/mocks/sse/installExecutionSse.ts).
--   The server's events reach the whole client through one stream (Live/Client, of
--   web/src/api/sse/SseClient.ts), and patch what was read before (Live, of applyEventToCache.ts),
--   as the start dialog does with its rows (Live/Optimistic, of optimisticPrepend.ts).
--   The step editor previews the request of a step (Debugger/Preview, of ccrPreview.ts and
--   stepEditorLogic.ts).
--   The response pane shows one of its steps (Debugger/Response and Debugger/Labels, of
--   lastResponseLogic.ts and progressPaneLogic.ts), and an ended run is exported to a file
--   (Debugger/Export, of exportRun.ts).
--   The executions page lists runs (Executions, of web/src/pages/executions/selectors.ts): the
--   latest run of a scenario and the counts on the filter chips, and a table with the progress of
--   batches (Executions/Table, of runTableHelpers.ts).
--   A run is started from a dialog (FakeApi, of executions/buildStartExecutionInput.ts) at the
--   server of executions, of which the client has a mock (FakeApi/Checks, Start and Rows, of
--   web/src/mocks/fakeApi/executionsFakeApi.ts). Subscribers have a device and a card, whose
--   numbers carry a check digit (Identifiers, of web/src/api/imei.ts and iccid.ts), and are kept by a
--   mock server (Subscribers, of subscribersFakeApi.ts) that takes what a form sends
--   (Subscribers/Form, of web/src/pages/subscribers/SubscriberForm.tsx).
--   The Diameter peers are kept by a mock server too (Peers, of peersFakeApi.ts) and edited in a form
--   (Peers/Form and Peers/Refused, of web/src/pages/peers/PeerForm.tsx and web/src/api/errors.ts).
--   The client's cache shows an action on a peer before its answer (Peers/Cached, of
--   web/src/api/resources/peers.ts), and notices tell the changes
--   of status in that cache (Peers/Toasts, of usePeerStatusToasts.ts).
--   The AI assistant's chat (Assistant, of web/src/pages/ai-assistant/types.ts and
--   permissionState.ts, and Assistant/Chat, of chatStore.ts) keeps a thread that server events and
--   the user's actions extend, and asks before a tool runs. The events of an answer are read from the
--   chunks of a response (Assistant/Stream, of useChatSse.ts).
--
-- How the models are written
--   A store's state is a record and a dispatcher a function from state to state; an enum is a data
--   type with the source's members, `undefined` and `null` are `none`, an array is a list and a
--   string-keyed object an association list. A function that the code calls for its value and its
--   effect returns both. A request is split into what happens before it and what happens with its
--   answer, which is an input. An AVP array is a list of nodes of its own in a mutual block.
--   History stacks have their newest snapshot first. Indices and numbers are natural numbers.
--   Clones are values: the stores never share a node that is later changed in place.
--   Recursion is structural everywhere; the loop of `runToEnd` is a function of the snapshots that
--   the server gives, and the run of the feed's timers takes a count of them, for which the length of
--   the plan is enough. The search for a free scenario id takes the number of scenarios and one more as
--   fuel, which is enough: an id that is taken belongs to a scenario of its own.
--   The platform's `trim`, `toLowerCase` and JSON reader, the length of a text, the clock and the
--   drag-and-drop library's `arrayMove` are parameters. Texts that the code takes apart are lists of
--   character codes.
--   The platform's timers, its event streams and the query cache appear as the lists and maps of what
--   the code has put there and not yet taken away.
--
-- Not modelled
--   The rendering of the React components, and the hooks that only fetch; axios and react-query; the
--   mock data and the mock feed of counters; the settings; the Go backend: rendering, transport and
--   another program. Of a step's record only the fields that the client computes with are kept, so
--   the counts of its repetition and its delays are left out, as is its expression
--   tester. What another page does to the builder's shared store once the page was left is not
--   followed. The chat's item ids are the numbers in their texts. `Number(text)` is modelled on
--   decimal texts.
pub mod Common
pub mod Scenario
pub mod Execution
pub mod Debugger
pub mod Executions
pub mod Assistant
pub mod Feed
pub mod Subscribers
pub mod Live
pub mod Examples
pub mod Identifiers
pub mod FakeApi
pub mod Peers
