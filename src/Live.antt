-- ===== src/Live.antt =====
-- web/src/api/sse: the server's events and what they do to the client's cache. The cache is a map
-- from keys to data, of which these are the keys that the events touch; a peer is its id and the
-- rest of its fields, which are left open like the dashboard's figures.
pub mod Consistent
pub mod Repeated
pub mod Optimistic
pub mod Client
pub mod Quiet
pub mod Reports
use ocs_testbench.Common.{
  ℕ, suc, ◌+◌, String, Bool, true, false, not, ◌&&◌, ◌||◌, List, [], ◌∷◌, ◌++◌, Option, none, some,
  map, any, length, str_eq, truthy, opt_is, if◌then◌else◌,
}
use ocs_testbench.Common.Objects.{insert}
use ocs_testbench.Execution.{ExecutionState, ExecutionSummary, ExecutionContextSnapshot, Execution}

pub record Peer {ℓ} (D : Type ℓ) : Type ℓ where
  pub id : String
  pub fields : D

pub data SseEvent {ℓ} (D K : Type ℓ) : Type ℓ where
  peer_updated : Peer D → SseEvent D K
  execution_created : ExecutionSummary → SseEvent D K
  execution_progress : Execution → SseEvent D K
  dashboard_kpi : K → SseEvent D K

pub record ListExecutionsParams : Type 0 where
  pub state : Option ExecutionState
  pub scenario_id : Option String
  pub peer_id : Option String
  pub batch_id : Option String
  pub limit : Option ℕ
  pub offset : Option ℕ

pub record PageMeta : Type 0 where
  pub total : ℕ
  pub limit : ℕ
  pub offset : ℕ

-- An item of a page: a summary, with the context that a row taken from an execution still has.
pub record ExecutionRow : Type 0 where
  pub summary : ExecutionSummary
  pub open summary use *
  pub context : Option ExecutionContextSnapshot

pub record ExecutionPage : Type 0 where
  pub items : List ExecutionRow
  pub page : PageMeta

-- A list that is not read yet has no data.
pub record Cache {ℓ} (D K : Type ℓ) : Type ℓ where
  pub peers : Option (List (Peer D))
  pub peer_details : List (String × Peer D)
  pub lists : List (ListExecutionsParams × Option ExecutionPage)
  pub details : List (String × Execution)
  pub kpis : Option K

abbrev pub to_summary : Execution → ExecutionRow
to_summary execution = record { summary = execution.summary; context = some execution.context }

abbrev pub created_row : ExecutionSummary → ExecutionRow
created_row summary = record { summary = summary; context = none }

abbrev pub has_row : String → List ExecutionRow → Bool
has_row id items = any (λ e. str_eq e.id id) items

-- The first item that has the id is replaced.
unfoldable pub replace_row : String → ExecutionRow → List ExecutionRow → List ExecutionRow
replace_row id row [] = []
replace_row id row (e ∷ es) =
    let rest = replace_row id row es in if str_eq e.id id then row ∷ es else e ∷ rest

-- What `setQueriesData` does to one list.
unfoldable pub patch_page : Execution → Option ExecutionPage → Option ExecutionPage
unfolding replace_row
patch_page execution none = none
patch_page execution (some prev) =
    if has_row execution.id prev.items
    then some (record prev { items = replace_row execution.id (to_summary execution) prev.items })
    else some prev

-- `params?.scenarioId && params.scenarioId !== summary.scenarioId`
abbrev pub filtered_out : ListExecutionsParams → ExecutionSummary → Bool
filtered_out params summary =
    truthy params.scenario_id && not (opt_is params.scenario_id summary.scenario_id)

-- The body of the loop over the cached lists.
unfoldable pub prepend_row :
    ListExecutionsParams → ExecutionSummary → Option ExecutionPage → Option ExecutionPage
prepend_row params summary none = none
prepend_row params summary (some prev) =
    if has_row summary.id prev.items || filtered_out params summary
    then some prev
    else (let meta = prev.page in
        some (record {
          items = created_row summary ∷ prev.items;
          page = record meta { total = meta.total + 1 };
        }))

module _ {ℓ} {D : Type ℓ} where
  -- The first peer that has the id is replaced, else the peer is added at the end.
  unfoldable pub put_peer : Peer D → List (Peer D) → List (Peer D)
  put_peer peer [] = peer ∷ []
  put_peer peer (p ∷ ps) =
      let rest = put_peer peer ps in if str_eq p.id peer.id then peer ∷ ps else p ∷ rest

  unfoldable pub patch_peers : Peer D → Option (List (Peer D)) → Option (List (Peer D))
  unfolding put_peer
  patch_peers peer none = none
  patch_peers peer (some prev) = some (put_peer peer prev)

module _ {ℓ} {D K : Type ℓ} where
  unfoldable pub apply_peer_updated : Peer D → Cache D K → Cache D K
  unfolding patch_peers
  apply_peer_updated peer c = record c {
    peer_details = insert peer.id peer c.peer_details;
    peers = patch_peers peer c.peers;
  }

  unfoldable pub apply_execution_progress : Execution → Cache D K → Cache D K
  unfolding patch_page
  apply_execution_progress execution c = record c {
    details = insert execution.id execution c.details;
    lists = map (λ l. (l.0, patch_page execution l.1)) c.lists;
  }

  unfoldable pub apply_execution_created : ExecutionSummary → Cache D K → Cache D K
  unfolding prepend_row
  apply_execution_created summary c = record c {
    lists = map (λ l. (l.0, prepend_row l.0 summary l.1)) c.lists;
  }

  unfoldable pub apply_event_to_cache : SseEvent D K → Cache D K → Cache D K
  unfolding apply_peer_updated apply_execution_progress apply_execution_created
  apply_event_to_cache (peer_updated peer) c = apply_peer_updated peer c
  apply_event_to_cache (execution_progress execution) c = apply_execution_progress execution c
  apply_event_to_cache (execution_created summary) c = apply_execution_created summary c
  apply_event_to_cache (dashboard_kpi kpis) c = record c { kpis = some kpis }

  unfoldable pub apply_events : List (SseEvent D K) → Cache D K → Cache D K
  unfolding apply_event_to_cache
  apply_events [] c = c
  apply_events (e ∷ es) c = apply_events es (apply_event_to_cache e c)
