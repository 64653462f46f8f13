-- ===== src/Peers/Toasts.antt =====
-- web/src/api/resources/usePeerStatusToasts.ts: the notices of changed statuses. The hook's map from
-- ids to statuses is the state; each update of the cached list is an argument.
pub mod Changes
use ocs_testbench.Common.{
  ℕ, String, Bool, true, false, ◌||◌, List, [], ◌∷◌, ◌++◌, Option, none, some, any, filter_by,
  or_else, ◌==◌, str_eq, if◌then◌else◌,
}
use ocs_testbench.Common.Objects.{lookup, insert}
use ocs_testbench.Common.Text.{◌⧺◌}
use ocs_testbench.Peers.{
  PeerStatus, stopped, connected, disconnected, error, connecting, disconnecting, restarting, Peer,
}

abbrev status_rank : PeerStatus → ℕ
status_rank stopped = 0
status_rank connected = 1
status_rank disconnected = 2
status_rank error = 3
status_rank connecting = 4
status_rank disconnecting = 5
status_rank restarting = 6

abbrev pub same_status : PeerStatus → PeerStatus → Bool
same_status a b = status_rank a == status_rank b

abbrev pub is_transient : PeerStatus → Bool
is_transient connecting = true
is_transient disconnecting = true
is_transient restarting = true
is_transient s = false

-- `STATUS_LABEL`
abbrev status_label : PeerStatus → String
status_label stopped = "Stopped"
status_label connected = "Connected"
status_label disconnected = "Disconnected"
status_label error = "Error"
status_label connecting = "Connecting…"
status_label disconnecting = "Disconnecting…"
status_label restarting = "Restarting…"

abbrev toast_color : PeerStatus → String
toast_color connected = "teal"
toast_color error = "red"
toast_color s = "gray"

-- A notice, with the peer and the two statuses that it is about.
pub record Toast : Type 0 where
  pub peer_id : String
  pub from : PeerStatus
  pub to : PeerStatus
  pub color : String
  pub title : String
  pub message : String

unfoldable pub toast : Peer → PeerStatus → Toast
toast peer prev = record {
  peer_id = peer.id;
  from = prev;
  to = peer.status;
  color = toast_color peer.status;
  title = peer.name ⧺ ": " ⧺ status_label peer.status;
  message =
      or_else peer.status_detail
        ("Status changed from " ⧺ status_label prev ⧺ " to " ⧺ status_label peer.status ⧺ ".");
}

abbrev pub LastStatus : Type 0
LastStatus = List (String × PeerStatus)

-- One row, whose last status is given.
abbrev pub observe_from : Option PeerStatus → Peer → LastStatus → LastStatus × List Toast
observe_from none peer last =
    if is_transient peer.status then (last, []) else (insert peer.id peer.status last, [])
observe_from (some prev) peer last =
    if same_status prev peer.status
    then (last, [])
    else if is_transient peer.status
    then (last, [])
    else (insert peer.id peer.status last, toast peer prev ∷ [])

unfoldable pub observe : Peer → LastStatus → LastStatus × List Toast
unfolding lookup insert toast
observe peer last = observe_from (lookup peer.id last) peer last

-- The loop over the rows.
unfoldable pub observe_all : List Peer → LastStatus → LastStatus × List Toast
unfolding observe
observe_all [] last = (last, [])
observe_all (p ∷ ps) last =
    let (last', toasts) = observe p last in
    let (final, more) = observe_all ps last' in (final, toasts ++ more)

abbrev pub is_live : List Peer → String → Bool
is_live peers id = any (λ p. str_eq p.id id) peers

-- Ids that the list no longer has are dropped.
unfoldable pub prune : List Peer → LastStatus → LastStatus
prune peers [] = []
prune peers ((id, s) ∷ last) =
    let rest = prune peers last in if is_live peers id then (id, s) ∷ rest else rest

-- The callback, for one update of the list.
unfoldable pub on_update : List Peer → LastStatus → LastStatus × List Toast
unfolding observe_all prune
on_update peers last = let (seen, toasts) = observe_all peers last in (prune peers seen, toasts)

unfoldable pub on_updates : List (List Peer) → LastStatus → LastStatus × List Toast
unfolding on_update
on_updates [] last = (last, [])
on_updates (u ∷ us) last =
    let (last', toasts) = on_update u last in
    let (final, more) = on_updates us last' in (final, toasts ++ more)

-- `for (const p of seed) lastStatus.current.set(p.id, p.status)`
unfoldable pub seed : List Peer → LastStatus → LastStatus
unfolding insert
seed [] last = last
seed (p ∷ ps) last = seed ps (insert p.id p.status last)
