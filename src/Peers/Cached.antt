-- ===== src/Peers/Cached.antt =====
-- web/src/api/resources/peers.ts: what the actions on peers write into the query cache. A request
-- is split into the part before and the part after, and its answer is an argument.
pub mod Rollback
use ocs_testbench.Common.{
  ℕ, String, List, [], ◌∷◌, Bool, true, Option, none, some, map, not, filter_by, str_eq,
  if◌then◌else◌,
}
use ocs_testbench.Common.Objects.{lookup, insert}
use ocs_testbench.Peers.{PeerStatus, connecting, disconnecting, restarting, Peer, find_peer}

-- The list, if it was read, whether it has to be read again, and the details by id.
pub record PeerCache : Type 0 where
  pub peers : Option (List Peer)
  pub list_stale : Bool
  pub details : List (String × Peer)

abbrev pub put_row : Peer → Peer → Peer
put_row peer p = if str_eq p.id peer.id then peer else p

abbrev pub patch_list : (List Peer → List Peer) → Option (List Peer) → Option (List Peer)
patch_list f none = none
patch_list f (some prev) = some (f prev)

-- `writePeerToCaches`, which is what an update does too.
unfoldable pub write_peer : Peer → PeerCache → PeerCache
unfolding insert
write_peer peer c = record c {
  details = insert peer.id peer c.details;
  peers = patch_list (map (put_row peer)) c.peers;
}

-- The peer of the detail cache, else that of the list.
abbrev pub cached_peer : Option Peer → Option (List Peer) → String → Option Peer
cached_peer (some p) list id = some p
cached_peer none none id = none
cached_peer none (some ps) id = find_peer id ps

abbrev pub patched : (now : ℕ) → PeerStatus → Peer → Peer
patched now status prev = record prev {
  status = status;
  status_detail = none;
  last_change_at = now;
}

abbrev patch_cached : Option Peer → (now : ℕ) → PeerStatus → PeerCache → PeerCache × Option Peer
patch_cached none now status c = (c, none)
patch_cached (some prev) now status c = (write_peer (patched now status prev) c, some prev)

-- `optimisticStatusPatch`: the peer of before is given back.
unfoldable pub optimistic_status_patch :
    (now : ℕ) → String → PeerStatus → PeerCache → PeerCache × Option Peer
unfolding write_peer lookup find_peer
optimistic_status_patch now id status c =
    patch_cached (cached_peer (lookup id c.details) c.peers id) now status c

pub data PeerAction : Type 0 where
  start_action stop_action restart_action : PeerAction

-- The status that an action shows while its request runs.
abbrev pub transient_of : PeerAction → PeerStatus
transient_of start_action = connecting
transient_of stop_action = disconnecting
transient_of restart_action = restarting

-- `onMutate`
unfoldable pub begin_action : (now : ℕ) → PeerAction → String → PeerCache → PeerCache × Option Peer
unfolding optimistic_status_patch
begin_action now action id c = optimistic_status_patch now id (transient_of action) c

abbrev restore : Option Peer → PeerCache → PeerCache
restore none c = c
restore (some prev) c = write_peer prev c

-- `onSuccess` with the server's peer, or `onError` with the peer of before.
unfoldable pub finish_action : (prev : Option Peer) → (answer : Option Peer) → PeerCache → PeerCache
unfolding write_peer
finish_action prev (some peer) c = write_peer peer c
finish_action prev none c = restore prev c

-- A created peer: its detail is kept and the list is read again.
unfoldable pub created_peer : Peer → PeerCache → PeerCache
unfolding insert
created_peer peer c = record c { details = insert peer.id peer c.details; list_stale = true }

abbrev without_key : String → List (String × Peer) → List (String × Peer)
without_key id details = filter_by (λ entry. not (str_eq entry.0 id)) details

unfoldable pub deleted_peer : String → PeerCache → PeerCache
deleted_peer id c = record c {
  details = without_key id c.details;
  peers = patch_list (filter_by (λ p. not (str_eq p.id id))) c.peers;
}
