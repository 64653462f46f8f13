-- ===== src/Peers.antt =====
-- The peers: the mock server of web/src/mocks/fakeApi/peersFakeApi.ts. Its state is the array of
-- peers. The platform's `trim`, `toLowerCase` and length of a text, and the clock, are arguments.
pub mod Form
pub mod Accepted
pub mod Rows
pub mod Named
pub mod Reused
pub mod Refused
pub mod Toasts
pub mod Cached
use ocs_testbench.Common.{
  ℕ, suc, ◌+◌, String, Bool, true, false, not, ◌&&◌, ◌||◌, List, [], ◌∷◌, ◌++◌, Option, none, some,
  length, any, ltb, str_eq, or_else, if◌then◌else◌,
}
use ocs_testbench.Common.Decimal.{pad_two}
use ocs_testbench.Common.Text.{◌⧺◌, number_text, has_prefix}
use ocs_testbench.FakeApi.Checks.{FieldErrors, report_if}

pub data PeerStatus : Type 0 where
  stopped connected disconnected error connecting disconnecting restarting : PeerStatus

-- A body may hold a third value.
pub data Transport : Type 0 where
  tcp tls other_transport : Transport

-- A number of a form or a body: a whole one, one between `floor` and the next, or none. Negative
-- numbers are left out.
pub data NumberField : Type 0 where
  whole : ℕ → NumberField
  fraction : (floor : ℕ) → NumberField
  blank : NumberField

pub record PeerInput : Type 0 where
  pub name : String
  pub host : String
  pub port : NumberField
  pub origin_host : String
  pub origin_realm : String
  pub dest_host : String
  pub dest_realm : String
  pub transport : Transport
  pub watchdog_interval_seconds : NumberField
  pub auto_connect : Bool

pub record Peer : Type 0 where
  pub id : String
  pub name : String
  pub host : String
  pub port : NumberField
  pub origin_host : String
  pub origin_realm : String
  pub dest_host : Option String
  pub dest_realm : Option String
  pub transport : Transport
  pub watchdog_interval_seconds : NumberField
  pub auto_connect : Bool
  pub status : PeerStatus
  pub status_detail : Option String
  pub last_change_at : ℕ

abbrev pub is_empty : String → Bool
is_empty s = str_eq s ""

-- What a number field adds: the first text where it is no whole number, the second out of range.
abbrev pub number_error :
    (lo hi : ℕ) → String → (required range : String) → NumberField → FieldErrors → FieldErrors
number_error lo hi key required range (whole n) errors =
    report_if (ltb n lo || ltb hi n) key range errors
number_error lo hi key required range (fraction n) errors = report_if true key required errors
number_error lo hi key required range blank errors = report_if true key required errors

abbrev pub known_transport : Transport → Bool
known_transport other_transport = false
known_transport t = true

module _ (trim : String → String) (lower : String → String) (text_length : String → ℕ) where
  abbrev pub name_error : String → FieldErrors → FieldErrors
  name_error name errors =
      if is_empty name
      then report_if true "/name" "Name is required" errors
      else if ltb 64 (text_length name)
      then report_if true "/name" "Name must be 64 chars or less" errors
      else report_if (str_eq (lower name) "reserved") "/name" "Name \"reserved\" is not allowed"
          errors

  -- What the server's `validate` finds in a body that was parsed; no errors stand for its `null`.
  unfoldable pub validate : PeerInput → FieldErrors
  validate input =
      number_error 5 3600 "/watchdogIntervalSeconds" "Watchdog interval is required"
        "Watchdog interval must be between 5 and 3600 seconds" input.watchdog_interval_seconds
        (report_if (not (known_transport input.transport)) "/transport"
          "Transport must be TCP or TLS"
          (report_if (is_empty (trim input.origin_realm)) "/originRealm" "Origin-Realm is required"
            (report_if (is_empty (trim input.origin_host)) "/originHost" "Origin-Host is required" (
              number_error 1 65535 "/port" "Port is required" "Port must be between 1 and 65535"
                input.port
                (report_if (is_empty (trim input.host)) "/host" "Host is required"
                  (name_error (trim input.name) []))))))

-- `destHost` and `destRealm` of the input are not taken over.
unfoldable pub apply_input : String → PeerStatus → Option String → (now : ℕ) → PeerInput → Peer
apply_input id status detail now input = record {
  id = id;
  name = input.name;
  host = input.host;
  port = input.port;
  origin_host = input.origin_host;
  origin_realm = input.origin_realm;
  dest_host = none;
  dest_realm = none;
  transport = input.transport;
  watchdog_interval_seconds = input.watchdog_interval_seconds;
  auto_connect = input.auto_connect;
  status = status;
  status_detail = detail;
  last_change_at = now;
}

unfoldable pub find_peer : String → List Peer → Option Peer
find_peer id [] = none
find_peer id (p ∷ ps) = if str_eq p.id id then some p else find_peer id ps

-- The first peer of the id is changed.
unfoldable pub change_peer : String → (Peer → Peer) → List Peer → List Peer
change_peer id change [] = []
change_peer id change (p ∷ ps) =
    if str_eq p.id id then change p ∷ ps else p ∷ change_peer id change ps

-- The first peer of the id is taken out.
unfoldable pub drop_peer : String → List Peer → List Peer
drop_peer id [] = []
drop_peer id (p ∷ ps) = if str_eq p.id id then ps else p ∷ drop_peer id ps

abbrev pub peer_id : ℕ → String
peer_id n = "peer-" ⧺ pad_two n

-- Hosts that a test or a start cannot reach.
abbrev pub unreachable : String → Bool
unreachable host = has_prefix "10.0.99." host

abbrev pub started : (now : ℕ) → Peer → Peer
started now p =
    if unreachable p.host
    then record p { status = error; status_detail = some "CER/CEA timeout"; last_change_at = now }
    else record p { status = connected; status_detail = none; last_change_at = now }

abbrev pub halted : (now : ℕ) → Peer → Peer
halted now p = record p {
  status = stopped;
  status_detail = some "Administratively stopped";
  last_change_at = now;
}

abbrev pub in_use : String → FieldErrors
in_use name = ("/name", "Name \"" ⧺ name ⧺ "\" is already in use") ∷ []

pub data PeerReply : Type 0 where
  listed : List Peer → PeerReply
  found : Peer → PeerReply
  created : Peer → PeerReply
  tested : (ok : Bool) → PeerReply
  removed : PeerReply
  validation_problem : FieldErrors → PeerReply
  not_found : (id : String) → PeerReply

pub data PeerRequest : Type 0 where
  list_peers : PeerRequest
  read_peer : (id : String) → PeerRequest
  create_peer : PeerInput → PeerRequest
  test_peer : PeerInput → PeerRequest
  update_peer : (id : String) → PeerInput → PeerRequest
  start_peer : (id : String) → PeerRequest
  stop_peer : (id : String) → PeerRequest
  delete_peer : (id : String) → PeerRequest

-- An answer that needs a peer of the id.
abbrev pub with_peer :
    Option Peer → String → List Peer → (Peer → List Peer × PeerReply) → List Peer × PeerReply
with_peer none id peers reply = (peers, not_found id)
with_peer (some p) id peers reply = reply p

-- An answer to a body that has to be valid.
abbrev pub if_valid : FieldErrors → List Peer → List Peer × PeerReply → List Peer × PeerReply
if_valid [] peers reply = reply
if_valid (e ∷ es) peers reply = (peers, validation_problem (e ∷ es))

-- An answer that needs the name to be free.
abbrev pub if_free : Bool → String → List Peer → List Peer × PeerReply → List Peer × PeerReply
if_free true name peers reply = (peers, validation_problem (in_use name))
if_free false name peers reply = reply

abbrev pub named : String → Peer → Bool
named name p = str_eq p.name name

abbrev pub other_named : String → String → Peer → Bool
other_named id name p = not (str_eq p.id id) && str_eq p.name name

abbrev pub new_peer : (now : ℕ) → List Peer → PeerInput → Peer
unfolding apply_input
new_peer now peers input = apply_input (peer_id (length peers + 1)) stopped none now input

-- `applyInput(peers[idx], input)`
abbrev pub updated : (now : ℕ) → PeerInput → Peer → Peer
unfolding apply_input
updated now input p = apply_input p.id p.status p.status_detail now input

module _ (trim : String → String) (lower : String → String) (text_length : String → ℕ) where
  unfoldable pub handle : (now : ℕ) → PeerRequest → List Peer → List Peer × PeerReply
  unfolding validate find_peer change_peer drop_peer
  handle now list_peers peers = (peers, listed peers)
  handle now (read_peer id) peers = with_peer (find_peer id peers) id peers (λ p. (peers, found p))
  handle now (create_peer input) peers = if_valid (validate trim lower text_length input) peers (
      if_free (any (named input.name) peers) input.name peers
        (peers ++ new_peer now peers input ∷ [], created (new_peer now peers input)))
  handle now (test_peer input) peers =
      if_valid (validate trim lower text_length input) peers
        (peers, tested (not (unreachable input.host)))
  handle now (update_peer id input) peers = with_peer (find_peer id peers) id peers (λ p.
      if_valid (validate trim lower text_length input) peers (
        if_free (any (other_named id input.name) peers) input.name peers
          (change_peer id (updated now input) peers, found (updated now input p))))
  handle now (start_peer id) peers =
      with_peer (find_peer id peers) id peers
        (λ p. (change_peer id (started now) peers, found (started now p)))
  handle now (stop_peer id) peers =
      with_peer (find_peer id peers) id peers
        (λ p. (change_peer id (halted now) peers, found (halted now p)))
  handle now (delete_peer id) peers =
      with_peer (find_peer id peers) id peers (λ p. (drop_peer id peers, removed))

  -- Requests one after the other.
  unfoldable pub handle_all : (now : ℕ) → List PeerRequest → List Peer → List Peer
  unfolding handle
  handle_all now [] peers = peers
  handle_all now (r ∷ requests) peers = handle_all now requests (handle now r peers).0
