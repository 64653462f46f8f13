-- ===== src/Examples/PeerRuns.antt =====
-- A mock server with two peers, and what the page caches and tells of them.
use ocs_testbench.Common.{
  ℕ, ◌≡◌, ◌↔◌, refl, inl, String, true, false, ◌&&◌, [], ◌∷◌, Option, none, some, any, or_else,
}
use ocs_testbench.Common.Decimal.{pad_two}
use ocs_testbench.Common.Objects.{lookup}
use ocs_testbench.Common.Text.{number_text}
use ocs_testbench.Peers.{
  PeerInput, Peer, PeerStatus, stopped, connected, whole, fraction, tcp, peer_id, validate,
  create_peer, delete_peer, update_peer, start_peer, handle, new_peer, handle_all,
}
use ocs_testbench.Peers.Form.{is_valid}
use ocs_testbench.Peers.Accepted.{server_rules, validate-eq-nil_iff}
use ocs_testbench.Peers.Named.{AreInOrder, handle_all-AreInOrder}
use ocs_testbench.Peers.Reused.{same_id, create-delete_duplicate}
use ocs_testbench.Peers.Refused.{IsAnswered, shown, submission, field_errors, create-IsAnswered}
use ocs_testbench.Peers.Toasts.{on_updates}
use ocs_testbench.Peers.Toasts.Changes.{told, track, told-on_updates}
use ocs_testbench.Peers.Cached.{PeerCache, start_action, transient_of, patched}
use ocs_testbench.Peers.Cached.Rollback.{HasRow, outcome, lists, action-told}

abbrev same : String → String
same s = s

abbrev four : String → ℕ
four s = 4

abbrev input : String → PeerInput
input name = record {
  name = name;
  host = "10.0.0.1";
  port = whole 3868;
  origin_host = "a.test";
  origin_realm = "test";
  dest_host = "b.test";
  dest_realm = "test";
  transport = tcp;
  watchdog_interval_seconds = whole 30;
  auto_connect = true;
}

abbrev peer : String → String → PeerStatus → Peer
peer id name status = record {
  id = id;
  name = name;
  host = "10.0.0.1";
  port = whole 3868;
  origin_host = "a.test";
  origin_realm = "test";
  dest_host = none;
  dest_realm = none;
  transport = tcp;
  watchdog_interval_seconds = whole 30;
  auto_connect = true;
  status = status;
  status_detail = none;
  last_change_at = 0;
}

abbrev first_peer : Peer
first_peer = peer (peer_id 1) "north" stopped

abbrev second_peer : Peer
second_peer = peer (peer_id 2) "south" connected

-- The form takes half a port, the server does not.
abbrev half_port : PeerInput
half_port = record (input "east") { port = fraction 3868 }

validate-eq-nil_iff_example :
    (validate same same four half_port ≡ [])
    ↔ ((is_valid same half_port && server_rules same four "east" half_port) ≡ true)
validate-eq-nil_iff_example = validate-eq-nil_iff same same four half_port

half_port_in_form : is_valid same half_port ≡ true
unfolding is_valid
half_port_in_form = refl

handle_all-AreInOrder_example : AreInOrder (
    handle_all same same four 7
      (create_peer (input "east")
        ∷ start_peer (peer_id 1)
        ∷ update_peer (peer_id 2) (input "north")
        ∷ [])
      (first_peer ∷ second_peer ∷ []))
handle_all-AreInOrder_example =
    handle_all-AreInOrder same same four 7
      (create_peer (input "east")
        ∷ start_peer (peer_id 1)
        ∷ update_peer (peer_id 2) (input "north")
        ∷ [])
      (first_peer ∷ second_peer ∷ []) (tt, (tt, (tt, tt))) ((refl, (refl, tt)), (refl, (refl, tt)))

create-delete_duplicate_example :
    (handle_all same same four 7
        (delete_peer (peer_id 1) ∷ create_peer (input "east") ∷ [])
        (first_peer ∷ second_peer ∷ [])
      ≡ second_peer ∷ new_peer 7 (second_peer ∷ []) (input "east") ∷ [])
    × (any (same_id (new_peer 7 (second_peer ∷ []) (input "east")).id) (second_peer ∷ []) ≡ true)
unfolding validate
create-delete_duplicate_example =
    create-delete_duplicate same same four 7 first_peer second_peer [] (input "east")
      (refl, (refl, tt)) refl refl

told-on_updates_example :
    told
      (peer_id 1)
      (on_updates ((first_peer ∷ []) ∷ (peer (peer_id 1) "north" connected ∷ []) ∷ []) []).1
    ≡ track
        (peer_id 1)
        (lookup (peer_id 1) [])
        ((first_peer ∷ []) ∷ (peer (peer_id 1) "north" connected ∷ []) ∷ [])
told-on_updates_example =
    told-on_updates (peer_id 1) ((first_peer ∷ []) ∷ (peer (peer_id 1) "north" connected ∷ []) ∷ [])
      []

-- The list is read, no detail is.
abbrev cache : PeerCache
cache = record { peers = some (first_peer ∷ second_peer ∷ []); list_stale = false; details = [] }

abbrev answer : Option Peer
answer = some (peer (peer_id 1) "north" connected)

row : HasRow cache [] first_peer (second_peer ∷ [])
unfolding pad_two number_text lookup
row = record { rows = refl; none_before = refl; none_after = refl; detail = inl refl }

action-told_example :
    (lists cache [] first_peer (second_peer ∷ []) row 7 start_action answer
      ≡ (patched 7 (transient_of start_action) first_peer ∷ second_peer ∷ [])
        ∷ (or_else answer first_peer ∷ second_peer ∷ [])
        ∷ [])
    × (told
          (peer_id 1)
          (on_updates
            (lists cache [] first_peer (second_peer ∷ []) row 7 start_action answer)
            ((peer_id 1, stopped) ∷ [])).1
        ≡ outcome stopped answer)
unfolding lookup pad_two number_text
action-told_example =
    action-told cache [] first_peer (second_peer ∷ []) row 7 start_action answer
      ((peer_id 1, stopped) ∷ []) refl refl refl

create-IsAnswered_example :
    IsAnswered
      (first_peer ∷ [])
      (handle same same four 7 (create_peer (input "north")) (first_peer ∷ []))
create-IsAnswered_example = create-IsAnswered same same four 7 (input "north") (first_peer ∷ [])

-- The name is taken.
north_refused :
    submission (handle same same four 7 (create_peer (input "north")) (first_peer ∷ [])).1
    ≡ shown (("name", "Name \"north\" is already in use") ∷ [])
unfolding handle validate submission field_errors
north_refused = refl
