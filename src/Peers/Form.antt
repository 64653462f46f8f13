-- ===== src/Peers/Form.antt =====
-- web/src/pages/peers/PeerForm.tsx: the form of a peer. The library's form keeps the values; it calls
-- a field's rule with the value.
use ocs_testbench.Common.{ℕ, String, Bool, true, false, not, ◌&&◌, ltb, leb, or_else}
use ocs_testbench.Peers.{tcp, NumberField, whole, fraction, blank, PeerInput, Peer, is_empty}

abbrev pub empty_input : PeerInput
empty_input = record {
  name = "";
  host = "127.0.0.1";
  port = whole 3868;
  origin_host = "";
  origin_realm = "";
  dest_host = "";
  dest_realm = "";
  transport = tcp;
  watchdog_interval_seconds = whole 30;
  auto_connect = true;
}

unfoldable pub from_peer : Peer → PeerInput
from_peer peer = record {
  name = peer.name;
  host = peer.host;
  port = peer.port;
  origin_host = peer.origin_host;
  origin_realm = peer.origin_realm;
  dest_host = or_else peer.dest_host "";
  dest_realm = or_else peer.dest_realm "";
  transport = peer.transport;
  watchdog_interval_seconds = peer.watchdog_interval_seconds;
  auto_connect = peer.auto_connect;
}

-- `typeof v === 'number' && v >= lo && v <= hi`
abbrev pub within : (lo hi : ℕ) → NumberField → Bool
within lo hi (whole n) = leb lo n && leb n hi
within lo hi (fraction n) = leb lo n && ltb n hi
within lo hi blank = false

-- `form.isValid()`: no rule has a message.
unfoldable pub is_valid : (trim : String → String) → PeerInput → Bool
is_valid trim v =
    not (is_empty (trim v.name))
    && (not (is_empty (trim v.host))
        && (within 1 65535 v.port
            && (not (is_empty (trim v.origin_host))
                && (not (is_empty (trim v.origin_realm))
                    && within 5 3600 v.watchdog_interval_seconds))))
