-- ===== src/Peers/Named.antt =====
-- peersFakeApi.ts: the names of the peers on the mock server, and their ids.
use ocs_testbench.Common.{
  ℕ, ◌≡◌, refl, ap, inl, inr, String, List, [], ◌∷◌, ◌++◌, Option, none, some, any, All, arith,
  Bool-cases,
}
use ocs_testbench.FakeApi.Checks.{FieldErrors}
use ocs_testbench.Peers.{
  PeerReply, if_free, Peer, PeerInput, PeerRequest, list_peers, read_peer, create_peer, test_peer,
  update_peer, start_peer, stop_peer, delete_peer, find_peer, change_peer, peer_id, started, halted,
  updated, new_peer, named, other_named, with_peer, if_valid, validate, handle, handle_all,
}
use ocs_testbench.Peers.Rows.{
  AreNamed, AreNumbered, KeepsId, KeepsName, change-AreNamed, change-AreNumbered, named-snoc,
  numbered-snoc, update-AreNamed,
}

-- What holds of the mock server's peers.
abbrev pub AreInOrder : List Peer → Type 0
AreInOrder ps = AreNumbered 1 ps × AreNamed ps

with_peer-keeps :
    (o : Option Peer) (id : String) (ps : List Peer) (reply : Peer → List Peer × PeerReply)
    → AreInOrder ps
    → ((p : Peer) → AreInOrder (reply p).0)
    → AreInOrder (with_peer o id ps reply).0
with_peer-keeps none id ps reply h k = h
with_peer-keeps (some p) id ps reply h k = k p

if_valid-keeps :
    (es : FieldErrors) (ps : List Peer) (reply : List Peer × PeerReply)
    → AreInOrder ps
    → AreInOrder reply.0
    → AreInOrder (if_valid es ps reply).0
if_valid-keeps [] ps reply h k = k
if_valid-keeps (e ∷ es) ps reply h k = h

change-AreInOrder :
    (id : String) (f : Peer → Peer) (ps : List Peer)
    → KeepsId f
    → KeepsName f
    → AreInOrder ps
    → AreInOrder (change_peer id f ps)
change-AreInOrder id f ps k n (a, b) =
    (change-AreNumbered 1 id f ps k a, change-AreNamed id f ps n b)

started-id : (now : ℕ) (p : Peer) → (started now p).id ≡ p.id
started-id now p = ground arith

started-name : (now : ℕ) (p : Peer) → (started now p).name ≡ p.name
started-name now p = ground arith

-- Every request but a deletion.
abbrev pub IsKept : PeerRequest → Type 0
IsKept (delete_peer id) = ⊥
IsKept r = Unit {0}

module _ (trim : String → String) (lower : String → String) (text_length : String → ℕ) where
  create-AreInOrder :
      (now : ℕ) (input : PeerInput) (ps : List Peer)
      → AreInOrder ps
      → AreInOrder
          (if_free
            (any (named input.name) ps)
            input.name
            ps
            (ps ++ new_peer now ps input ∷ [], PeerReply.created (new_peer now ps input))).0
  unfolding new_peer
  create-AreInOrder now input ps (a, b) = elim (Bool-cases (any (named input.name) ps)) [
    | inl t ↦ rw t (a, b)
    | inr t ↦ rw t (
      numbered-snoc 1 ps (new_peer now ps input) (ap peer_id (omega arith)) a,
      named-snoc ps (new_peer now ps input) t b,
    )
  ]

  update-AreInOrder :
      (now : ℕ) (id : String) (input : PeerInput) (ps : List Peer) (reply : PeerReply)
      → AreInOrder ps
      → AreInOrder
          (if_free
            (any (other_named id input.name) ps)
            input.name
            ps
            (change_peer id (updated now input) ps, reply)).0
  unfolding updated
  update-AreInOrder now id input ps reply (a, b) =
      elim (Bool-cases (any (other_named id input.name) ps)) [
        | inl t ↦ rw t (a, b)
        | inr t ↦ rw t (
          change-AreNumbered 1 id (updated now input) ps (λ p. refl) a,
          update-AreNamed now input id 1 ps a t b,
        )
      ]

  handle-AreInOrder :
      (now : ℕ) (r : PeerRequest) (ps : List Peer)
      → IsKept r
      → AreInOrder ps
      → AreInOrder (handle trim lower text_length now r ps).0
  unfolding handle
  handle-AreInOrder now list_peers ps k h = h
  handle-AreInOrder now (read_peer id) ps k h =
      with_peer-keeps (find_peer id ps) id ps (λ p. (ps, PeerReply.found p)) h (λ p. h)
  handle-AreInOrder now (create_peer input) ps k h =
      if_valid-keeps (validate trim lower text_length input) ps _ h
        (create-AreInOrder now input ps h)
  handle-AreInOrder now (test_peer input) ps k h =
      if_valid-keeps (validate trim lower text_length input) ps _ h h
  handle-AreInOrder now (update_peer id input) ps k h =
      with_peer-keeps (find_peer id ps) id ps _ h (λ p.
        if_valid-keeps (validate trim lower text_length input) ps _ h
          (update-AreInOrder now id input ps (PeerReply.found (updated now input p)) h))
  handle-AreInOrder now (start_peer id) ps k h =
      with_peer-keeps (find_peer id ps) id ps _ h
        (λ p. change-AreInOrder id (started now) ps (started-id now) (started-name now) h)
  handle-AreInOrder now (stop_peer id) ps k h =
      with_peer-keeps (find_peer id ps) id ps _ h
        (λ p. change-AreInOrder id (halted now) ps (λ q. refl) (λ q. refl) h)
  handle-AreInOrder now (delete_peer id) ps k h = absurd k

  -- As long as no peer is deleted, the peers' ids count from 1 and no two peers have one name, whatever
  -- is asked of the server, if that holds at the start.
  pub handle_all-AreInOrder :
      (now : ℕ) (requests : List PeerRequest) (ps : List Peer)
      → All IsKept requests
      → AreInOrder ps
      → AreInOrder (handle_all trim lower text_length now requests ps)
  unfolding handle_all
  handle_all-AreInOrder now [] ps k h = h
  handle_all-AreInOrder now (r ∷ requests) ps (k, ks) h =
      handle_all-AreInOrder now requests (handle trim lower text_length now r ps).0 ks
        (handle-AreInOrder now r ps k h)
