-- ===== src/Peers/Reused.antt =====
-- peersFakeApi.ts: the id that a peer gets after a deletion.
use ocs_testbench.Common.{
  ℕ, ◌+◌, ◌≡◌, refl, ap, ◌∙◌, String, Bool, true, false, ◌||◌, List, [], ◌∷◌, ◌++◌, length, any,
  arith, str_eq, eq_iff, eq_refl,
}
use ocs_testbench.Peers.{
  Peer, PeerInput, create_peer, delete_peer, find_peer, drop_peer, peer_id, new_peer, named,
  validate, handle, handle_all,
}
use ocs_testbench.Peers.Rows.{AreNumbered}

abbrev pub same_id : String → Peer → Bool
same_id id p = str_eq p.id id

or_true : (b : Bool) {c : Bool} → c ≡ true → (b || c) ≡ true
or_true true h = refl
or_true false h = h

last_id :
    (n : ℕ) (q : Peer) (ps : List Peer)
    → AreNumbered n (q ∷ ps)
    → any (same_id (peer_id (n + length ps))) (q ∷ ps) ≡ true
last_id n q [] (e, h) = rw e (ground (arith, eq_iff (peer_id n) (peer_id (n + 0))))
last_id n q (p ∷ ps) (e, h) =
    let k : n + length (p ∷ ps) ≡ n + 1 + length ps = omega arith in
    let later = ap (λ m. any (same_id (peer_id m)) (p ∷ ps)) k ∙ last_id (n + 1) p ps h in
    or_true (same_id (peer_id (n + length (p ∷ ps))) q) later

module _ (trim : String → String) (lower : String → String) (text_length : String → ℕ) where
  delete_first :
      (now : ℕ) (p : Peer) (ps : List Peer)
      → (handle trim lower text_length now (delete_peer p.id) (p ∷ ps)).0 ≡ ps
  unfolding handle find_peer drop_peer
  delete_first now p ps = rw (eq_refl p.id) refl

  create_accepted :
      (now : ℕ) (ps : List Peer) (input : PeerInput)
      → validate trim lower text_length input ≡ []
      → any (named input.name) ps ≡ false
      → (handle trim lower text_length now (create_peer input) ps).0
        ≡ ps ++ new_peer now ps input ∷ []
  unfolding handle
  create_accepted now ps input valid free = rw (valid, free) refl

  deleted_then_created :
      (now : ℕ) (p q : Peer) (ps : List Peer) (input : PeerInput)
      → validate trim lower text_length input ≡ []
      → any (named input.name) (q ∷ ps) ≡ false
      → handle_all trim lower text_length now
          (delete_peer p.id ∷ create_peer input ∷ [])
          (p ∷ q ∷ ps)
        ≡ (q ∷ ps) ++ new_peer now (q ∷ ps) input ∷ []
  unfolding handle_all
  deleted_then_created now p q ps input valid free =
      ap (λ l. (handle trim lower text_length now (create_peer input) l).0)
        (delete_first now p (q ∷ ps))
      ∙ create_accepted now (q ∷ ps) input valid free

  -- Where at least two peers are numbered in order, the deletion of the first and the creation of a
  -- peer that is accepted give the new peer an id that another peer has.
  pub create-delete_duplicate :
      (now : ℕ) (p q : Peer) (ps : List Peer) (input : PeerInput)
      → AreNumbered 1 (p ∷ q ∷ ps)
      → validate trim lower text_length input ≡ []
      → any (named input.name) (q ∷ ps) ≡ false
      → (handle_all trim lower text_length now
            (delete_peer p.id ∷ create_peer input ∷ [])
            (p ∷ q ∷ ps)
          ≡ (q ∷ ps) ++ new_peer now (q ∷ ps) input ∷ [])
        × (any (same_id (new_peer now (q ∷ ps) input).id) (q ∷ ps) ≡ true)
  unfolding new_peer
  create-delete_duplicate now p q ps input h valid free = (
    deleted_then_created now p q ps input valid free,
    (let k : length (q ∷ ps) + 1 ≡ 1 + 1 + length ps = omega arith in
        ap (λ m. any (same_id (peer_id m)) (q ∷ ps)) k ∙ last_id (1 + 1) q ps h.1),
  )
