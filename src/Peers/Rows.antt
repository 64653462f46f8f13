-- ===== src/Peers/Rows.antt =====
-- Lists of peers whose ids count up and whose names differ, under changes of one peer and at their end.
use ocs_testbench.Common.{
  ℕ, ◌+◌, ◌<◌, ◌≡◌, refl, sym, ap, ◌∙◌, inl, inr, String, false, ◌||◌, List, [], ◌∷◌, ◌++◌, length,
  any, arith, str_eq, eq_iff, Bool-cases,
}
use ocs_testbench.Common.Decimal.{pad_two_inj}
use ocs_testbench.Peers.{Peer, PeerInput, change_peer, peer_id, updated, named, other_named}

-- The ids of the list count from `n`.
abbrev pub AreNumbered : ℕ → List Peer → Type 0
AreNumbered n [] = Unit {0}
AreNumbered n (p ∷ ps) = (p.id ≡ peer_id n) × AreNumbered (n + 1) ps

-- No two peers of the list have one name.
abbrev pub AreNamed : List Peer → Type 0
AreNamed [] = Unit {0}
AreNamed (p ∷ ps) = (any (named p.name) ps ≡ false) × AreNamed ps

-- A change that keeps ids.
abbrev pub KeepsId : (Peer → Peer) → Type 0
KeepsId f = (p : Peer) → (f p).id ≡ p.id

abbrev pub KeepsName : (Peer → Peer) → Type 0
KeepsName f = (p : Peer) → (f p).name ≡ p.name

pub change-AreNumbered :
    (n : ℕ) (id : String) (f : Peer → Peer) (ps : List Peer)
    → KeepsId f
    → AreNumbered n ps
    → AreNumbered n (change_peer id f ps)
unfolding change_peer
change-AreNumbered n id f [] k h = h
change-AreNumbered n id f (p ∷ ps) k (e, h) = elim (Bool-cases (str_eq p.id id)) [
  | inl t ↦ rw t (k p ∙ e, h)
  | inr t ↦ rw t (e, change-AreNumbered (n + 1) id f ps k h)
]

any-named-change :
    (name id : String) (f : Peer → Peer) (ps : List Peer)
    → KeepsName f
    → any (named name) (change_peer id f ps) ≡ any (named name) ps
unfolding change_peer
any-named-change name id f [] k = refl
any-named-change name id f (p ∷ ps) k = elim (Bool-cases (str_eq p.id id)) [
  | inl t ↦ rw (t, k p) refl
  | inr t ↦ rw (t, any-named-change name id f ps k) refl
]

pub change-AreNamed :
    (id : String) (f : Peer → Peer) (ps : List Peer)
    → KeepsName f
    → AreNamed ps
    → AreNamed (change_peer id f ps)
unfolding change_peer
change-AreNamed id f [] k h = h
change-AreNamed id f (p ∷ ps) k (e, h) = elim (Bool-cases (str_eq p.id id)) [
  | inl t ↦ rw (t, k p) (e, h)
  | inr t ↦ rw (t, any-named-change p.name id f ps k) (e, change-AreNamed id f ps k h)
]

any-named-snoc :
    (name : String) (ps : List Peer) (q : Peer)
    → any (named name) (ps ++ q ∷ []) ≡ (any (named name) ps || str_eq q.name name)
any-named-snoc name [] q = ground arith
any-named-snoc name (p ∷ ps) q = ground (arith, any-named-snoc name ps q)

-- Appending a peer of a new name.
pub named-snoc :
    (ps : List Peer) (q : Peer)
    → any (named q.name) ps ≡ false
    → AreNamed ps
    → AreNamed (ps ++ q ∷ [])
named-snoc [] q e h = (refl, tt)
named-snoc (p ∷ ps) q e (d, h) = (
  any-named-snoc p.name ps q ∙ ground (arith, eq_iff p.name q.name, eq_iff q.name p.name),
  named-snoc ps q (ground arith) h,
)

pub numbered-snoc :
    (n : ℕ) (ps : List Peer) (q : Peer)
    → q.id ≡ peer_id (n + length ps)
    → AreNumbered n ps
    → AreNumbered n (ps ++ q ∷ [])
numbered-snoc n [] q e h = (e ∙ ap peer_id (omega arith), tt)
numbered-snoc n (p ∷ ps) q e (d, h) =
    (d, numbered-snoc (n + 1) ps q (e ∙ ap peer_id (omega arith)) h)

other_id : (p : Peer) (n m : ℕ) → p.id ≡ peer_id m → n < m → str_eq p.id (peer_id n) ≡ false
other_id p n m e l = elim (Bool-cases (str_eq p.id (peer_id n))) [
  | inl t ↦ absurd (omega (arith, pad_two_inj "peer-" m n (sym e ∙ (eq_iff p.id (peer_id n)).0 t)))
  | inr t ↦ t
]

-- The peers after one have other ids.
others_after :
    (n m : ℕ) (name : String) (ps : List Peer)
    → n < m
    → AreNumbered m ps
    → any (other_named (peer_id n) name) ps ≡ any (named name) ps
others_after n m name [] l h = refl
others_after n m name (p ∷ ps) l (e, h) =
    rw (other_id p n m e l, others_after n (m + 1) name ps (omega arith) h) refl

any-named-updated :
    (now : ℕ) (input : PeerInput) (name id : String) (ps : List Peer)
    → any (named name) ps ≡ false
    → str_eq input.name name ≡ false
    → any (named name) (change_peer id (updated now input) ps) ≡ false
unfolding change_peer updated
any-named-updated now input name id [] h e = refl
any-named-updated now input name id (p ∷ ps) h e = elim (Bool-cases (str_eq p.id id)) [
  | inl t ↦ rw (t, e) (ground arith)
  | inr t ↦ rw t (ground (arith, any-named-updated now input name id ps))
]

pub update-AreNamed :
    (now : ℕ) (input : PeerInput) (id : String) (n : ℕ) (ps : List Peer)
    → AreNumbered n ps
    → any (other_named id input.name) ps ≡ false
    → AreNamed ps
    → AreNamed (change_peer id (updated now input) ps)
unfolding change_peer updated
update-AreNamed now input id n [] k e h = h
update-AreNamed now input id n (p ∷ ps) (d, k) e (g, h) = elim (Bool-cases (str_eq p.id id)) [
  | inl t ↦
      let same : id ≡ peer_id n = sym ((eq_iff p.id id).0 t) ∙ d in
      rw t (
        sym (others_after n (n + 1) input.name ps (omega arith) k)
            ∙ ap (λ i. any (other_named i input.name) ps) (sym same)
            ∙ ground arith,
        h,
      )
  | inr t ↦ rw t (
    any-named-updated now input p.name id ps g
        (ground (arith, eq_iff p.name input.name, eq_iff input.name p.name)),
    update-AreNamed now input id (n + 1) ps k (ground arith) h,
  )
]
