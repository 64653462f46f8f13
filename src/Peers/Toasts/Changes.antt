-- ===== src/Peers/Toasts/Changes.antt =====
-- usePeerStatusToasts.ts: the notices of one peer, and the settled statuses that the lists show of it.
use ocs_testbench.Common.{
  ◌≡◌, refl, sym, ap, ◌∙◌, subst, inl, inr, String, false, List, [], ◌∷◌, ◌++◌, Option, none, some,
  arith, str_eq, eq_iff, eq_refl, if◌then◌else◌, Bool-cases,
}
use ocs_testbench.Common.Objects.{lookup, lookup-insert}
use ocs_testbench.Peers.{PeerStatus, Peer}
use ocs_testbench.Peers.Toasts.{
  same_status, is_transient, Toast, toast, LastStatus, observe_from, observe, observe_all, is_live,
  prune, on_update, on_updates,
}

-- The settled statuses that a list shows of a peer.
abbrev pub settled : String → List Peer → List PeerStatus
settled id [] = []
settled id (p ∷ ps) =
    let rest = settled id ps in
    if str_eq p.id id then (if is_transient p.status then rest else p.status ∷ rest) else rest

-- The changes along a run of statuses, from a last one.
abbrev pub changes : Option PeerStatus → List PeerStatus → List (PeerStatus × PeerStatus)
changes last [] = []
changes none (s ∷ ss) = changes (some s) ss
changes (some a) (s ∷ ss) =
    let rest = changes (some s) ss in
    let kept = changes (some a) ss in if same_status a s then kept else (a, s) ∷ rest

abbrev pub final_status : Option PeerStatus → List PeerStatus → Option PeerStatus
final_status last [] = last
final_status none (s ∷ ss) = final_status (some s) ss
final_status (some a) (s ∷ ss) =
    let rest = final_status (some s) ss in
    let kept = final_status (some a) ss in if same_status a s then kept else rest

-- The changes over a run of lists. A peer that a list does not show is forgotten.
abbrev pub track : String → Option PeerStatus → List (List Peer) → List (PeerStatus × PeerStatus)
track id last [] = []
track id last (u ∷ us) =
    changes last (settled id u)
    ++ track id (if is_live u id then final_status last (settled id u) else none) us

-- The changes that notices tell of a peer.
abbrev pub told : String → List Toast → List (PeerStatus × PeerStatus)
told id [] = []
told id (t ∷ ts) = if str_eq t.peer_id id then (t.from, t.to) ∷ told id ts else told id ts

told-append : (id : String) (ts us : List Toast) → told id (ts ++ us) ≡ told id ts ++ told id us
told-append id [] us = refl
told-append id (t ∷ ts) us = ground (arith, told-append id ts us)

-- What the hook tells of a peer, and remembers of it, after a row.
abbrev Follows : String → Option PeerStatus → List PeerStatus → LastStatus × List Toast → Type 0
Follows id o ss r = (told id r.1 ≡ changes o ss) × (lookup id r.0 ≡ final_status o ss)

from_self :
    (o : Option PeerStatus) (p : Peer) (last : LastStatus)
    → lookup p.id last ≡ o
    → Follows p.id o (if is_transient p.status then [] else p.status ∷ []) (observe_from o p last)
unfolding toast
from_self none p last e = elim (Bool-cases (is_transient p.status)) [
  | inl t ↦ rw t (refl, e)
  | inr t ↦ rw t (refl, lookup-insert p.id p.id p.status last ∙ rw (eq_refl p.id) refl)
]
from_self (some a) p last e = elim (Bool-cases (same_status a p.status)) [
  | inl h ↦ elim (Bool-cases (is_transient p.status)) [
    | inl t ↦ rw (h, t) (refl, e)
    | inr t ↦ rw (h, t, h) (refl, e)
  ]
  | inr h ↦ elim (Bool-cases (is_transient p.status)) [
    | inl t ↦ rw (h, t) (refl, e)
    | inr t ↦
        rw (h, t, h, eq_refl p.id)
          (refl, lookup-insert p.id p.id p.status last ∙ rw (eq_refl p.id) refl)
  ]
]

from_other :
    (o : Option PeerStatus) (p : Peer) (id : String) (last : LastStatus)
    → str_eq p.id id ≡ false
    → Follows id (lookup id last) [] (observe_from o p last)
unfolding toast
from_other none p id last e = elim (Bool-cases (is_transient p.status)) [
  | inl t ↦ rw t (refl, refl)
  | inr t ↦ rw t (refl, lookup-insert p.id id p.status last ∙ rw e refl)
]
from_other (some a) p id last e = elim (Bool-cases (same_status a p.status)) [
  | inl h ↦ rw h (refl, refl)
  | inr h ↦ elim (Bool-cases (is_transient p.status)) [
    | inl t ↦ rw (h, t) (refl, refl)
    | inr t ↦ rw (h, t, e) (refl, lookup-insert p.id id p.status last ∙ rw e refl)
  ]
]

-- The settled statuses that one row adds.
abbrev own : String → Peer → List PeerStatus
own id p = if str_eq p.id id then (if is_transient p.status then [] else p.status ∷ []) else []

observe-Follows :
    (p : Peer) (id : String) (last : LastStatus)
    → Follows id (lookup id last) (own id p) (observe p last)
unfolding observe
observe-Follows p id last = elim (Bool-cases (str_eq p.id id)) [
  | inl e ↦ rw e (
      subst
        (λ i.
          Follows i (lookup i last) (if is_transient p.status then [] else p.status ∷ [])
            (observe_from (lookup p.id last) p last))
        ((eq_iff p.id id).0 e) (from_self (lookup p.id last) p last refl))
  | inr e ↦ rw e (from_other (lookup p.id last) p id last e)
]

changes-append :
    (o : Option PeerStatus) (ss ts : List PeerStatus)
    → changes o (ss ++ ts) ≡ changes o ss ++ changes (final_status o ss) ts
changes-append o [] ts = refl
changes-append none (s ∷ ss) ts = changes-append (some s) ss ts
changes-append (some a) (s ∷ ss) ts =
    ground (arith, changes-append (some s) ss ts, changes-append (some a) ss ts)

final-append :
    (o : Option PeerStatus) (ss ts : List PeerStatus)
    → final_status o (ss ++ ts) ≡ final_status (final_status o ss) ts
final-append o [] ts = refl
final-append none (s ∷ ss) ts = final-append (some s) ss ts
final-append (some a) (s ∷ ss) ts =
    ground (arith, final-append (some s) ss ts, final-append (some a) ss ts)

settled_first :
    (id : String) (p : Peer) (ps : List Peer) → settled id (p ∷ ps) ≡ own id p ++ settled id ps
settled_first id p ps = ground arith

observe_all-Follows :
    (ps : List Peer) (id : String) (last : LastStatus)
    → Follows id (lookup id last) (settled id ps) (observe_all ps last)
unfolding observe_all
observe_all-Follows [] id last = (refl, refl)
observe_all-Follows (p ∷ ps) id last =
    let next = (observe p last).0 in
    let here = observe-Follows p id last in
    let later = observe_all-Follows ps id next in
    rw (settled_first id p ps) (
      told-append id (observe p last).1 (observe_all ps next).1
          ∙ rw (here.0, later.0, here.1)
              (sym (changes-append (lookup id last) (own id p) (settled id ps))),
      later.1 ∙ rw here.1 (sym (final-append (lookup id last) (own id p) (settled id ps))),
    )

lookup-prune :
    (peers : List Peer) (id : String) (last : LastStatus)
    → lookup id (prune peers last) ≡ (if is_live peers id then lookup id last else none)
unfolding prune lookup
lookup-prune peers id [] = ground arith
lookup-prune peers id ((j, s) ∷ last) = elim (Bool-cases (str_eq j id)) [
  | inl e ↦
      let same : is_live peers j ≡ is_live peers id = ap (is_live peers) ((eq_iff j id).0 e) in
      rw same (elim (Bool-cases (is_live peers id)) [
        | inl t ↦ rw (t, e) refl
        | inr t ↦ rw t (lookup-prune peers id last ∙ rw t refl)
      ])
  | inr e ↦ elim (Bool-cases (is_live peers j)) [
    | inl t ↦ rw (t, e) (lookup-prune peers id last)
    | inr t ↦ rw (t, e) (lookup-prune peers id last)
  ]
]

-- For each peer the notices tell exactly the changes between the settled statuses that the lists show
-- of it, one after the other: a transient status is passed over, the first settled one only
-- remembered, and a peer that a list does not show is forgotten. What the notices of one peer tell does
-- not depend on the other peers.
pub told-on_updates :
    (id : String) (us : List (List Peer)) (last : LastStatus)
    → told id (on_updates us last).1 ≡ track id (lookup id last) us
unfolding on_updates on_update
told-on_updates id [] last = refl
told-on_updates id (u ∷ us) last =
    let seen = observe_all u last in
    let here = observe_all-Follows u id last in
    told-append id seen.1 (on_updates us (prune u seen.0)).1
    ∙ rw (here.0, told-on_updates id us (prune u seen.0), lookup-prune u id seen.0, here.1) refl
