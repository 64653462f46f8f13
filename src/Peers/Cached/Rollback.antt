-- ===== src/Peers/Cached/Rollback.antt =====
-- An action of api/resources/peers.ts, as the list shows it and as the notices tell it.
use ocs_testbench.Common.{
  ℕ, ◌≡◌, refl, sym, ap, ◌∙◌, inl, inr, String, true, false, ◌||◌, ◌⊎◌, List, [], ◌∷◌, ◌++◌,
  append-nil, Option, none, some, map, any, arith, eq_iff, eq_refl, or_else, if◌then◌else◌,
}
use ocs_testbench.Common.Objects.{lookup}
use ocs_testbench.Peers.{PeerStatus, Peer, find_peer}
use ocs_testbench.Peers.Reused.{same_id}
use ocs_testbench.Peers.Toasts.{same_status, is_transient, LastStatus, on_updates, is_live}
use ocs_testbench.Peers.Toasts.Changes.{settled, changes, told, told-on_updates, track}
use ocs_testbench.Peers.Cached.{
  PeerCache, put_row, cached_peer, patched, write_peer, optimistic_status_patch, PeerAction,
  start_action, stop_action, restart_action, transient_of, begin_action, finish_action,
}

-- The list has one row of the peer's id, between these rows.
pub record HasRow (c : PeerCache) (before : List Peer) (p : Peer) (after : List Peer) : Type 0 where
  pub rows : c.peers ≡ some (before ++ p ∷ after)
  pub none_before : any (same_id p.id) before ≡ false
  pub none_after : any (same_id p.id) after ≡ false
  pub detail : (lookup p.id c.details ≡ none) ⊎ (lookup p.id c.details ≡ some p)

put_row-absent :
    (peer : Peer) (ps : List Peer) → any (same_id peer.id) ps ≡ false → map (put_row peer) ps ≡ ps
put_row-absent peer [] h = refl
put_row-absent peer (p ∷ ps) h = ground (arith, put_row-absent peer ps)

put_row-row :
    (peer old : Peer) (before after : List Peer)
    → old.id ≡ peer.id
    → any (same_id peer.id) before ≡ false
    → any (same_id peer.id) after ≡ false
    → map (put_row peer) (before ++ old ∷ after) ≡ before ++ peer ∷ after
put_row-row peer old [] after e b a =
    rw ((eq_iff old.id peer.id).1 e) (ap (λ l. peer ∷ l) (put_row-absent peer after a))
put_row-row peer old (q ∷ before) after e b a = ground (arith, put_row-row peer old before after e)

find_row :
    (p : Peer) (before after : List Peer)
    → any (same_id p.id) before ≡ false
    → find_peer p.id (before ++ p ∷ after) ≡ some p
unfolding find_peer
find_row p [] after b = rw (eq_refl p.id) refl
find_row p (q ∷ before) after b = ground (arith, find_row p before after)

settled-absent : (id : String) (ps : List Peer) → any (same_id id) ps ≡ false → settled id ps ≡ []
settled-absent id [] h = refl
settled-absent id (p ∷ ps) h = ground (arith, settled-absent id ps)

settled-row :
    (id : String) (q : Peer) (before after : List Peer)
    → q.id ≡ id
    → any (same_id id) before ≡ false
    → any (same_id id) after ≡ false
    → settled id (before ++ q ∷ after) ≡ (if is_transient q.status then [] else q.status ∷ [])
settled-row id q [] after e b a = rw ((eq_iff q.id id).1 e, settled-absent id after a) refl
settled-row id q (p ∷ before) after e b a = ground (arith, settled-row id q before after e)

is_live-row :
    (id : String) (q : Peer) (before after : List Peer)
    → q.id ≡ id
    → is_live (before ++ q ∷ after) id ≡ true
is_live-row id q [] after e = rw ((eq_iff q.id id).1 e) refl
is_live-row id q (p ∷ before) after e = ground (arith, is_live-row id q before after e)

same_status_refl : (s : PeerStatus) → same_status s s ≡ true
same_status_refl s = ground arith

abbrev pub shown_rows : Option (List Peer) → List Peer
shown_rows o = or_else o []

transient_shown : (action : PeerAction) → is_transient (transient_of action) ≡ true
transient_shown start_action = refl
transient_shown stop_action = refl
transient_shown restart_action = refl

-- The server's answer, if there is one, is about the peer.
abbrev pub IsAbout : String → Option Peer → Type 0
IsAbout id none = Unit {0}
IsAbout id (some q) = q.id ≡ id

-- What the notices tell of an action on a peer of that status.
abbrev pub outcome : PeerStatus → Option Peer → List (PeerStatus × PeerStatus)
outcome s none = []
outcome s (some q) =
    if is_transient q.status || same_status s q.status then [] else (s, q.status) ∷ []

module _ (c : PeerCache) (before : List Peer) (p : Peer) (after : List Peer)
    (has : HasRow c before p after) (now : ℕ) (action : PeerAction) where
  found : cached_peer (lookup p.id c.details) c.peers p.id ≡ some p
  found = elim has.detail [
    | inl e ↦ rw (e, has.rows) (find_row p before after has.none_before)
    | inr e ↦ rw e refl
  ]

  abbrev during : Peer
  during = patched now (transient_of action) p

  begun :
      begin_action now action p.id c ≡ (write_peer (patched now (transient_of action) p) c, some p)
  unfolding begin_action optimistic_status_patch
  begun = rw found refl

  written :
      (old q : Peer) (d : PeerCache)
      → d.peers ≡ some (before ++ old ∷ after)
      → old.id ≡ p.id
      → q.id ≡ p.id
      → (write_peer q d).peers ≡ some (before ++ q ∷ after)
  unfolding write_peer
  written old q d rows o e = rw rows (
      ap some (
        put_row-row q old before after (o ∙ sym e)
          (ap (λ i. any (same_id i) before) e ∙ has.none_before)
          (ap (λ i. any (same_id i) after) e ∙ has.none_after)))

  shown_during :
      (begin_action now action p.id c).0.peers
      ≡ some (before ++ patched now (transient_of action) p ∷ after)
  shown_during = rw begun (written p (patched now (transient_of action) p) c has.rows refl refl)

  finished :
      (answer : Option Peer)
      → IsAbout p.id answer
      → (finish_action
          (begin_action now action p.id c).1
          answer
          (begin_action now action p.id c).0).peers
        ≡ some (before ++ or_else answer p ∷ after)
  unfolding finish_action
  finished none e =
      rw begun
        (written during p (write_peer during c) (written p during c has.rows refl refl) refl refl)
  finished (some q) e =
      rw begun
        (written during q (write_peer during c) (written p during c has.rows refl refl) refl e)

  -- The row of the peer once the action is over.
  row_is : (answer : Option Peer) → IsAbout p.id answer → (or_else answer p).id ≡ p.id
  row_is none e = refl
  row_is (some q) e = e

  told_row :
      (answer : Option Peer)
      → is_transient p.status ≡ false
      → changes
          (some p.status)
          (if is_transient (or_else answer p).status then [] else (or_else answer p).status ∷ [])
        ≡ outcome p.status answer
  told_row none t = rw (t, same_status_refl p.status) refl
  told_row (some q) t = ground arith

  -- The list as the action's two writes leave it, one after the other.
  abbrev pub lists : Option Peer → List (List Peer)
  lists answer =
      let begun_with = begin_action now action p.id c in
      shown_rows begun_with.0.peers
      ∷ shown_rows (finish_action begun_with.1 answer begun_with.0).peers
      ∷ []

  lists_are :
      (answer : Option Peer)
      → IsAbout p.id answer
      → lists answer
        ≡ (before ++ patched now (transient_of action) p ∷ after)
          ∷ (before ++ or_else answer p ∷ after)
          ∷ []
  lists_are answer about = rw (shown_during, finished answer about) refl

  track_action :
      (answer : Option Peer)
      → IsAbout p.id answer
      → is_transient p.status ≡ false
      → track p.id (some p.status) (
          (before ++ patched now (transient_of action) p ∷ after)
          ∷ (before ++ or_else answer p ∷ after)
          ∷ [])
        ≡ outcome p.status answer
  track_action answer about calm =
      let row = or_else answer p in
      rw
        (
          settled-row p.id during before after refl has.none_before has.none_after,
          transient_shown action,
          is_live-row p.id during before after refl,
          settled-row p.id row before after (row_is answer about) has.none_before has.none_after,
          append-nil
              (changes (some p.status) (if is_transient row.status then [] else row.status ∷ [])),
        )
        (told_row answer calm)

  -- A start, stop or restart of a peer that the list shows in one row, whose detail is not cached
  -- or is that row, and whose status is settled and the last one that the notices know: while the
  -- request runs the row has the transient status; after an answer about that peer the list has the
  -- answered peer in its place, and after a failure it is as it was before. The notices tell of the
  -- peer the change to the answered status alone, if that is settled and another one, and nothing
  -- if the action fails.
  pub action-told :
      (answer : Option Peer) (last : LastStatus)
      → IsAbout p.id answer
      → lookup p.id last ≡ some p.status
      → is_transient p.status ≡ false
      → (lists answer
          ≡ (before ++ patched now (transient_of action) p ∷ after)
            ∷ (before ++ or_else answer p ∷ after)
            ∷ [])
        × (told p.id (on_updates (lists answer) last).1 ≡ outcome p.status answer)
  action-told answer last about known calm = (
    lists_are answer about,
    told-on_updates p.id (lists answer) last
        ∙ ap (λ o. track p.id o (lists answer)) known
        ∙ ap (track p.id (some p.status)) (lists_are answer about)
        ∙ track_action answer about calm,
  )
