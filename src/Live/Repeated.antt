-- ===== src/Live/Repeated.antt =====
-- An event that comes twice.
use ocs_testbench.Common.{
  ◌≡◌, refl, ap, inl, inr, String, ◌||◌, List, [], ◌∷◌, Option, none, some, map, str_eq, eq_refl,
  Bool-cases,
}
use ocs_testbench.Common.Objects.{insert}
use ocs_testbench.Execution.{ExecutionSummary, Execution}
use ocs_testbench.Live.{
  Peer, SseEvent, peer_updated, execution_created, execution_progress, dashboard_kpi,
  ListExecutionsParams, ExecutionRow, ExecutionPage, Cache, to_summary, has_row, replace_row,
  patch_page, prepend_row, filtered_out, put_peer, patch_peers, apply_event_to_cache,
}
use ocs_testbench.Live.Consistent.{has_row-replace_row}

insert-insert {ℓ} :
    {V : Type ℓ} (k : String) (v : V) (o : List (String × V))
    → insert k v (insert k v o) ≡ insert k v o
unfolding insert
insert-insert k v [] = rw (eq_refl k) refl
insert-insert k v ((j, w) ∷ o) = elim (Bool-cases (str_eq j k)) [
  | inl same ↦ rw (same, same) refl
  | inr other ↦ rw (other, other) (ap (λ l. (j, w) ∷ l) (insert-insert k v o))
]

replace_row-replace_row :
    (id : String) (row : ExecutionRow) (es : List ExecutionRow)
    → row.id ≡ id
    → replace_row id row (replace_row id row es) ≡ replace_row id row es
unfolding replace_row
replace_row-replace_row id row [] h = refl
replace_row-replace_row id row (e ∷ es) h = elim (Bool-cases (str_eq e.id id)) [
  | inl same ↦ rw (same, h, eq_refl id) refl
  | inr other ↦ rw (other, other) (ap (λ l. e ∷ l) (replace_row-replace_row id row es h))
]

put_peer-put_peer {ℓ} :
    {D : Type ℓ} (p : Peer D) (ps : List (Peer D)) → put_peer p (put_peer p ps) ≡ put_peer p ps
unfolding put_peer
put_peer-put_peer p [] = rw (eq_refl p.id) refl
put_peer-put_peer p (q ∷ ps) = elim (Bool-cases (str_eq q.id p.id)) [
  | inl same ↦ rw (same, eq_refl p.id) refl
  | inr other ↦ rw (other, other) (ap (λ l. q ∷ l) (put_peer-put_peer p ps))
]

patch_peers-patch_peers {ℓ} :
    {D : Type ℓ} (p : Peer D) (ps : Option (List (Peer D)))
    → patch_peers p (patch_peers p ps) ≡ patch_peers p ps
unfolding patch_peers
patch_peers-patch_peers p none = refl
patch_peers-patch_peers p (some ps) = ap some (put_peer-put_peer p ps)

patch_page-patch_page :
    (x : Execution) (p : Option ExecutionPage) → patch_page x (patch_page x p) ≡ patch_page x p
unfolding patch_page
patch_page-patch_page x none = refl
patch_page-patch_page x (some p) = elim (Bool-cases (has_row x.id p.items)) [
  | inl found ↦
      rw (found, has_row-replace_row x.id x.id (to_summary x) p.items refl, found)
        (ap (λ l. some (record p { items = l }))
          (replace_row-replace_row x.id (to_summary x) p.items refl))
  | inr missing ↦ rw (missing, missing) refl
]

prepend_row-prepend_row :
    (params : ListExecutionsParams) (s : ExecutionSummary) (p : Option ExecutionPage)
    → prepend_row params s (prepend_row params s p) ≡ prepend_row params s p
unfolding prepend_row
prepend_row-prepend_row params s none = refl
prepend_row-prepend_row params s (some p) =
    elim (Bool-cases (has_row s.id p.items || filtered_out params s)) [
      | inl skip ↦ rw (skip, skip) refl
      | inr add ↦ rw (add, eq_refl s.id) refl
    ]

-- `f` on the second parts.
again {ℓ κ} : {A : Type ℓ} {B : Type κ} → (A × B → B) → A × B → A × B
again f l = (l.0, f l)

map-map {ℓ κ} :
    {A : Type ℓ} {B : Type κ} (f : A × B → B) (ls : List (A × B))
    → ((a : A) (b : B) → f (a, f (a, b)) ≡ f (a, b))
    → map (again f) (map (again f) ls) ≡ map (again f) ls
unfolding again
map-map f [] h = refl
map-map f ((a, b) ∷ ls) h = rw (h a b) (ap (λ l. (a, f (a, b)) ∷ l) (map-map f ls h))

module _ {ℓ} {D K : Type ℓ} where
  -- An event that the server sends twice does to the cache what it does once.
  pub apply-apply :
      (e : SseEvent D K) (c : Cache D K)
      → apply_event_to_cache e (apply_event_to_cache e c) ≡ apply_event_to_cache e c
  unfolding apply_event_to_cache again
  apply-apply (peer_updated p) c =
      rw (insert-insert p.id p c.peer_details, patch_peers-patch_peers p c.peers) refl
  apply-apply (execution_progress x) c =
      rw
        (
          insert-insert x.id x c.details,
          map-map (λ l. patch_page x l.1) c.lists (λ a b. patch_page-patch_page x b),
        )
        refl
  apply-apply (execution_created s) c =
      rw (map-map (λ l. prepend_row l.0 s l.1) c.lists (λ a b. prepend_row-prepend_row a s b)) refl
  apply-apply (dashboard_kpi k) c = refl
