-- ===== src/Live/Consistent.antt =====
-- What the pages of executions keep, whatever events come.
use ocs_testbench.Common.{
  suc, ◌≤◌, ◌≡◌, refl, sym, ap, ◌∙◌, subst, inl, inr, String, Bool, true, false, ◌||◌, List, [],
  ◌∷◌, Option, none, some, map, length, All, str_eq, eq_iff, Bool-cases, arith,
}
use ocs_testbench.Execution.{ExecutionSummary, Execution}
use ocs_testbench.Live.{
  SseEvent, peer_updated, execution_created, execution_progress, dashboard_kpi,
  ListExecutionsParams, ExecutionRow, ExecutionPage, Cache, to_summary, has_row, replace_row,
  patch_page, prepend_row, filtered_out, apply_event_to_cache, apply_events,
}

-- No two rows have one id.
abbrev pub AreDistinct : List ExecutionRow → Type 0
AreDistinct [] = Unit
AreDistinct (e ∷ es) = (has_row e.id es ≡ false) × AreDistinct es

abbrev pub IsConsistent : Option ExecutionPage → Type 0
IsConsistent none = Unit
IsConsistent (some p) = AreDistinct p.items × (length p.items ≤ p.page.total)

or-false : (a b : Bool) → (a || b) ≡ false → (a ≡ false) × (b ≡ false)
or-false true b h = cc
or-false false b h = (refl, h)

pub has_row-replace_row :
    (id key : String) (row : ExecutionRow) (es : List ExecutionRow)
    → row.id ≡ id
    → has_row key (replace_row id row es) ≡ has_row key es
unfolding replace_row
has_row-replace_row id key row [] h = refl
has_row-replace_row id key row (e ∷ es) h = elim (Bool-cases (str_eq e.id id)) [
  | inl same ↦
      rw same (ap (λ k. str_eq k key || has_row key es) (h ∙ sym ((eq_iff e.id id).0 same)))
  | inr other ↦ rw other (ap (λ b. str_eq e.id key || b) (has_row-replace_row id key row es h))
]

replace_row-AreDistinct :
    (id : String) (row : ExecutionRow) (es : List ExecutionRow)
    → row.id ≡ id
    → AreDistinct es
    → AreDistinct (replace_row id row es)
unfolding replace_row
replace_row-AreDistinct id row [] h d = tt
replace_row-AreDistinct id row (e ∷ es) h (fresh, d) = elim (Bool-cases (str_eq e.id id)) [
  | inl same ↦
      rw same (subst (λ k. has_row k es ≡ false) ((eq_iff e.id id).0 same ∙ sym h) fresh, d)
  | inr other ↦
      rw other (has_row-replace_row id e.id row es h ∙ fresh, replace_row-AreDistinct id row es h d)
]

length-replace_row :
    (id : String) (row : ExecutionRow) (es : List ExecutionRow)
    → length (replace_row id row es) ≡ length es
unfolding replace_row
length-replace_row id row [] = refl
length-replace_row id row (e ∷ es) = elim (Bool-cases (str_eq e.id id)) [
  | inl same ↦ rw same refl
  | inr other ↦ rw other (ap suc (length-replace_row id row es))
]

patch_page-IsConsistent :
    (x : Execution) (p : Option ExecutionPage) → IsConsistent p → IsConsistent (patch_page x p)
unfolding patch_page
patch_page-IsConsistent x none h = tt
patch_page-IsConsistent x (some p) (d, bound) = elim (Bool-cases (has_row x.id p.items)) [
  | inl found ↦ rw found (
    replace_row-AreDistinct x.id (to_summary x) p.items refl d,
    rw (length-replace_row x.id (to_summary x) p.items) bound,
  )
  | inr missing ↦ rw missing (d, bound)
]

prepend_row-IsConsistent :
    (params : ListExecutionsParams) (s : ExecutionSummary) (p : Option ExecutionPage)
    → IsConsistent p
    → IsConsistent (prepend_row params s p)
unfolding prepend_row
prepend_row-IsConsistent params s none h = tt
prepend_row-IsConsistent params s (some p) (d, bound) =
    elim (Bool-cases (has_row s.id p.items || filtered_out params s)) [
      | inl skip ↦ rw skip (d, bound)
      | inr add ↦ rw add (((or-false _ _ add).0, d), omega arith)
    ]

All-map :
    (f : ListExecutionsParams × Option ExecutionPage → Option ExecutionPage)
    (ls : List (ListExecutionsParams × Option ExecutionPage))
    → ((l : ListExecutionsParams × Option ExecutionPage) → IsConsistent l.1 → IsConsistent (f l))
    → All (λ (l : ListExecutionsParams × Option ExecutionPage). IsConsistent l.1) ls
    → All
        (λ (l : ListExecutionsParams × Option ExecutionPage). IsConsistent l.1)
        (map (λ (l : ListExecutionsParams × Option ExecutionPage). (l.0, f l)) ls)
All-map f [] step h = tt
All-map f (l ∷ ls) step (h, hs) = (step l h, All-map f ls step hs)

module _ {ℓ} {D K : Type ℓ} where
  abbrev pub AreConsistent : Cache D K → Type 0
  AreConsistent c =
      All (λ (l : ListExecutionsParams × Option ExecutionPage). IsConsistent l.1) c.lists

  event-AreConsistent :
      (e : SseEvent D K) (c : Cache D K)
      → AreConsistent c
      → AreConsistent (apply_event_to_cache e c)
  unfolding apply_event_to_cache
  event-AreConsistent (peer_updated peer) c h = h
  event-AreConsistent (execution_progress x) c h =
      All-map (λ l. patch_page x l.1) c.lists (λ l. patch_page-IsConsistent x l.1) h
  event-AreConsistent (execution_created s) c h =
      All-map (λ l. prepend_row l.0 s l.1) c.lists (λ l. prepend_row-IsConsistent l.0 s l.1) h
  event-AreConsistent (dashboard_kpi k) c h = h

  -- Whatever events come, no page of executions gets two rows of one id or more rows than the
  -- total it states, if that held at first.
  pub apply_events-AreConsistent :
      (es : List (SseEvent D K)) (c : Cache D K)
      → AreConsistent c
      → AreConsistent (apply_events es c)
  unfolding apply_events
  apply_events-AreConsistent [] c h = h
  apply_events-AreConsistent (e ∷ es) c h =
      apply_events-AreConsistent es (apply_event_to_cache e c) (event-AreConsistent e c h)
