-- ===== src/Executions/Latest.antt =====
-- The latest run of a scenario.
use mathlib.Core.List.{Memᴰ}
use ocs_testbench.Common.{
  ℕ, ◌≤◌, ◌≡◌, refl, sym, ◌∙◌, ap, ◌⊎◌, inl, inr, arith, String, Bool, true, false, ◌&&◌, List, [],
  ◌∷◌, All, Bool-cases, Option, none, some, str_eq, eq_iff, eq_refl, if◌then◌else◌, ltb, subst,
}
use ocs_testbench.Common.Objects.{lookup, insert, lookup-insert}
use ocs_testbench.Execution.{ExecutionSummary}
use ocs_testbench.Executions.{
  is_later, last_run_from, last_run_by_scenario, start_of, select_latest_from,
  select_latest_run_for_scenario,
}

abbrev better : Option ExecutionSummary → ExecutionSummary → String → Option ExecutionSummary
better best e id =
    if str_eq e.scenario_id id && is_later e.started_at (start_of best) then some e else best

-- The run is of another scenario, or did not start after `r`.
abbrev pub Outdone : String → ExecutionSummary → ExecutionSummary → Type 0
Outdone id r e = (str_eq e.scenario_id id ≡ false) ⊎ (e.started_at ≤ r.started_at)

abbrev From : Option ExecutionSummary → List ExecutionSummary → String → ExecutionSummary → Type 0
From best es id r = (best ≡ some r) ⊎ (Memᴰ r es × (r.scenario_id ≡ id))

-- The best run so far is not better than the result.
abbrev Kept : Option ExecutionSummary → ExecutionSummary → Type 0
Kept none r = Unit
Kept (some b) r = b.started_at ≤ r.started_at

better-Kept :
    (best : Option ExecutionSummary) (e : ExecutionSummary) (id : String) (r : ExecutionSummary)
    → Kept (better best e id) r
    → Kept best r × Outdone id r e
better-Kept none e id r h = elim (Bool-cases (str_eq e.scenario_id id)) [
  | inl same ↦ (tt, inr (subst (λ b. Kept (if b && true then some e else none) r) same h))
  | inr other ↦ (tt, inl other)
]
better-Kept (some b) e id r h = elim (Bool-cases (str_eq e.scenario_id id)) [
  | inr other ↦ (
    subst (λ c. Kept (if c && ltb b.started_at e.started_at then some e else some b) r) other h,
    inl other,
  )
  | inl same ↦
      let h' : Kept (if ltb b.started_at e.started_at then some e else some b) r =
        subst (λ c. Kept (if c && ltb b.started_at e.started_at then some e else some b) r) same
          h in
      elim (Bool-cases (ltb b.started_at e.started_at)) [
        | inl late ↦
            let after : e.started_at ≤ r.started_at =
              subst (λ c. Kept (if c then some e else some b) r) late h' in
            (ground (arith, late, after), inr after)
        | inr early ↦
            let before : b.started_at ≤ r.started_at =
              subst (λ c. Kept (if c then some e else some b) r) early h' in
            (before, inr (ground (arith, early, before)))
      ]
]

From-better :
    (best : Option ExecutionSummary) (e : ExecutionSummary) (es : List ExecutionSummary)
    (id : String) (r : ExecutionSummary)
    → From (better best e id) es id r
    → From best (e ∷ es) id r
From-better best e es id r (inr (m, same)) = inr (Memᴰ.tail m, same)
From-better best e es id r (inl h) =
    elim (Bool-cases (str_eq e.scenario_id id && is_later e.started_at (start_of best))) [
      | inr loses ↦ inl (subst (λ c. (if c then some e else best) ≡ some r) loses h)
      | inl taken ↦
          let is_r : some e ≡ some r = subst (λ c. (if c then some e else best) ≡ some r) taken h in
          let same : e ≡ r = cc in
          inr (
            Memᴰ.head (sym same),
            subst (λ x. x.scenario_id ≡ id) same (ground (arith, taken, eq_iff e.scenario_id id)),
          )
    ]

kept_self : (b r : ExecutionSummary) → some b ≡ some r → b.started_at ≤ r.started_at
kept_self b r h =
    let same : b ≡ r = cc in subst (λ x. b.started_at ≤ x.started_at) same (omega arith)

select_latest_from-some :
    (best : Option ExecutionSummary) (es : List ExecutionSummary) (id : String)
    (r : ExecutionSummary)
    → select_latest_from best es id ≡ some r
    → From best es id r × Kept best r × All (Outdone id r) es
unfolding select_latest_from
select_latest_from-some none [] id r h = cc
select_latest_from-some (some b) [] id r h = (inl h, kept_self b r h, tt)
select_latest_from-some best (e ∷ es) id r h =
    let (from, kept, rest) = select_latest_from-some (better best e id) es id r h in
    let (before, here) = better-Kept best e id r kept in
    (From-better best e es id r from, before, (here, rest))

select_latest_from-none :
    (best : Option ExecutionSummary) (es : List ExecutionSummary) (id : String)
    → select_latest_from best es id ≡ none
    → (best ≡ none) × All (λ e. str_eq e.scenario_id id ≡ false) es
unfolding select_latest_from
select_latest_from-none best [] id h = (h, tt)
select_latest_from-none none (e ∷ es) id h =
    let (nothing, rest) = select_latest_from-none (better none e id) es id h in
    (refl, (ground (arith, nothing), rest))
select_latest_from-none (some b) (e ∷ es) id h =
    let (nothing, rest) = select_latest_from-none (better (some b) e id) es id h in
    absurd (ground (arith, nothing))

-- The run that "Re-run latest" takes is one of the scenario's runs, and no run of the scenario
-- started after it.
pub select_latest_run_for_scenario_lem :
    (es : List ExecutionSummary) (id : String) (r : ExecutionSummary)
    → select_latest_run_for_scenario es id ≡ some r
    → Memᴰ r es × (r.scenario_id ≡ id) × All (Outdone id r) es
unfolding select_latest_run_for_scenario
select_latest_run_for_scenario_lem es id r h =
    let (from, kept, outdone) = select_latest_from-some none es id r h in
    elim from [ inl found ↦ cc | inr (m, same) ↦ (m, same, outdone) ]

-- Where "Re-run latest" finds no run, no run of the list is of the scenario.
pub select_latest_run_for_scenario-none :
    (es : List ExecutionSummary) (id : String)
    → select_latest_run_for_scenario es id ≡ none
    → All (λ e. str_eq e.scenario_id id ≡ false) es
unfolding select_latest_run_for_scenario
select_latest_run_for_scenario-none es id h = (select_latest_from-none none es id h).1

last_kept :
    (b : Bool) (sid id : String) (t : ℕ) (last : List (String × ℕ))
    → str_eq sid id ≡ false
    → lookup id (if b then insert sid t last else last) ≡ lookup id last
last_kept true sid id t last other = lookup-insert sid id t last ∙ (rw other refl)
last_kept false sid id t last other = refl

last_taken :
    (best : Option ExecutionSummary) (e : ExecutionSummary) (last : List (String × ℕ)) (b : Bool)
    → lookup e.scenario_id last ≡ start_of best
    → lookup e.scenario_id (if b then insert e.scenario_id e.started_at last else last)
      ≡ start_of (if b then some e else best)
last_taken best e last true h =
    lookup-insert e.scenario_id e.scenario_id e.started_at last ∙ (rw (eq_refl e.scenario_id) refl)
last_taken best e last false h = h

last_step :
    (best : Option ExecutionSummary) (e : ExecutionSummary) (last : List (String × ℕ)) (id : String)
    → lookup id last ≡ start_of best
    → lookup id (
        if is_later e.started_at (lookup e.scenario_id last)
        then insert e.scenario_id e.started_at last
        else last)
      ≡ start_of (better best e id)
last_step best e last id h = elim (Bool-cases (str_eq e.scenario_id id)) [
  | inr other ↦
      last_kept (is_later e.started_at (lookup e.scenario_id last)) e.scenario_id id e.started_at
        last other
      ∙ h
      ∙ (rw other refl)
  | inl same ↦
      let is_id : e.scenario_id ≡ id = (eq_iff e.scenario_id id).0 same in
      let here : lookup e.scenario_id last ≡ start_of best = ap (λ i. lookup i last) is_id ∙ h in
      let updated : Option ℕ → List (String × ℕ) =
        λ o. if is_later e.started_at o then insert e.scenario_id e.started_at last else last in
      ap (λ i. lookup i (updated (lookup e.scenario_id last))) (sym is_id)
      ∙ ap (λ o. lookup e.scenario_id (updated o)) here
      ∙ last_taken best e last (is_later e.started_at (start_of best)) here
      ∙ ap (λ c. start_of (if c && is_later e.started_at (start_of best) then some e else best))
          (sym same)
]

last-start_from :
    (last : List (String × ℕ)) (best : Option ExecutionSummary) (es : List ExecutionSummary)
    (id : String)
    → lookup id last ≡ start_of best
    → lookup id (last_run_from last es) ≡ start_of (select_latest_from best es id)
unfolding last_run_from select_latest_from
last-start_from last best [] id h = h
last-start_from last best (e ∷ es) id h =
    last-start_from
      (if is_later e.started_at (lookup e.scenario_id last)
        then insert e.scenario_id e.started_at last
        else last)
      (better best e id) es id (last_step best e last id h)

-- The "last run" line of a scenario shows the start of the run that "Re-run latest" takes.
pub last_run-select_latest :
    (es : List ExecutionSummary) (id : String)
    → lookup id (last_run_by_scenario es) ≡ start_of (select_latest_run_for_scenario es id)
unfolding last_run_by_scenario select_latest_run_for_scenario
last_run-select_latest es id = last-start_from [] none es id (unfold lookup in refl)
