-- ===== src/Executions/Buckets.antt =====
-- The counts on the filter chips.
use ocs_testbench.Common.{
  ℕ, suc, ◌+◌, ◌≡◌, refl, sym, ◌∙◌, ap, arith, inl, inr, Bool-cases, List, [], ◌∷◌, length,
}
use ocs_testbench.Execution.{ExecutionState, ExecutionSummary}
use ocs_testbench.Executions.{
  StatusFilter, all_runs, running, completed, failed, status_filter_matches, StatusCounts, plus_if,
  count_status_from, count_by_status_filter, apply_table_filters,
}

abbrev pub counted : StatusFilter → StatusCounts → ℕ
counted all_runs c = c.in_all
counted running c = c.in_running
counted completed c = c.in_completed
counted failed c = c.in_failed

abbrev matching : StatusFilter → List ExecutionSummary → ℕ
matching f es = length (apply_table_filters es f)

one_bucket :
    (s : ExecutionState) (a b c : ℕ)
    → plus_if (status_filter_matches running s) a
        + (plus_if (status_filter_matches completed s) b
            + plus_if (status_filter_matches failed s) c)
      ≡ suc (a + (b + c))
unfolding status_filter_matches
one_bucket s a b c = ground arith

matching-cons :
    (f : StatusFilter) (e : ExecutionSummary) (es : List ExecutionSummary) (n : ℕ)
    → plus_if (status_filter_matches f e.state) n + matching f es ≡ n + matching f (e ∷ es)
unfolding apply_table_filters
matching-cons f e es n = elim (Bool-cases (status_filter_matches f e.state)) [
  | inl t ↦ rw t (omega arith)
  | inr t ↦ rw t refl
]

counts_from :
    (out : StatusCounts) (es : List ExecutionSummary)
    → let r = count_status_from out es in
      (r.in_all ≡ out.in_all)
      × (r.in_running ≡ out.in_running + matching running es)
      × (r.in_completed ≡ out.in_completed + matching completed es)
      × (r.in_failed ≡ out.in_failed + matching failed es)
unfolding count_status_from apply_table_filters
counts_from out [] = (refl, omega arith, omega arith, omega arith)
counts_from out (e ∷ es) =
    let next : StatusCounts = record out {
      in_running = plus_if (status_filter_matches running e.state) out.in_running;
      in_completed = plus_if (status_filter_matches completed e.state) out.in_completed;
      in_failed = plus_if (status_filter_matches failed e.state) out.in_failed;
    } in
    let (a, r, c, f) = counts_from next es in
    (
      a,
      r ∙ matching-cons running e es out.in_running,
      c ∙ matching-cons completed e es out.in_completed,
      f ∙ matching-cons failed e es out.in_failed,
    )

abbrev start_counts : List ExecutionSummary → StatusCounts
start_counts es = record { in_all = length es; in_running = 0; in_completed = 0; in_failed = 0 }

all_kept : (es : List ExecutionSummary) → length es ≡ matching all_runs es
unfolding apply_table_filters
all_kept [] = refl
all_kept (e ∷ es) = ap suc (all_kept es)

-- Each chip's count is the number of rows that the table shows under it.
pub count_by_status_filter-length :
    (f : StatusFilter) (es : List ExecutionSummary)
    → counted f (count_by_status_filter es) ≡ length (apply_table_filters es f)
unfolding count_by_status_filter
count_by_status_filter-length all_runs es = (counts_from (start_counts es) es).0 ∙ all_kept es
count_by_status_filter-length running es = (counts_from (start_counts es) es).1 ∙ omega arith
count_by_status_filter-length completed es = (counts_from (start_counts es) es).2 ∙ omega arith
count_by_status_filter-length failed es = (counts_from (start_counts es) es).3 ∙ omega arith

buckets_from :
    (out : StatusCounts) (es : List ExecutionSummary)
    → let r = count_status_from out es in
      r.in_running + (r.in_completed + r.in_failed)
      ≡ out.in_running + (out.in_completed + out.in_failed) + length es
unfolding count_status_from
buckets_from out [] = omega arith
buckets_from out (e ∷ es) =
    let next : StatusCounts = record out {
      in_running = plus_if (status_filter_matches running e.state) out.in_running;
      in_completed = plus_if (status_filter_matches completed e.state) out.in_completed;
      in_failed = plus_if (status_filter_matches failed e.state) out.in_failed;
    } in
    buckets_from next es
    ∙ ap (λ n. n + length es) (one_bucket e.state out.in_running out.in_completed out.in_failed)
    ∙ omega arith

-- The three buckets partition the runs: their counts add up to the count of all.
pub count_by_status_filter-partition :
    (es : List ExecutionSummary)
    → let c = count_by_status_filter es in c.in_running + (c.in_completed + c.in_failed) ≡ c.in_all
unfolding count_by_status_filter
count_by_status_filter-partition es =
    buckets_from (start_counts es) es ∙ omega arith ∙ sym (counts_from (start_counts es) es).0
