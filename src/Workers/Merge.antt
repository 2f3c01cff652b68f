-- ===== src/Workers/Merge.antt =====
-- Merging the workers' contexts: one report of all that they found, and the worst status.
use nx_mem_test.Base.{ℕ, ◌^◌, ◌<◌, ◌≡◌, refl, sym, ap, ◌∙◌, List, [], ◌∷◌, ◌++◌, length, max, arith}
use mathlib.Core.Path.{ap₂}
use mathlib.Core.List.{append-nil, append_assoc}
use nx_mem_test.Types.{Status, pass, fail, aborted, unsupported}
use nx_mem_test.Report.{Report, report_init, report_merge}
use nx_mem_test.Report.Summary.{Mismatch, record_all}
use nx_mem_test.Report.Merge.{report_merge-record_all}
use nx_mem_test.Workers.{WorkerContext, Totals, merge_worker_context, merge_workers}
use nx_mem_test.Workers.{combine_worker_status, zero_report}

-- From the best status to the worst.
abbrev pub severity : Status → ℕ
severity pass = 0
severity unsupported = 1
severity aborted = 2
severity fail = 3

combine_worker_status-max :
    (a b : Status) → severity (combine_worker_status a b) ≡ max (severity a) (severity b)
unfolding combine_worker_status
combine_worker_status-max pass pass = refl
combine_worker_status-max pass fail = refl
combine_worker_status-max pass aborted = refl
combine_worker_status-max pass unsupported = refl
combine_worker_status-max fail pass = refl
combine_worker_status-max fail fail = refl
combine_worker_status-max fail aborted = refl
combine_worker_status-max fail unsupported = refl
combine_worker_status-max aborted pass = refl
combine_worker_status-max aborted fail = refl
combine_worker_status-max aborted aborted = refl
combine_worker_status-max aborted unsupported = refl
combine_worker_status-max unsupported pass = refl
combine_worker_status-max unsupported fail = refl
combine_worker_status-max unsupported aborted = refl
combine_worker_status-max unsupported unsupported = refl

abbrev pub worst : List WorkerContext → ℕ
worst [] = 0
worst (ctx ∷ ctxs) = max (severity ctx.status) (worst ctxs)

-- The status of merged workers is the worst of theirs and of the one before, whatever their order.
pub merge_workers-status :
    (ctxs : List WorkerContext) (totals : Totals)
    → severity (merge_workers ctxs totals).status ≡ max (severity totals.status) (worst ctxs)
unfolding merge_workers
merge_workers-status [] totals = omega arith
merge_workers-status (ctx ∷ ctxs) totals =
    let one = combine_worker_status-max totals.status ctx.status in
    omega (arith, one, merge_workers-status ctxs (merge_worker_context ctx totals))

-- Each worker's report holds what it found.
abbrev pub Found : List WorkerContext → List (List Mismatch) → Type 0
Found [] [] = Unit {0}
Found [] (found ∷ founds) = ⊥
Found (ctx ∷ ctxs) [] = ⊥
Found (ctx ∷ ctxs) (found ∷ founds) =
    (ctx.report ≡ record_all (report_init zero_report) found)
    × (length found < 2 ^ 64)
    × Found ctxs founds

abbrev pub concat : List (List Mismatch) → List Mismatch
concat [] = []
concat (found ∷ founds) = found ++ concat founds

-- If each worker's report holds what it found, fewer than 2 ^ 64 mismatches each, then the merged
-- report is that of all workers' mismatches, one worker after the other, behind those before.
pub merge_workers-report :
    (ctxs : List WorkerContext) (founds : List (List Mismatch)) (totals : Totals) (d : Report)
    (before : List Mismatch)
    → totals.report ≡ record_all (report_init d) before
    → Found ctxs founds
    → (merge_workers ctxs totals).report ≡ record_all (report_init d) (before ++ concat founds)
unfolding merge_workers
merge_workers-report [] [] totals d before e h =
    e ∙ ap (record_all (report_init d)) (sym (append-nil before))
merge_workers-report [] (found ∷ founds) totals d before e h = absurd h
merge_workers-report (ctx ∷ ctxs) [] totals d before e h = absurd h
merge_workers-report (ctx ∷ ctxs) (found ∷ founds) totals d before e h =
    merge_workers-report ctxs founds (merge_worker_context ctx totals) d (before ++ found)
      (ap₂ report_merge e h.0 ∙ report_merge-record_all d zero_report before found h.1) h.2
    ∙ ap (record_all (report_init d)) (append_assoc before found (concat founds))
