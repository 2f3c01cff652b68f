-- ===== src/Workers/Entry.antt =====
-- What a worker leaves in its context.
use nx_mem_test.Base.{ℕ, ◌*◌, ◌^◌, ◌<◌, ◌≡◌, ap, ◌∙◌, Bool, true, false, arith}
use nx_mem_test.Base.{length, ◌==◌, if◌then◌else◌}
use nx_mem_test.Types.{pass, fail, word_bytes}
use nx_mem_test.Arena.{Arena}
use nx_mem_test.Report.{report_init}
use nx_mem_test.Report.Summary.{record_all, record_all-error_count}
use nx_mem_test.Runner.Memory.{Mem}
use nx_mem_test.Runner.Chunks.{stop_requested}
use nx_mem_test.Runner.Pass.{is_supported}
use nx_mem_test.Runner.Pass.Verdict.{found_words, run_pass_lem}
use nx_mem_test.Workers.{WorkerContext, worker_entry, or_report}

-- A worker whose guards hold and that is not stopped leaves a report of what differed in its slice,
-- and, if that is fewer than 2 ^ 64 words, the status that tells whether there was any.
pub worker_entry_lem :
    (neon : Bool) (ram : ℕ → Mem → Mem) (arena : Arena) (ctx : WorkerContext) (m : Mem)
    (progress : ℕ)
    → is_supported arena ctx.config ≡ true
    → arena.words * word_bytes < 2 ^ 64
    → ctx.config.seed < 2 ^ 64
    → ((i : ℕ) → stop_requested ctx.config i ≡ false)
    → length (found_words ram arena ctx.config m) < 2 ^ 64
    → let ctx' = (worker_entry neon ram arena ctx m progress).0 in
      (ctx'.report ≡ record_all (report_init ctx.report) (found_words ram arena ctx.config m))
      × (ctx'.status ≡ (if length (found_words ram arena ctx.config m) == 0 then pass else fail))
unfolding worker_entry report_init
worker_entry_lem neon ram arena ctx m progress ok words seed never few =
    let start = report_init ctx.report in
    let all =
      run_pass_lem neon ram m progress arena ctx.config start ctx.stats ok words seed never in
    let counted = record_all-error_count start (found_words ram arena ctx.config m) (omega arith) in
    (ap (or_report start) all.0, all.1 ∙ ground (arith, counted))
