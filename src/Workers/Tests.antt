-- ===== src/Workers/Tests.antt =====
-- Runs of the functions around the workers.
use nx_mem_test.Base.{
  ℕ, zero, suc, List, ap, ◌^◌, ◌<◌, ◌≡◌, ◌⊎◌, ◌↔◌, refl, true, false, some, none,
}
use nx_mem_test.Base.{[], ◌∷◌, ◌++◌, length, arith, max, ltb, ◌==◌, if◌then◌else◌}
use nx_mem_test.Types.{quick, address, pass, fail, aborted}
use nx_mem_test.Arena.{Arena}
use nx_mem_test.Arena.Split.{split_block_start, split_block_size}
use nx_mem_test.Patterns.{expected_value, bswap64}
use nx_mem_test.Report.{report_init}
use nx_mem_test.Report.Summary.{Mismatch, record_all}
use nx_mem_test.Runner.Memory.{Mem, fill}
use nx_mem_test.Runner.Verify.Spec.{mismatches}
use nx_mem_test.Runner.Chunks.{stop_requested}
use nx_mem_test.Runner.Pass.{is_supported, fresh_stats}
use nx_mem_test.Runner.Pass.Verdict.{found_words}
use nx_mem_test.Workers.{WorkerContext, Totals, worker_entry, merge_workers}
use nx_mem_test.Workers.{start_workers, final_status, zero_report, collect_worker_cpu_map, goes_on}
use nx_mem_test.Workers.Merge.{severity, worst, concat, merge_workers-status, merge_workers-report}
use nx_mem_test.Workers.Start.{StartsWith, start_workers_lem}
use nx_mem_test.Workers.Final.{final_status_lem}
use nx_mem_test.Workers.Cover.{slices, slices_lem}
use nx_mem_test.Workers.Entry.{worker_entry_lem}
use nx_mem_test.Workers.Together.{owned_by, worker_step, started, worker_entry-together}
use nx_mem_test.Workers.{init_worker_context, prepare_worker}
use nx_mem_test.Runner.Steps.{ended}
use nx_mem_test.Base.Schedule.{AllBelow, run_schedule}

abbrev mismatch : Mismatch
mismatch = record {
  mode = quick;
  phase = address;
  seed = 5;
  pass = 0;
  worker_id = 1;
  offset = 16;
  expected = 0;
  actual = 8;
}

abbrev clean : WorkerContext
clean = record {
  config = record {
    mode = quick;
    seed = 5;
    pass = 0;
    worker_id = 0;
    worker_count = 1;
    inject_mismatch = false;
    stop_requested = none;
    progress_bytes = false;
  };
  report = report_init zero_report;
  stats = fresh_stats;
  status = pass;
}

abbrev failed : WorkerContext
failed = record clean {
  report = record_all (report_init zero_report) (mismatch ∷ []);
  status = fail;
}

abbrev no_totals : Totals
no_totals = record {
  report = report_init zero_report;
  stats = fresh_stats;
  status = pass;
  completed_workers = 0;
}

abbrev arena : Arena
arena = record { base = 4096; size = 16; words = 2 }

abbrev blank : Mem
blank a = 0

cores_of_three : collect_worker_cpu_map 7 4 ≡ 2 ∷ 0 ∷ 1 ∷ []
unfolding collect_worker_cpu_map
cores_of_three = refl

next_pass : goes_on pass false 60000 ≡ true
unfolding goes_on
next_pass = refl

-- Two of three workers start.
partial_start : start_workers (λ i. true) (λ i. ltb i 2) 3 ≡ some 2
unfolding start_workers
partial_start = refl

merge_workers-status_example :
    severity (merge_workers (clean ∷ failed ∷ []) no_totals).status
    ≡ max (severity pass) (worst (clean ∷ failed ∷ []))
merge_workers-status_example = merge_workers-status (clean ∷ failed ∷ []) no_totals

merge_workers-report_example :
    (merge_workers (clean ∷ failed ∷ []) no_totals).report
    ≡ record_all (report_init zero_report) ([] ++ concat ([] ∷ (mismatch ∷ []) ∷ []))
merge_workers-report_example =
    merge_workers-report (clean ∷ failed ∷ []) ([] ∷ (mismatch ∷ []) ∷ []) no_totals zero_report []
      refl (refl, omega arith, (refl, omega arith, tt))

start_workers_lem_example :
    (start_workers (λ i. true) (λ i. ltb i 2) 3 ≡ some 2)
    ↔ StartsWith (λ i. true) (λ i. ltb i 2) 3 2
start_workers_lem_example = start_workers_lem (λ i. true) (λ i. ltb i 2) 3 2

final_status_lem_example :
    let final = final_status aborted 0 false 0 in
    ((final ≡ fail) ↔ ((aborted ≡ fail) ⊎ (0 < 0)))
    × ((final ≡ pass) ↔ (
        (◌≡◌ {A = ℕ} 0 0)
        × ((aborted ≡ pass) ⊎ ((aborted ≡ aborted) × (false ≡ false) × (◌≡◌ {A = ℕ} 0 0)))))
final_status_lem_example = final_status_lem aborted 0 false 0

slices_lem_example :
    slices clean.config address blank 512 10 3 0 3 ≡ mismatches clean.config address blank 512 0 10
slices_lem_example = slices_lem clean.config address blank 512 10 3 (omega arith) (omega arith)

few_found : length (found_words (λ p m. m) arena clean.config blank) < 2 ^ 64
unfolding split_block_start split_block_size fill expected_value bswap64
few_found = omega arith

worker_entry_lem_example :
    let ctx' = (worker_entry true (λ p m. m) arena clean blank 0).0 in
    let found = found_words (λ p m. m) arena clean.config blank in
    (ctx'.report ≡ record_all (report_init clean.report) found)
    × (ctx'.status ≡ (if length found == 0 then pass else fail))
unfolding is_supported stop_requested
worker_entry_lem_example =
    worker_entry_lem true (λ p m. m) arena clean blank 0 refl (omega arith) (omega arith)
      (λ i. refl) few_found

-- Word 513 of the memory always reads 0.
abbrev stuck : ℕ → ℕ → Mem → Mem
stuck i p m a = if owned_by arena 2 i a then (if a == 513 then 0 else m a) else m a

-- Two workers by turns.
abbrev by_turns : ℕ → List ℕ
by_turns zero = []
by_turns (suc n) = 0 ∷ 1 ∷ by_turns n

by_turns-AllBelow : (n : ℕ) → AllBelow 2 (by_turns n)
by_turns-AllBelow zero = tt
by_turns-AllBelow (suc n) = (omega arith, (omega arith, by_turns-AllBelow n))

worker_entry-together_example :
    let alone = worker_entry true (stuck 1) arena (prepare_worker quick 5 1 2 none 0) blank 0 in
    let step = worker_step true stuck arena quick 5 2 0 (λ i. none) in
    let last =
      run_schedule step (by_turns 16) (started true stuck arena quick 5 2 0 (λ i. none) blank) in
    let own = last.locals 1 in
    (own.place ≡ ended alone.0.status)
    × (own.report ≡ alone.0.report)
    × (own.stats ≡ alone.0.stats)
    × (own.progress ≡ alone.2)
    × ((a : ℕ) → owned_by arena 2 1 a ≡ true → last.mem a ≡ alone.1 a)
unfolding prepare_worker init_worker_context is_supported split_block_size
worker_entry-together_example =
    worker_entry-together true stuck arena quick 5 2 0 (λ i. none) blank (by_turns 16) 1 refl
      (omega arith) (omega arith) (λ j p m a below other. rw other refl)
      (λ j p m m' below same a own. rw own (ap (λ w. if a == 513 then 0 else w) (same a own)))
      (by_turns-AllBelow 16) (omega arith)
