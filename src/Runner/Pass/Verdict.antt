-- ===== src/Runner/Pass/Verdict.antt =====
-- The whole of `nxmt_runner_run_pass` where nobody asks it to stop.
use nx_mem_test.Base.{ℕ, ◌+◌, ◌*◌, ◌/◌, ◌^◌, ◌≤◌, ◌<◌, ◌≡◌, ap, ◌∙◌, Bool}
use nx_mem_test.Base.{true, false, Option, none, some, List, arith, u64, ◌!=◌}
use nx_mem_test.Base.{if◌then◌else◌}
use nx_mem_test.Types.{pass, fail, word_bytes}
use nx_mem_test.Arena.{Arena}
use nx_mem_test.Arena.Split.{split_block_start, split_block_size}
use nx_mem_test.Arena.Split.Partition.{split_block_partition}
use nx_mem_test.Report.{Report}
use nx_mem_test.Report.Summary.{Mismatch, record_all}
use nx_mem_test.Runner.{RunConfig, RunStats}
use nx_mem_test.Runner.Memory.{Mem}
use nx_mem_test.Runner.Chunks.{stop_requested, progress_add}
use nx_mem_test.Runner.Pass.{run_pass, run_supported, is_supported, start_run, fresh_stats}
use nx_mem_test.Runner.Chunks.{phase_count_for_mode}
use nx_mem_test.Runner.Pass.Spec.{pass_mismatches, phases_of, phases_from_zero}
use nx_mem_test.Runner.Pass.Found.{run_phases-Complete}

-- The worker's slice: its first word in the arena, its length, and its word address.
abbrev pub slice_start : Arena → RunConfig → ℕ
slice_start arena config = split_block_start arena.words config.worker_count config.worker_id

abbrev pub slice_words : Arena → RunConfig → ℕ
slice_words arena config = split_block_size arena.words config.worker_count config.worker_id

abbrev pub slice_address : Arena → RunConfig → ℕ
slice_address arena config = (arena.base + slice_start arena config * word_bytes) / word_bytes

-- The words of the worker's slice that differ when they are read back.
abbrev pub found_words : (ℕ → Mem → Mem) → Arena → RunConfig → Mem → List Mismatch
found_words ram arena config m =
    pass_mismatches ram (slice_address arena config) (slice_start arena config)
      (slice_words arena config) config 0 (phases_of config.mode) m

-- The two byte counts.
abbrev pub bytes_of : Option RunStats → Option (ℕ × ℕ)
bytes_of none = none
bytes_of (some stats) = some (stats.bytes_written, stats.bytes_verified)

module _ (arena : Arena) (config : RunConfig) (supported : is_supported arena config ≡ true)
    (words : arena.words * word_bytes < 2 ^ 64) where
  pub worker-lt : config.worker_id < config.worker_count
  unfolding is_supported
  worker-lt = ground arith

  pub slice-small : slice_words arena config * word_bytes < 2 ^ 64
  slice-small =
      let parts =
        split_block_partition arena.words config.worker_count config.worker_id (omega arith)
          worker-lt in
      omega (arith, parts.5)

  pub slice-fits : (slice_start arena config + slice_words arena config) * word_bytes ≤ 2 ^ 64
  slice-fits =
      let parts =
        split_block_partition arena.words config.worker_count config.worker_id (omega arith)
          worker-lt in
      omega (arith, parts.5)

-- If the guards hold, the arena's bytes and the seed are 64-bit numbers and the stop flag is never
-- found set, then a pass records into the report exactly the words of the worker's slice that
-- differ from what their phase expects when they are read back, phase by phase and in the order of
-- their addresses, whatever the memory under test did to them; it fails if that changed the number
-- of errors and passes otherwise; it counts the bytes of the slice as written and as verified once
-- for each phase of the mode; and it adds all of them to the progress counter, if there is one.
pub run_pass_lem :
    (neon : Bool) (ram : ℕ → Mem → Mem) (m : Mem) (progress : ℕ) (arena : Arena)
    (config : RunConfig) (report : Report) (stats : RunStats)
    → is_supported arena config ≡ true
    → arena.words * word_bytes < 2 ^ 64
    → config.seed < 2 ^ 64
    → ((i : ℕ) → stop_requested config i ≡ false)
    → let result =
        run_pass neon ram m progress (some arena) (some config) (some report) (some stats) in
      let report' = record_all report (found_words ram arena config m) in
      let bytes = phase_count_for_mode config.mode * (slice_words arena config * word_bytes) in
      (result.report ≡ some report')
      × (result.status ≡ (if report'.error_count != report.error_count then fail else pass))
      × (bytes_of result.stats ≡ some (u64 bytes, u64 bytes))
      × (result.progress ≡ progress_add config (2 * bytes) progress)
unfolding run_pass run_supported
run_pass_lem neon ram m progress arena config report stats ok words seed never =
    let done = run_supported neon ram m progress arena config report in
    let all =
      run_phases-Complete neon ram (slice_address arena config) (slice_start arena config)
        (slice_words arena config) report.error_count config (slice-small arena config ok words)
        (slice-fits arena config ok words) seed never (phase_count_for_mode config.mode) 0
        (start_run config report m progress) fresh_stats (omega arith) (omega arith) in
    let list = phases_from_zero config.mode in
    let found =
      all.0
      ∙ ap
          (λ phases. record_all report (
            pass_mismatches ram (slice_address arena config) (slice_start arena config)
              (slice_words arena config) config 0 phases m))
          list in
    rw ok (
      ap some found,
      all.2 ∙ ap (λ (r : Report). if r.error_count != report.error_count then fail else pass) found,
      ap some (λ i. (bytes all.3 i, bytes all.4 i)),
      all.5 ∙ ap (λ d. progress_add config d progress) (omega arith),
    )
  where
    bytes :
        {b : ℕ}
        → b ≡ u64 (0 + phase_count_for_mode config.mode * (slice_words arena config * word_bytes))
        → b ≡ u64 (phase_count_for_mode config.mode * (slice_words arena config * word_bytes))
    bytes e = omega (arith, e)
