-- ===== src/Runner/Pass/Sound.antt =====
-- Passes over a sound memory: no false alarm, and the injected mismatch is found.
use nx_mem_test.Base.{ℕ, ◌+◌, ◌*◌, ◌^◌, ◌<◌, ◌≡◌, refl, ap, ◌∙◌}
use nx_mem_test.Base.{Bool, true, false, some, [], arith}
use nx_mem_test.Types.{Phase, word_bytes}
use nx_mem_test.Arena.{Arena}
use nx_mem_test.Report.{Report}
use nx_mem_test.Runner.{RunConfig, RunStats}
use nx_mem_test.Runner.Memory.{Mem, fill, fill-inside}
use nx_mem_test.Runner.Expected.{expected_from}
use nx_mem_test.Runner.Verify.Spec.{mismatches, mismatches-none}
use nx_mem_test.Runner.Chunks.{inject, write_phase}
use nx_mem_test.Runner.Pass.{run_pass, run_supported, is_supported}
use nx_mem_test.Runner.Chunks.{phase_for_mode, phase_count_for_mode}
use nx_mem_test.Runner.Pass.{start_run, fresh_stats}
use nx_mem_test.Runner.Chunks.Slice.{write_phase-Outside, write_phase-written, verify_phase-read}
use nx_mem_test.Runner.Pass.Verdict.{
  slice_start, slice_words, slice_address, slice-small, slice-fits,
}
use nx_mem_test.Runner.Pass.Frame.{run_phases-inv}

-- Memory that holds what was written.
abbrev pub sound : ℕ → Mem → Mem
sound p m = m

inject-off :
    (config : RunConfig) (slice count : ℕ) (m : Mem)
    → config.inject_mismatch ≡ false
    → inject config slice count m ≡ m
inject-off config slice count m e = rw e refl

filled-none :
    (config : RunConfig) (phase : Phase) (m : Mem) (slice start count : ℕ)
    → mismatches config phase
        (fill slice count (expected_from config.seed phase config.pass start) m)
        slice
        start
        count
      ≡ []
filled-none config phase m slice start count =
    mismatches-none config phase _ slice start count (λ k lt.
      fill-inside slice count (expected_from config.seed phase config.pass start) m (slice + k)
        (omega arith) (omega arith)
      ∙ ap (expected_from config.seed phase config.pass start) (omega arith))

-- If no mismatch is to be injected and the memory holds what was written, a pass whose guards hold
-- leaves the report as it is, wherever it is stopped: there are no false alarms.
pub run_pass-sound :
    (neon : Bool) (m : Mem) (progress : ℕ) (arena : Arena) (config : RunConfig) (report : Report)
    (stats : RunStats)
    → is_supported arena config ≡ true
    → arena.words * word_bytes < 2 ^ 64
    → config.seed < 2 ^ 64
    → config.inject_mismatch ≡ false
    → (run_pass neon sound m progress (some arena) (some config) (some report) (some stats)).report
      ≡ some report
unfolding run_pass run_supported
run_pass-sound neon m progress arena config report stats ok words seed plain =
    let small = slice-small arena config ok words in
    let fits = slice-fits arena config ok words in
    let slice = slice_address arena config in
    let start = slice_start arena config in
    let count = slice_words arena config in
    rw ok (
      ap some (
        run_phases-inv neon sound slice start count report.error_count config
          (λ s. s.report ≡ report) (λ s h. h)
          (λ p s h.
            (write_phase-Outside neon slice start count (phase_for_mode config.mode p) config small
              fits seed s).1
            ∙ h)
          (λ p s h whole.
            let phase = phase_for_mode config.mode p in
            let w = write_phase neon slice start count phase config s in
            let filled =
              (write_phase-written neon slice start count phase config small fits seed s whole).0
              ∙ inject-off config slice count _ plain in
            (verify_phase-read neon slice start count phase config small fits seed w.1).1 (
              ap (λ m'. mismatches config phase m' slice start count) filled
              ∙ filled-none config phase s.mem slice start count)
            ∙ (write_phase-Outside neon slice start count phase config small fits seed s).1
            ∙ h)
          (phase_count_for_mode config.mode) 0 (start_run config report m progress) fresh_stats
          refl))
