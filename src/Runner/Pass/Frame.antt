-- ===== src/Runner/Pass/Frame.antt =====
-- What holds of a pass wherever the stop flag breaks it off.
use nx_mem_test.Base.{
  ℕ, zero, suc, ◌+◌, ◌*◌, ◌^◌, ◌≤◌, ◌<◌, ◌≡◌, ◌≢◌, ◌⊎◌, inl, inr, refl, ap, ◌∙◌, Bool,
}
use nx_mem_test.Base.{true, Bool-cases, ◌!=◌, if◌then◌else◌, Option, none, some, arith}
use nx_mem_test.Types.{Status, pass, fail, aborted, word_bytes}
use nx_mem_test.Arena.{Arena}
use nx_mem_test.Report.{Report}
use nx_mem_test.Runner.{RunConfig, RunStats}
use nx_mem_test.Runner.Memory.{Mem}
use nx_mem_test.Runner.Chunks.{Run, stop_requested, phase_for_mode, write_phase}
use nx_mem_test.Runner.Pass.{Outcome, run_phases}
use nx_mem_test.Runner.Chunks.{verify_phase, phase_count_for_mode}
use nx_mem_test.Runner.Pass.{run_pass, run_supported, is_supported}
use nx_mem_test.Runner.Chunks.{abort_status}
use nx_mem_test.Runner.Pass.{start_run, fresh_stats}
use nx_mem_test.Runner.Chunks.Slice.{write_phase-Outside, verify_phase-read}
use nx_mem_test.Runner.Pass.Verdict.{
  slice_start, slice_words, slice_address, slice-small, slice-fits,
}

module _ (neon : Bool) (ram : ℕ → Mem → Mem) (slice start count initial_errors : ℕ)
    (config : RunConfig) where
  abbrev write_at : ℕ → Run → Bool × Run
  write_at p s = write_phase neon slice start count (phase_for_mode config.mode p) config s

  abbrev verify_at : ℕ → Run → Bool × Run
  verify_at p s =
      verify_phase neon slice start count (phase_for_mode config.mode p) config
        (record s { mem = ram p s.mem })

  -- A property of the run that reading the flag, writing a phase and reading it back preserve.
  pub run_phases-inv :
      (P : Run → Type 0)
      → ((s : Run) → P s → P (record s { polls = suc s.polls }))
      → ((p : ℕ) (s : Run) → P s → P (write_at p s).1)
      → ((p : ℕ) (s : Run) → P s → (write_at p s).0 ≡ true → P (verify_at p (write_at p s).1).1)
      → (left p : ℕ) (s : Run) (stats : RunStats) → P s
      → P (run_phases neon ram slice start count initial_errors config left p s stats).run
  unfolding run_phases
  run_phases-inv P polled wrote read zero p s stats h = h
  run_phases-inv P polled wrote read (suc left) p s stats h =
      let s' = record s { polls = suc s.polls } in
      let h' = polled s h in
      elim (Bool-cases (stop_requested config s.polls)) [
        | inl stop ↦ rw stop h'
        | inr going ↦ elim (Bool-cases (write_at p s').0) [
          | inr broken ↦ rw (going, broken) (wrote p s' h')
          | inl whole ↦
              let after = read p s' h' whole in
              elim (Bool-cases (verify_at p (write_at p s').1).0) [
                | inr broken ↦ rw (going, whole, broken) after
                | inl complete ↦
                    rw (going, whole, complete)
                      (run_phases-inv P polled wrote read left (p + 1)
                        (verify_at p (write_at p s').1).1 _ after)
              ]
        ]
      ]

  -- The status says whether errors were added.
  abbrev Judged : Outcome → Type 0
  Judged done =
      ((done.run.report.error_count ≢ initial_errors) × (done.status ≡ fail))
      ⊎ ((done.run.report.error_count ≡ initial_errors)
          × ((done.status ≡ pass) ⊎ (done.status ≡ aborted)))

  judged_by :
      (errors : ℕ) (other : Status)
      → (other ≡ pass) ⊎ (other ≡ aborted)
      → let status = if errors != initial_errors then fail else other in
        ((errors ≢ initial_errors) × (status ≡ fail))
        ⊎ ((errors ≡ initial_errors) × ((status ≡ pass) ⊎ (status ≡ aborted)))
  judged_by errors other h = elim (Bool-cases (errors != initial_errors)) [
    | inl differ ↦ rw differ (inl (λ same. absurd (ground arith), refl))
    | inr same ↦ rw same (inr (ground arith, h))
  ]

  pub run_phases-Judged :
      (left p : ℕ) (s : Run) (stats : RunStats)
      → Judged (run_phases neon ram slice start count initial_errors config left p s stats)
  unfolding run_phases abort_status
  run_phases-Judged zero p s stats = judged_by s.report.error_count pass (inl refl)
  run_phases-Judged (suc left) p s stats =
      let s' = record s { polls = suc s.polls } in
      elim (Bool-cases (stop_requested config s.polls)) [
        | inl stop ↦ rw stop (judged_by s.report.error_count aborted (inr refl))
        | inr going ↦ elim (Bool-cases (write_at p s').0) [
          | inr broken ↦
              rw (going, broken) (judged_by (write_at p s').1.report.error_count aborted (inr refl))
          | inl whole ↦ elim (Bool-cases (verify_at p (write_at p s').1).0) [
            | inr broken ↦
                rw (going, whole, broken)
                  (judged_by (verify_at p (write_at p s').1).1.report.error_count aborted
                    (inr refl))
            | inl complete ↦
                rw (going, whole, complete)
                  (run_phases-Judged left (p + 1) (verify_at p (write_at p s').1).1 _)
          ]
        ]
      ]

-- Stopped or not, a pass whose guards hold changes no word outside the worker's slice, if the
-- memory under test changes none there by itself.
pub run_pass-outside :
    (neon : Bool) (ram : ℕ → Mem → Mem) (m : Mem) (progress : ℕ) (arena : Arena)
    (config : RunConfig) (report : Report) (stats : RunStats) (a : ℕ)
    → is_supported arena config ≡ true
    → arena.words * word_bytes < 2 ^ 64
    → config.seed < 2 ^ 64
    → (a < slice_address arena config) ⊎ (slice_address arena config + slice_words arena config ≤ a)
    → ((p : ℕ) (m' : Mem) → ram p m' a ≡ m' a)
    → (run_pass neon ram m progress (some arena) (some config) (some report) (some stats)).mem a
      ≡ m a
unfolding run_pass run_supported
run_pass-outside neon ram m progress arena config report stats a ok words seed out keeps =
    let small = slice-small arena config ok words in
    let fits = slice-fits arena config ok words in
    let slice = slice_address arena config in
    let start = slice_start arena config in
    let count = slice_words arena config in
    rw ok (
      run_phases-inv neon ram slice start count report.error_count config (λ s. s.mem a ≡ m a)
        (λ s h. h)
        (λ p s h.
          (write_phase-Outside neon slice start count (phase_for_mode config.mode p) config small
              fits seed s).0
            a out
          ∙ h)
        (λ p s h _.
          let w = write_phase neon slice start count (phase_for_mode config.mode p) config s in
          ap (λ (t : Mem). t a)
            (verify_phase-read neon slice start count (phase_for_mode config.mode p) config small
              fits seed (record w.1 { mem = ram p w.1.mem })).0
          ∙ keeps p w.1.mem
          ∙ (write_phase-Outside neon slice start count (phase_for_mode config.mode p) config small
                fits seed s).0
              a out
          ∙ h)
        (phase_count_for_mode config.mode) 0 (start_run config report m progress) fresh_stats refl)

abbrev pub errors_of : Option Report → ℕ
errors_of none = 0
errors_of (some report) = report.error_count

-- Stopped or not, and whatever the memory under test does, a pass whose guards hold fails if the
-- number of errors in its report has changed, and otherwise passes or is aborted.
pub run_pass-status :
    (neon : Bool) (ram : ℕ → Mem → Mem) (m : Mem) (progress : ℕ) (arena : Arena)
    (config : RunConfig) (report : Report) (stats : RunStats)
    → is_supported arena config ≡ true
    → let result =
        run_pass neon ram m progress (some arena) (some config) (some report) (some stats) in
      ((errors_of result.report ≢ report.error_count) × (result.status ≡ fail))
      ⊎ ((errors_of result.report ≡ report.error_count)
          × ((result.status ≡ pass) ⊎ (result.status ≡ aborted)))
unfolding run_pass run_supported
run_pass-status neon ram m progress arena config report stats ok = rw ok (
    run_phases-Judged neon ram (slice_address arena config) (slice_start arena config)
      (slice_words arena config) report.error_count config (phase_count_for_mode config.mode) 0
      (start_run config report m progress) fresh_stats)
