-- ===== src/Runner/Pass/Found.antt =====
-- A pass that is not stopped finds exactly the words that differ.
use nx_mem_test.Base.{ℕ, zero, suc, ◌+◌, ◌*◌, ◌^◌, ◌≤◌, ◌<◌, ◌≡◌, refl, sym, ap, ◌∙◌, Bool}
use nx_mem_test.Base.{true, false, arith, add64, mul64, u64, ◌!=◌, if◌then◌else◌}
use nx_mem_test.Types.{pass, fail, Phase, word_bytes}
use nx_mem_test.Report.Summary.{record_all, record_all-append}
use nx_mem_test.Runner.{RunConfig, RunStats}
use nx_mem_test.Runner.Memory.{Mem}
use nx_mem_test.Runner.Verify.Spec.{mismatches}
use nx_mem_test.Runner.Chunks.{Run, stop_requested, progress_add, phase_for_mode}
use nx_mem_test.Runner.Pass.{Outcome, run_phases}
use nx_mem_test.Runner.Chunks.{write_phase, verify_phase}
use mathlib.Core.Path.{ap₂}
use nx_mem_test.Runner.Chunks.Fills.{progress_add-append}
use nx_mem_test.Runner.Pass.Spec.{pass_mismatches, pass_memory, phases_from, read_back}
use nx_mem_test.Runner.Chunks.Slice.{write_phase-written, verify_phase-verified, write_phase-never}
use nx_mem_test.Runner.Chunks.Slice.{verify_phase-never}

module _ (neon : Bool) (ram : ℕ → Mem → Mem) (slice start count initial_errors : ℕ)
    (config : RunConfig) (small : count * word_bytes < 2 ^ 64)
    (fits : (start + count) * word_bytes ≤ 2 ^ 64) (hs : config.seed < 2 ^ 64)
    (never : (i : ℕ) → stop_requested config i ≡ false) where
  -- All that a pass of the phases from `p` on leaves behind.
  abbrev pub Complete : ℕ → ℕ → Run → RunStats → Outcome → Type 0
  Complete left p s stats done =
      let found =
        pass_mismatches ram slice start count config p (phases_from config.mode p left) s.mem in
      (done.run.report ≡ record_all s.report found)
      × (done.run.mem
          ≡ pass_memory ram slice start count config p (phases_from config.mode p left) s.mem)
      × (done.status ≡ (if done.run.report.error_count != initial_errors then fail else pass))
      × (done.stats.bytes_written ≡ u64 (stats.bytes_written + left * (count * word_bytes)))
      × (done.stats.bytes_verified ≡ u64 (stats.bytes_verified + left * (count * word_bytes)))
      × (done.run.progress ≡ progress_add config (left * (2 * (count * word_bytes))) s.progress)

  -- The run in the course of phase number `p`: at its start, written, decayed and read back.
  module _ (p : ℕ) (s : Run) where
    abbrev phase : Phase
    phase = phase_for_mode config.mode p

    abbrev polled : Run
    polled = record s { polls = suc s.polls }

    abbrev written : Bool × Run
    written = write_phase neon slice start count phase config polled

    abbrev kept : Run
    kept = record written.1 { mem = ram p written.1.mem }

    abbrev verified : Bool × Run
    verified = verify_phase neon slice start count phase config kept

    written-whole : written.0 ≡ true
    written-whole = write_phase-never neon slice start count phase config small fits hs polled never

    verified-whole : verified.0 ≡ true
    verified-whole = verify_phase-never neon slice start count phase config small fits hs kept never

    abbrev now : Mem
    now = read_back ram slice start count config p phase s.mem

    one_phase :
        (verified.1.mem ≡ now)
        × (verified.1.report ≡ record_all s.report (mismatches config phase now slice start count))
        × (verified.1.progress ≡ progress_add config (2 * (count * word_bytes)) s.progress)
    one_phase =
        let w =
          write_phase-written neon slice start count phase config small fits hs polled
            written-whole in
        let v =
          verify_phase-verified neon slice start count phase config small fits hs kept
            verified-whole in
        let held : kept.mem ≡ now = ap (ram p) w.0 in
        (
          v.0 ∙ held,
          v.1 ∙ ap₂ (λ r m. record_all r (mismatches config phase m slice start count)) w.1 held,
          v.2
              ∙ ap (progress_add config (count * word_bytes)) w.2
              ∙ progress_add-append config (count * word_bytes) (count * word_bytes) s.progress
              ∙ ap (λ d. progress_add config d s.progress) (omega arith),
        )

  pub run_phases-Complete :
      (left p : ℕ) (s : Run) (stats : RunStats)
      → stats.bytes_written < 2 ^ 64
      → stats.bytes_verified < 2 ^ 64
      → Complete left p s stats
          (run_phases neon ram slice start count initial_errors config left p s stats)
  unfolding run_phases progress_add
  run_phases-Complete zero p s stats hw hv =
      (refl, refl, refl, omega arith, omega arith, ground arith)
  run_phases-Complete (suc left) p s stats hw hv =
      let one = one_phase p s in
      let phases = phases_from config.mode (p + 1) left in
      let stats3 : RunStats = record stats {
        bytes_written = add64 stats.bytes_written (mul64 count word_bytes);
        bytes_verified = add64 stats.bytes_verified (mul64 count word_bytes);
        current_phase = phase p s;
      } in
      let rest =
        run_phases-Complete left (p + 1) (verified p s).1 stats3 (omega arith) (omega arith) in
      let product : suc left * (count * word_bytes)
          ≡ count * word_bytes + left * (count * word_bytes) =
        omega arith in
      rw (never s.polls, written-whole p s, verified-whole p s)
        (
          rest.0
              ∙ ap₂
                  (λ r m.
                    record_all r (pass_mismatches ram slice start count config (p + 1) phases m))
                  one.1 one.0
              ∙ sym (
                  record_all-append s.report
                    (mismatches config (phase p s) (now p s) slice start count) _),
          rest.1 ∙ ap (pass_memory ram slice start count config (p + 1) phases) one.0,
          rest.2,
          rest.3 ∙ omega (arith, product),
          rest.4 ∙ omega (arith, product),
          rest.5
              ∙ ap (progress_add config (left * (2 * (count * word_bytes)))) one.2
              ∙ progress_add-append config (2 * (count * word_bytes))
                  (left * (2 * (count * word_bytes))) s.progress
              ∙ ap (λ d. progress_add config d s.progress) (omega (arith, product)),
        )
