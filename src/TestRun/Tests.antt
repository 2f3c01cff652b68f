-- ===== src/TestRun/Tests.antt =====
-- Runs of the test over a small arena.
use nx_mem_test.Base.{
  ℕ, zero, suc, ◌+◌, ◌^◌, ◌≤◌, ◌<◌, ◌≡◌, ◌≢◌, refl, true, false, some, [], ◌∷◌, ltb, if◌then◌else◌,
  arith,
}
use nx_mem_test.Types.{Status, quick, memory_load, fail}
use nx_mem_test.Arena.Split.{split_block_start, split_block_size}
use nx_mem_test.Patterns.{expected_value, bswap64}
use nx_mem_test.Report.{report_init}
use nx_mem_test.Report.Summary.{record_all}
use nx_mem_test.Runner.Memory.{Mem, fill}
use nx_mem_test.Runner.Pass.{is_supported}
use nx_mem_test.Runner.Pass.Sound.{sound}
use nx_mem_test.Workers.{zero_report, prepare_worker}
use nx_mem_test.Workers.Merge.{concat}
use nx_mem_test.TestRun.{Setup, Events, RunState, run_test, wait_for_workers}
use nx_mem_test.TestRun.Ends.{run_test-ends}
use nx_mem_test.TestRun.Verdict.{run_test-clean}
use nx_mem_test.TestRun.Sound.{run_test-sound}
use nx_mem_test.TestRun.Quick.{verdict, found_by, AreFew, first_context, run_test-quick}

abbrev blank : Mem
blank a = 0

abbrev quick_check : Setup
quick_check = record {
  neon = true;
  arena = record { base = 4096; size = 16; words = 2 };
  mode = quick;
  seed = 5;
  workers = 1;
  duration_ms = 0;
  test_started = 1000;
}

abbrev two_ms : Setup
two_ms = record quick_check { mode = memory_load; duration_ms = 2 }

-- All threads start, the flag is seen at once, and one round is waited.
abbrev ticking : ℕ → Events
ticking k = record {
  now = 1000 + k;
  create = λ i. true;
  start = λ i. true;
  sees = λ i read. true;
  rounds = record { app_running = true; plus = false; now = 1000 + k } ∷ [];
  ram = λ i. sound;
}

clock : (i : ℕ) → i ≤ 2 → (1000 + i ≤ (ticking i).now) × ((ticking i).now < 2 ^ 64)
clock i small = omega arith

run_test-ends_example :
    (result : Status × RunState) × (run_test two_ms 3 ticking sound 0 zero_report blank
      ≡ some result)
run_test-ends_example = run_test-ends two_ms ticking clock sound 0 zero_report blank

-- What the run over two milliseconds ends with.
last_state :
    (result : Status × RunState) × (run_test two_ms 3 ticking sound 0 zero_report blank
      ≡ some result)
last_state = run_test-ends two_ms ticking clock sound 0 zero_report blank

ended_is_sound : (last_state.0.0 ≢ fail) × (last_state.0.1.totals.report ≡ report_init zero_report)
ended_is_sound =
    run_test-sound two_ms (omega arith) (omega arith) 3 ticking sound zero_report blank
      last_state.0.0 last_state.0.1 (λ k worker. refl) refl last_state.1

run_test-sound_example :
    (last_state.0.0 ≢ fail) × (last_state.0.1.totals.report ≡ report_init zero_report)
run_test-sound_example =
    run_test-sound two_ms (omega arith) (omega arith) 3 ticking sound zero_report blank
      last_state.0.0 last_state.0.1 (λ k worker. refl) refl last_state.1

run_test-clean_example :
    (◌≡◌ {A = ℕ} 0 0) × (last_state.0.1.totals.report ≡ report_init zero_report)
run_test-clean_example =
    run_test-clean two_ms 3 ticking sound 0 zero_report blank last_state.0.0 last_state.0.1
      last_state.1 ended_is_sound.0

few_found : AreFew quick_check (found_by quick_check (ticking 0) 1 0 blank)
unfolding split_block_start split_block_size fill expected_value bswap64 prepare_worker
few_found = omega arith

-- The player stops the test in the second round.
stopped_by_plus :
    wait_for_workers two_ms
      (record { app_running = true; plus = false; now = 1000 }
        ∷ record { app_running = true; plus = true; now = 1001 }
        ∷ [])
      (record { stop = false; user_aborted = false })
    ≡ record { stop = true; user_aborted = true }
unfolding wait_for_workers
stopped_by_plus = refl

run_test-quick_example :
    let found = concat (found_by quick_check (ticking 0) 1 0 blank) in
    (r : RunState) × (run_test quick_check 1 ticking sound 0 zero_report blank
      ≡ some (if ltb 0 0 then fail else verdict found, r))
    × (r.totals.report ≡ record_all (report_init zero_report) found)
    × (r.passes_completed ≡ 1)
unfolding is_supported prepare_worker
run_test-quick_example =
    run_test-quick quick_check 0 ticking sound 0 zero_report blank (λ i lt. supported i lt)
      (omega arith) (omega arith) refl (λ i lt. (refl, refl)) (refl, refl, tt) few_found
  where
    supported :
        (i : ℕ) → i < 1 → is_supported quick_check.arena (first_context quick_check i).config ≡ true
    supported zero lt = refl
    supported (suc i) lt = absurd (omega arith)
