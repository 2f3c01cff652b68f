-- ===== src/Runner/Tests.antt =====
-- Runs of the runner's functions: a two-word arena at address 4096, with a faulty memory cell.
use nx_mem_test.Base.{ℕ, ◌*◌, ◌≡◌, ◌≢◌, ◌⊎◌, inr, refl, true, false, ◌&&◌, none, some}
use nx_mem_test.Base.{arith, bit_xor, u64, ◌==◌, ◌!=◌, if◌then◌else◌}
use nx_mem_test.Runner.Pass.Refusal.{Refused, run_pass-unsupported}
use nx_mem_test.Types.{quick, fixed_a, address, stream, pass, fail, aborted, unsupported}
use nx_mem_test.Types.{word_bytes}
use nx_mem_test.Base.Loop.{loop_by}
use nx_mem_test.Patterns.{bswap64}
use nx_mem_test.Arena.{Arena}
use nx_mem_test.Arena.Split.{split_block_start, split_block_size}
use nx_mem_test.Report.{Report, report_record_error}
use nx_mem_test.Report.Summary.{record_all}
use nx_mem_test.Runner.{RunConfig}
use nx_mem_test.Runner.Expected.{expected_from}
use nx_mem_test.Runner.Memory.{Mem, fill, store}
use nx_mem_test.Runner.Write.{write_chunk, write_random, write_address, memset}
use nx_mem_test.Runner.Write.Chunk.{write_chunk_lem}
use nx_mem_test.Runner.Verify.{verify_chunk, verify_random, verify_address, verify_fixed}
use nx_mem_test.Runner.Verify.Spec.{mismatches}
use nx_mem_test.Runner.Verify.Chunk.{verify_chunk_lem}
use nx_mem_test.Runner.Chunks.{stop_requested, progress_add}
use nx_mem_test.Runner.Pass.{run_pass, is_supported, fresh_stats}
use nx_mem_test.Runner.Pass.Spec.{phases_of}
use nx_mem_test.Runner.Pass.Verdict.{run_pass_lem, found_words, slice_words, slice_start}
use nx_mem_test.Runner.Pass.Verdict.{bytes_of}
use nx_mem_test.Runner.Pass.Frame.{run_pass-outside, run_pass-status, errors_of}
use nx_mem_test.Runner.Pass.Sound.{sound, run_pass-sound}
use nx_mem_test.Runner.Pass.Injected.{run_pass-injected, injected_mismatches}

abbrev arena : Arena
arena = record { base = 4096; size = 16; words = 2 }

abbrev config : RunConfig
config = record {
  mode = quick;
  seed = 5;
  pass = 1;
  worker_id = 0;
  worker_count = 1;
  inject_mismatch = false;
  stop_requested = none;
  progress_bytes = true;
}

abbrev injecting : RunConfig
injecting = record config { inject_mismatch = true }

abbrev stopped_at_once : RunConfig
stopped_at_once = record config { stop_requested = some (λ i. true) }

abbrev report : Report
report = record {
  has_first_error = false;
  first = record {
    mode = quick;
    phase = fixed_a;
    seed = 0;
    pass = 0;
    worker_id = 0;
    offset = 0;
    expected = 0;
    actual = 0;
    xor_diff = 0;
  };
  error_count = 0;
  min_error_offset = 0;
  max_error_offset = 0;
  bit_diff_or = 0;
}

abbrev blank : Mem
blank a = 0

-- Bit 0 of word 513 changes while phase 1 is kept.
abbrev faulty : ℕ → Mem → Mem
faulty p m a = if a == 513 && p == 1 then bit_xor (m a) 1 else m a

supported : is_supported arena config ≡ true
unfolding is_supported
supported = refl

supported_injecting : is_supported arena injecting ≡ true
unfolding is_supported
supported_injecting = refl

two_words : slice_words arena injecting ≡ 2
unfolding split_block_size
two_words = refl

sound_passes :
    (run_pass true sound blank 0 (some arena) (some config) (some report) (some fresh_stats)).status
    ≡ pass
unfolding run_pass split_block_size split_block_start verify_chunk verify_random verify_address
    verify_fixed write_chunk write_random write_address memset loop_by bswap64 store
sound_passes = refl

faulty_fails :
    (run_pass true faulty blank 0
      (some arena)
      (some config)
      (some report)
      (some fresh_stats)).status
    ≡ fail
unfolding run_pass split_block_size split_block_start verify_chunk verify_random verify_address
    verify_fixed write_chunk write_random write_address memset loop_by bswap64 store
    report_record_error
faulty_fails = refl

stopped_aborts :
    (run_pass true sound blank 0
      (some arena)
      (some stopped_at_once)
      (some report)
      (some fresh_stats)).status
    ≡ aborted
unfolding run_pass
stopped_aborts = refl

run_pass_lem_example :
    let result =
      run_pass true faulty blank 7 (some arena) (some config) (some report) (some fresh_stats) in
    let report' = record_all report (found_words faulty arena config blank) in
    let bytes = 3 * (slice_words arena config * word_bytes) in
    (result.report ≡ some report')
    × (result.status ≡ (if report'.error_count != 0 then fail else pass))
    × (bytes_of result.stats ≡ some (u64 bytes, u64 bytes))
    × (result.progress ≡ progress_add config (2 * bytes) 7)
unfolding is_supported stop_requested
run_pass_lem_example =
    run_pass_lem true faulty blank 7 arena config report fresh_stats refl (omega arith)
      (omega arith) (λ i. refl)

run_pass-sound_example :
    (run_pass false sound blank 0
      (some arena)
      (some config)
      (some report)
      (some fresh_stats)).report
    ≡ some report
run_pass-sound_example =
    run_pass-sound false blank 0 arena config report fresh_stats supported (omega arith)
      (omega arith) refl

run_pass-injected_example :
    let result =
      run_pass true sound blank 0 (some arena) (some injecting) (some report) (some fresh_stats) in
    (result.report
      ≡ some (
          record_all report
            (injected_mismatches injecting (slice_start arena injecting) (phases_of quick))))
    × (result.status ≡ fail)
unfolding stop_requested split_block_size
run_pass-injected_example =
    run_pass-injected true blank 0 arena injecting report fresh_stats supported_injecting
      (omega arith) (omega arith) (λ i. refl) refl (omega arith) (omega arith)

run_pass-outside_example :
    (run_pass true faulty blank 0 (some arena) (some config) (some report) (some fresh_stats)).mem
      514
    ≡ 0
unfolding split_block_size split_block_start
run_pass-outside_example =
    run_pass-outside true faulty blank 0 arena config report fresh_stats 514 supported (omega arith)
      (omega arith) (inr (omega arith)) (λ p m'. refl)

run_pass-status_example :
    let result =
      run_pass true faulty blank 0 (some arena) (some config) (some report) (some fresh_stats) in
    ((errors_of result.report ≢ 0) × (result.status ≡ fail))
    ⊎ ((errors_of result.report ≡ 0) × ((result.status ≡ pass) ⊎ (result.status ≡ aborted)))
run_pass-status_example =
    run_pass-status true faulty blank 0 arena config report fresh_stats supported

abbrev emptied : Arena
emptied = record arena { words = 0 }

run_pass-unsupported_example :
    let result =
      run_pass true sound blank 3 (some emptied) (some config) (some report) (some fresh_stats) in
    (Refused (some emptied) (some config) (some report) (some fresh_stats)
      × (result.status ≡ unsupported)
      × (result.mem ≡ blank)
      × (result.progress ≡ 3)
      × (result.report ≡ some report)
      × (result.stats ≡ some fresh_stats))
    ⊎ (¬ (Refused (some emptied) (some config) (some report) (some fresh_stats))
        × (result.status ≢ unsupported))
run_pass-unsupported_example =
    run_pass-unsupported true sound blank 3 (some emptied) (some config) (some report)
      (some fresh_stats)

write_chunk_lem_example :
    write_chunk true 512 3 1 stream 5 1 blank ≡ fill 512 3 (expected_from 5 stream 1 1) blank
write_chunk_lem_example =
    write_chunk_lem true 512 3 1 stream 5 1 blank (omega arith) (omega arith) (omega arith)

verify_chunk_lem_example :
    verify_chunk blank 512 3 1 config report true address
    ≡ record_all report (mismatches config address blank 512 1 3)
verify_chunk_lem_example =
    verify_chunk_lem blank 512 3 1 config report true address (omega arith) (omega arith)
