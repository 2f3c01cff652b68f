-- ===== src/Runner/Pass.antt =====
-- `nxmt_runner_run_pass`: each phase of the mode written into the worker's slice of the arena and
-- read back.
pub mod Spec
pub mod Found
pub mod Verdict
pub mod Frame
pub mod Refusal
pub mod Sound
pub mod Injected
use nx_mem_test.Base.{
  ℕ, zero, suc, ◌+◌, ◌-◌, ◌*◌, ◌/◌, ◌%◌, ◌^◌, Bool, true, false, ◌&&◌, ◌||◌, not,
}
use nx_mem_test.Base.{
  Option, none, some, List, [], ◌∷◌, length, bit_xor, add64, mul64, shl64, shr64,
}
use nx_mem_test.Base.{ltb, leb, ◌==◌, ◌!=◌, if◌then◌else◌, loop_by}
use nx_mem_test.Types.{Mode, quick, memory_load, extreme, Status, pass, fail, aborted, unsupported}
use nx_mem_test.Types.{Phase, fixed_a, fixed_5, checker, address, random, walking, narrow}
use nx_mem_test.Types.{bitspread, stream, word_bytes}
use nx_mem_test.Arena.{Arena}
use nx_mem_test.Arena.Split.{split_block_start, split_block_size}
use nx_mem_test.Patterns.{mix64}
use nx_mem_test.Report.{Report}
use nx_mem_test.Runner.{RunConfig, RunStats}
use nx_mem_test.Runner.Memory.{Mem, store}
use nx_mem_test.Runner.Write.{write_chunk}
use nx_mem_test.Runner.Verify.{verify_chunk}
use nx_mem_test.Runner.Chunks.{
  Run, abort_status, is_aligned, phase_count_for_mode, phase_for_mode, stop_requested, verify_phase,
  write_phase,
}

-- What the caller finds afterwards.
pub record Outcome : Type 0 where
  pub status : Status
  pub run : Run
  pub stats : RunStats

-- `ram p` stands for the memory under test between writing and reading back phase `p`: what it
-- holds then, of what was written. On a sound memory it changes nothing.
module _ (neon : Bool) (ram : ℕ → Mem → Mem) (slice start count initial_errors : ℕ)
    (config : RunConfig) where
  abbrev stopped : Run → RunStats → Outcome
  stopped s stats = record {
    status = abort_status s.report initial_errors;
    run = s;
    stats = record stats { pressure_checksum = s.pressure };
  }

  -- The `for` over the phases, with `left` of them still to run from phase `p` on.
  unfoldable pub run_phases : ℕ → ℕ → Run → RunStats → Outcome
  unfolding stop_requested abort_status write_phase verify_phase
  run_phases zero p s stats = record {
    status = if s.report.error_count != initial_errors then fail else pass;
    run = s;
    stats = record stats { pressure_checksum = s.pressure };
  }
  run_phases (suc left) p s stats =
      let polled = record s { polls = suc s.polls } in
      let phase = phase_for_mode config.mode p in
      let stats1 = record stats { current_phase = phase } in
      let written = write_phase neon slice start count phase config polled in
      let stats2 = record stats1 {
        bytes_written = add64 stats1.bytes_written (mul64 count word_bytes);
      } in
      let verified =
        verify_phase neon slice start count phase config
          (record written.1 { mem = ram p written.1.mem }) in
      let stats3 = record stats2 {
        bytes_verified = add64 stats2.bytes_verified (mul64 count word_bytes);
      } in
      let rest = run_phases left (p + 1) verified.1 stats3 in
      if stop_requested config s.polls
      then stopped polled stats
      else if not written.0
      then stopped written.1 stats1
      else if not verified.0
      then stopped verified.1 stats2
      else rest

abbrev pub fresh_stats : RunStats
fresh_stats = record {
  bytes_written = 0;
  bytes_verified = 0;
  pressure_checksum = 0;
  current_phase = fixed_a;
}

abbrev pub start_run : RunConfig → Report → Mem → ℕ → Run
start_run config report m progress = record {
  mem = m;
  polls = 0;
  progress = progress;
  pressure = bit_xor config.seed config.worker_id;
  report = report;
}

-- The guards on the arena and the configuration.
unfoldable pub is_supported : Arena → RunConfig → Bool
unfolding is_aligned
is_supported arena config =
    not (
      arena.base == 0
      || arena.words == 0
      || config.worker_count == 0
      || leb config.worker_count config.worker_id)
    && is_aligned arena

-- A null pointer is `none`. The result gives the status and what the pointers point to afterwards.
pub record PassResult : Type 0 where
  pub status : Status
  pub mem : Mem
  pub progress : ℕ
  pub report : Option Report
  pub stats : Option RunStats

module _ (neon : Bool) (ram : ℕ → Mem → Mem) (m : Mem) (progress : ℕ) where
  abbrev refused : Option Report → Option RunStats → PassResult
  refused report stats = record {
    status = unsupported;
    mem = m;
    progress = progress;
    report = report;
    stats = stats;
  }

  -- A pass whose pointers are all there and whose guards hold.
  unfoldable pub run_supported : Arena → RunConfig → Report → Outcome
  unfolding run_phases
  run_supported arena config report =
      let start = split_block_start arena.words config.worker_count config.worker_id in
      let count = split_block_size arena.words config.worker_count config.worker_id in
      let slice = (arena.base + start * word_bytes) / word_bytes in
      run_phases neon ram slice start count report.error_count config
        (phase_count_for_mode config.mode) 0 (start_run config report m progress) fresh_stats

  unfoldable pub run_pass :
      Option Arena → Option RunConfig → Option Report → Option RunStats → PassResult
  unfolding is_supported run_supported
  run_pass arena config report none = refused report none
  run_pass none config report (some stats) = refused report (some fresh_stats)
  run_pass (some arena) none report (some stats) = refused report (some fresh_stats)
  run_pass (some arena) (some config) none (some stats) = refused none (some fresh_stats)
  run_pass (some arena) (some config) (some report) (some stats) =
      let done = run_supported arena config report in
      if is_supported arena config
      then (record {
        status = done.status;
        mem = done.run.mem;
        progress = done.run.progress;
        report = some done.run.report;
        stats = some done.stats;
      })
      else refused (some report) (some fresh_stats)
