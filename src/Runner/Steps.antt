-- ===== src/Runner/Steps.antt =====
-- A pass one chunk at a time: each read of the stop flag, chunk and end of a phase is a step of its
-- own, so that the steps of several workers can be taken in any order.
pub mod Loops
pub mod Alone
pub mod Words
pub mod Apart
use nx_mem_test.Base.{ℕ, zero, suc, ◌+◌, Bool, true, false, add64, mul64, ltb, ◌!=◌}
use nx_mem_test.Base.{if◌then◌else◌}
use nx_mem_test.Types.{Phase, Status, pass, fail, word_bytes}
use nx_mem_test.Report.{Report}
use nx_mem_test.Runner.{RunConfig, RunStats}
use nx_mem_test.Runner.Memory.{Mem}
use nx_mem_test.Runner.Chunks.{
  Run, chunk_at, phase_for_mode, stop_requested, abort_status, inject, write_round, verify_round,
}

-- Where a worker stands: before phase `p` with `left` phases still to run, in the loop that writes
-- it or in the one that reads it back with `k` words done, or at the end.
pub data Place : Type 0 where
  before : ℕ → ℕ → Place
  writing reading : ℕ → ℕ → ℕ → Place
  ended : Status → Place

-- What a worker keeps to itself.
pub record Local : Type 0 where
  pub place : Place
  pub polls : ℕ
  pub progress : ℕ
  pub pressure : ℕ
  pub report : Report
  pub stats : RunStats

-- The run of a worker with the memory that all workers share.
abbrev pub run_of : Local → Mem → Run
run_of l m = record {
  mem = m;
  polls = l.polls;
  progress = l.progress;
  pressure = l.pressure;
  report = l.report;
}

abbrev pub local_of : Place → RunStats → Run → Local
local_of place stats s = record {
  place = place;
  polls = s.polls;
  progress = s.progress;
  pressure = s.pressure;
  report = s.report;
  stats = stats;
}

abbrev pub state_of : Place → RunStats → Run → Local × Mem
state_of place stats s = (local_of place stats s, s.mem)

module _ (neon : Bool) (ram : ℕ → Mem → Mem) (slice start count initial_errors : ℕ)
    (config : RunConfig) where
  abbrev pub end_at : Status → RunStats → Run → Local × Mem
  end_at status stats s =
      state_of (ended status) (record stats { pressure_checksum = s.pressure }) s

  -- The test of the flag before `next`.
  abbrev pub poll : RunStats → Run → (Run → Local × Mem) → Local × Mem
  poll stats s next =
      let polled = record s { polls = suc s.polls } in
      if stop_requested config s.polls
      then end_at (abort_status s.report initial_errors) stats polled
      else next polled

  unfoldable pub step_at : Place → RunStats → Run → Local × Mem
  unfolding stop_requested abort_status write_round verify_round
  step_at (before zero p) stats s =
      end_at (if s.report.error_count != initial_errors then fail else pass) stats s
  step_at (before (suc left) p) stats s =
      poll stats s (
        state_of (writing left p 0) (record stats { current_phase = phase_for_mode config.mode p }))
  step_at (writing left p k) stats s =
      if ltb k count
      then (poll stats s (λ polled.
          state_of (writing left p (k + chunk_at count k)) stats
            (write_round neon slice start count (phase_for_mode config.mode p) config k polled)))
      else (state_of (reading left p 0)
          (record stats { bytes_written = add64 stats.bytes_written (mul64 count word_bytes) })
          (record s { mem = ram p (inject config slice count s.mem) }))
  step_at (reading left p k) stats s =
      if ltb k count
      then (poll stats s (λ polled.
          state_of (reading left p (k + chunk_at count k)) stats
            (verify_round neon slice start count (phase_for_mode config.mode p) config k polled)))
      else (state_of (before left (p + 1))
          (record stats { bytes_verified = add64 stats.bytes_verified (mul64 count word_bytes) }) s)
  step_at (ended status) stats s = state_of (ended status) stats s

  -- One step of the worker on the shared memory.
  unfoldable pub step : Local → Mem → Local × Mem
  unfolding step_at
  step l m = step_at l.place l.stats (run_of l m)
