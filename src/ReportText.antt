-- ===== src/ReportText.antt =====
-- source/nx/main.c, the text of the report that a run leaves in the log file: format_report with
-- mode_name, status_name and memory_source_name.
pub mod Lines
pub mod Fits
pub mod Read
mod Tests
use nx_mem_test.Base.{
  ℕ, zero, suc, ◌-◌, ◌/◌, Bool, true, false, List, [], ◌∷◌, ◌++◌, Option, none, some, if◌then◌else◌,
}
use nx_mem_test.Base.Text.{codes, cut}
use nx_mem_test.Base.Digits.{llu, llx, llx_016}
use nx_mem_test.Types.{
  Mode, quick, memory_load, extreme, Status, pass, fail, aborted, unsupported, mib_bytes,
}
use nx_mem_test.Arena.{Arena}
use nx_mem_test.Arena.Percent.{percent_milli}
use nx_mem_test.Arena.Select.{
  MemorySource, physical_pools, process_total, override_heap, source_none,
}
use nx_mem_test.Platform.{PlatformMemory}
use nx_mem_test.Report.{Error, Report}
use nx_mem_test.Runner.{RunStats}

abbrev pub mode_name : Mode → List ℕ
mode_name quick = codes "Quick Check"
mode_name memory_load = codes "Memory Load"
mode_name extreme = codes "Extreme"

abbrev pub status_name : Status → List ℕ
status_name pass = codes "PASS"
status_name fail = codes "FAIL"
status_name aborted = codes "ABORTED"
status_name unsupported = codes "UNSUPPORTED"

abbrev pub memory_source_name : MemorySource → List ℕ
memory_source_name physical_pools = codes "physical-pools"
memory_source_name process_total = codes "process-total"
memory_source_name override_heap = codes "override-heap"
memory_source_name source_none = codes "none"

abbrev pub yes_no : Bool → List ℕ
yes_no true = codes "yes"
yes_no false = codes "no"

-- The arguments of `format_report` behind the buffer.
pub record Facts : Type 0 where
  pub mode : Mode
  pub workers : ℕ
  pub completed_workers : ℕ
  pub seed : ℕ
  pub arena : Arena
  pub memory : PlatformMemory
  pub report : Report
  pub stats : RunStats
  pub status : Status
  pub thread_fallback : Bool
  pub stop_requested : Bool
  pub elapsed_ms : ℕ
  pub gpu_pumped_bytes : ℕ
  pub gpu_pump_error_batches : ℕ
  pub gpu_pump_verified_batches : ℕ

-- What a line says of the first error, and 0 where there is none.
abbrev pub of_first : Report → (Error → ℕ) → ℕ
of_first report part = if report.has_first_error then part report.first else 0

-- `percent_milli` has a result for all 64-bit numbers.
abbrev pub or_zero : Option ℕ → ℕ
or_zero none = 0
or_zero (some n) = n

-- The lines in their order: what the format says up to the value, and the value.
unfoldable pub report_rows : Facts → List (List ℕ × List ℕ)
report_rows facts =
    let memory = facts.memory in
    let report = facts.report in
    let coverage =
      if memory.has_effective_total
      then or_zero (percent_milli facts.arena.size memory.effective_total_memory)
      else 0 in
    (codes "Mode: ", mode_name facts.mode)
    ∷ (codes "Workers: ", llu facts.workers)
    ∷ (codes "Workers Completed: ", llu facts.completed_workers)
    ∷ (codes "Seed: 0x", llx_016 facts.seed)
    ∷ (codes "Status: ", status_name facts.status)
    ∷ (codes "Thread Fallback: ", yes_no facts.thread_fallback)
    ∷ (codes "Stop Requested: ", yes_no facts.stop_requested)
    ∷ (codes "Test Arena MiB: ", llu (facts.arena.size / mib_bytes))
    ∷ (
      codes "Effective Total MiB: ",
      llu (if memory.has_effective_total then memory.effective_total_memory / mib_bytes else 0),
    )
    ∷ (codes "Total Source: ", memory_source_name memory.effective_total_source)
    ∷ (codes "Extended Memory Detected: ", yes_no memory.extended_memory_detected)
    ∷ (codes "Physical Coverage MilliPercent: ", llu coverage)
    ∷ (codes "Bytes Written: ", llu facts.stats.bytes_written)
    ∷ (codes "Bytes Verified: ", llu facts.stats.bytes_verified)
    ∷ (codes "GPU Pumped Bytes: ", llu facts.gpu_pumped_bytes)
    ∷ (codes "GPU Verify Batches: ", llu facts.gpu_pump_verified_batches)
    ∷ (codes "GPU Verify Error Batches: ", llu facts.gpu_pump_error_batches)
    ∷ (codes "Elapsed ms: ", llu facts.elapsed_ms)
    ∷ (codes "Errors: ", llu report.error_count)
    ∷ (codes "First Error Offset: 0x", llx (of_first report (λ e. e.offset)))
    ∷ (codes "First Error Expected: 0x", llx_016 (of_first report (λ e. e.expected)))
    ∷ (codes "First Error Actual: 0x", llx_016 (of_first report (λ e. e.actual)))
    ∷ (codes "First Error XorDiff: 0x", llx_016 (of_first report (λ e. e.xor_diff)))
    ∷ []

-- The format behind its first line.
abbrev pub text_of : List (List ℕ × List ℕ) → List ℕ
text_of [] = []
text_of (row ∷ rows) = row.0 ++ row.1 ++ codes "\n" ++ text_of rows

-- The text in a buffer of `out_size` characters.
unfoldable pub format_report : ℕ → Facts → List ℕ
unfolding report_rows
format_report out_size facts =
    cut (out_size - 1) (codes "NX-MemTest Report\n" ++ text_of (report_rows facts))
