-- ===== src/Screen/Sections.antt =====
-- source/nx/main.c, the boxes of the screen as lists of rows: draw_memory_section,
-- draw_run_config_section and draw_results_section, with the formats of sizes, percentages and times.
pub mod Printed
pub mod Values
pub mod Boxes
pub mod Wide
use nx_mem_test.Base.{
  ℕ, suc, ◌-◌, ◌*◌, ◌/◌, ◌%◌, Bool, true, false, List, [], ◌∷◌, ◌++◌, Option, none, some, ltb, leb,
  ◌==◌, if◌then◌else◌, add64, mul64,
}
use nx_mem_test.Base.Text.{codes, cut}
use nx_mem_test.Base.Digits.{llu, llu_0, llx_016}
use nx_mem_test.Types.{Mode, Status, pass, fail, aborted, unsupported, mib_bytes}
use nx_mem_test.Arena.{Arena}
use nx_mem_test.Arena.Percent.{percent_milli}
use nx_mem_test.Platform.{PlatformMemory}
use nx_mem_test.Report.{Report}
use nx_mem_test.Runner.{RunStats}
use nx_mem_test.ReportText.{Facts, mode_name, status_name, memory_source_name, or_zero}
use nx_mem_test.Screen.Rows.{
  ansi, ansi_dim, ansi_cyan, ansi_white, section_top, section_bottom, section_blank, kv,
}

abbrev pub ansi_red : List ℕ
ansi_red = ansi (codes "31")

abbrev pub ansi_green : List ℕ
ansi_green = ansi (codes "32")

abbrev pub ansi_yellow : List ℕ
ansi_yellow = ansi (codes "33")

abbrev pub status_color : Status → List ℕ
status_color pass = ansi_green
status_color fail = ansi_red
status_color aborted = ansi_yellow
status_color unsupported = ansi_dim

-- The functions that print into a buffer are given its size.
abbrev pub format_size_mib : ℕ → ℕ → List ℕ
format_size_mib buf_size bytes = cut (buf_size - 1) (llu (bytes / mib_bytes) ++ codes " MiB")

abbrev pub format_percent : ℕ → ℕ → List ℕ
format_percent buf_size milli =
    cut (buf_size - 1) (llu (milli / 1000) ++ codes "." ++ llu_0 3 (milli % 1000) ++ codes "%")

abbrev pub format_elapsed : ℕ → ℕ → List ℕ
format_elapsed buf_size ms =
    let secs = ms / 1000 in
    cut (buf_size - 1) (llu_0 2 (secs / 60) ++ codes ":" ++ llu_0 2 (secs % 60))

-- `tui_kv` with a color.
abbrev row : List ℕ → List ℕ → List ℕ → List ℕ
row label color value = kv label (some color) value

unfoldable pub draw_memory_section : Arena → PlatformMemory → List (List ℕ)
unfolding section_top section_bottom section_blank kv percent_milli
draw_memory_section arena memory =
    let extended = memory.extended_memory_detected in
    let total = memory.effective_total_memory in
    (section_top (codes "Memory")
      ∷ section_blank
      ∷ row (codes "Test Arena") ansi_yellow (format_size_mib 64 arena.size)
      ∷ [])
    ++ (if memory.has_effective_total
        then (row (codes "Effective Total") ansi_yellow (format_size_mib 64 total)
            ∷ row (codes "Total Source") ansi_white
                (memory_source_name memory.effective_total_source)
            ∷ row (codes "Extended Memory") (if extended then ansi_green else ansi_dim)
                (if extended then codes "detected" else codes "no")
            ∷ row (codes "Physical Coverage") ansi_white
                (format_percent 64 (or_zero (percent_milli arena.size total)))
            ∷ [])
        else (row (codes "Effective Total") ansi_dim (codes "unavailable")
            ∷ row (codes "Total Source") ansi_dim (codes "none")
            ∷ row (codes "Extended Memory") ansi_dim (codes "no")
            ∷ row (codes "Physical Coverage") ansi_dim (codes "unavailable")
            ∷ []))
    ++ (section_blank ∷ section_bottom ∷ [])

unfoldable pub draw_run_config_section : Mode → ℕ → ℕ → ℕ → List (List ℕ)
unfolding section_top section_bottom section_blank kv
draw_run_config_section mode workers seed duration_seconds =
    section_top (codes "Configuration")
    ∷ section_blank
    ∷ row (codes "Mode") ansi_yellow (mode_name mode)
    ∷ row (codes "Workers") ansi_yellow (cut 63 (llu workers))
    ∷ row (codes "Seed") ansi_white (cut 63 (codes "0x" ++ llx_016 seed))
    ∷ (if ltb 0 duration_seconds
        then row (codes "Duration") ansi_yellow (
            cut 63 (
              if duration_seconds % 60 == 0
              then llu (duration_seconds / 60) ++ codes " min"
              else llu duration_seconds ++ codes " s"))
        else row (codes "Duration") ansi_dim (codes "single pass"))
    ∷ section_blank
    ∷ section_bottom
    ∷ []

-- An amount of bytes, in GiB with two places from 1024 MiB on.
abbrev pub format_amount : ℕ → List ℕ
format_amount bytes =
    let gib_x100 = mul64 bytes 100 / (1024 * mib_bytes) in
    cut 63 (
      if leb (1024 * mib_bytes) bytes
      then llu (gib_x100 / 100) ++ codes "." ++ llu_0 2 (gib_x100 % 100) ++ codes " GiB"
      else llu (bytes / mib_bytes) ++ codes " MiB")

abbrev pub verified_arena : ℕ → ℕ → List ℕ
verified_arena bytes_verified size =
    let verified_for_progress = if ltb size bytes_verified then size else bytes_verified in
    let pmilli = or_zero (percent_milli verified_for_progress size) in
    cut 95 (
      llu (pmilli / 1000)
      ++ codes "."
      ++ llu_0 3 (pmilli % 1000)
      ++ codes "% of "
      ++ llu (size / mib_bytes)
      ++ codes " MiB")

abbrev pub throughput : ℕ → ℕ → List ℕ
throughput total_bytes elapsed_ms =
    let mb_per_s = mul64 (total_bytes / 1000000) 1000 / elapsed_ms in
    cut 63 (
      if leb 1000 mb_per_s
      then llu (mb_per_s / 1000) ++ codes "." ++ llu (mb_per_s % 1000 / 100) ++ codes " GB/s"
      else llu mb_per_s ++ codes " MB/s")

-- The rows on the GPU.
abbrev pub gpu_rows : Facts → List (List ℕ)
gpu_rows facts =
    if ltb 0 facts.gpu_pumped_bytes
    then (row (codes "GPU Pumped") ansi_cyan (format_amount facts.gpu_pumped_bytes)
        ∷ row (codes "GPU Verify Batches") ansi_cyan (cut 63 (llu facts.gpu_pump_verified_batches))
        ∷ (if facts.gpu_pump_error_batches == 0
            then row (codes "GPU Verify Status") ansi_green (codes "ok")
            else row (codes "GPU Verify Status") ansi_red
                (cut 63 (llu facts.gpu_pump_error_batches ++ codes " mismatched")))
        ∷ [])
    else []

-- Of the facts this function is given the same ones as `format_report`, but for the memory and the
-- stop flag.
unfoldable pub draw_results_section : Facts → ℕ → Bool → List (List ℕ)
unfolding section_top section_bottom section_blank kv percent_milli
draw_results_section facts passes_completed log_ok =
    let stats = facts.stats in
    let total_bytes =
      add64 (add64 stats.bytes_written stats.bytes_verified) facts.gpu_pumped_bytes in
    (section_top (codes "Result")
      ∷ section_blank
      ∷ row (codes "Status") (status_color facts.status) (status_name facts.status)
      ∷ row (codes "System Stress Pass") ansi_white
          (format_percent 64 (or_zero (percent_milli facts.completed_workers facts.workers)))
      ∷ row (codes "Passes Completed") ansi_yellow (cut 63 (llu passes_completed))
      ∷ (if facts.arena.size == 0
          then row (codes "Verified Arena") ansi_dim (codes "unavailable")
          else row (codes "Verified Arena") ansi_white
              (verified_arena stats.bytes_verified facts.arena.size))
      ∷ row (codes "Tested") ansi_yellow (format_amount stats.bytes_verified)
      ∷ [])
    ++ gpu_rows facts
    ++ (if ltb 0 facts.elapsed_ms
        then row (codes "Throughput") ansi_yellow (throughput total_bytes facts.elapsed_ms) ∷ []
        else [])
    ++ (row (codes "Elapsed") ansi_yellow (format_elapsed 64 facts.elapsed_ms)
        ∷ row (codes "Errors") (if facts.report.error_count == 0 then ansi_green else ansi_red)
            (cut 63 (llu facts.report.error_count))
        ∷ [])
    ++ (if facts.thread_fallback
        then row (codes "Thread Fallback") ansi_yellow (codes "yes") ∷ []
        else [])
    ++ (row (codes "Log") (if log_ok then ansi_dim else ansi_red)
          (if log_ok then codes "sdmc:/switch/NX-MemTest/logs/latest.txt" else codes "unavailable")
        ∷ section_blank
        ∷ section_bottom
        ∷ [])
