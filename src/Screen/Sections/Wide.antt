-- ===== src/Screen/Sections/Wide.antt =====
-- Every row of the boxes that a run draws is as wide as the screen, whatever the numbers in it.
use nx_mem_test.Base.{
  ℕ, ◌/◌, ◌%◌, ◌^◌, ◌<◌, ◌≡◌, refl, Bool, List, ◌++◌, arith, ltb, ◌==◌, if◌then◌else◌, some, add64,
}
use nx_mem_test.Base.Text.{codes, cut}
use nx_mem_test.Base.Digits.{llu, llx_016}
use nx_mem_test.Types.{Mode}
use nx_mem_test.Arena.{Arena}
use nx_mem_test.Arena.Percent.{percent_milli}
use nx_mem_test.Platform.{PlatformMemory}
use nx_mem_test.ReportText.{Facts, mode_name, status_name, memory_source_name, or_zero}
use nx_mem_test.Screen.{visible_width}
use nx_mem_test.Screen.Rows.{tui_width, ansi_dim, ansi_cyan, ansi_white}
use nx_mem_test.Screen.Rows.Widths.{
  AllWide, visible_width-section_blank, visible_width-section_bottom,
}
use nx_mem_test.Screen.Sections.{
  ansi_red, ansi_green, ansi_yellow, status_color, format_size_mib, format_percent, format_elapsed,
  draw_memory_section, draw_run_config_section, format_amount, verified_arena, throughput, gpu_rows,
  draw_results_section,
}
use nx_mem_test.Screen.Sections.Printed.{
  Printed, ◌⊕◌, literal-Printed, Printed-le, cut-Printed, llx_016-Printed,
}
use nx_mem_test.Screen.Sections.Values.{
  on_branches, literal, number, counted, mode_name-Printed, status_name-Printed,
  memory_source_name-Printed, format_size_mib-Printed, format_percent-Printed,
  format_elapsed-Printed, format_amount-Printed, verified_arena-Printed, throughput-Printed,
}
use nx_mem_test.Screen.Sections.Boxes.{
  Color, row-Wide, plain_row, dim, red, green, yellow, cyan, white, status_color-Color, Wide,
  no_rows, ◌▸◌, ◌⊞◌, top,
}

memory_section-Wide :
    (arena : Arena) (memory : PlatformMemory) → Wide (draw_memory_section arena memory)
unfolding draw_memory_section
memory_section-Wide arena memory =
    let extended = memory.extended_memory_detected in
    let total = memory.effective_total_memory in
    let coverage = or_zero (percent_milli arena.size total) in
    (top (codes "Memory") refl (omega arith)
      ▸ visible_width-section_blank
      ▸ row-Wide (codes "Test Arena") ansi_yellow (format_size_mib 64 arena.size) refl (omega arith)
          yellow (format_size_mib-Printed 64 arena.size)
      ▸ no_rows)
    ⊞ on_branches Wide memory.has_effective_total
        (row-Wide (codes "Effective Total") ansi_yellow (format_size_mib 64 total) refl
            (omega arith) yellow (format_size_mib-Printed 64 total)
          ▸ row-Wide (codes "Total Source") ansi_white
              (memory_source_name memory.effective_total_source) refl (omega arith) white
              (memory_source_name-Printed memory.effective_total_source)
          ▸ row-Wide (codes "Extended Memory") (if extended then ansi_green else ansi_dim)
              (if extended then codes "detected" else codes "no") refl (omega arith)
              (on_branches Color extended green dim)
              (on_branches (Printed 49) extended (literal (codes "detected") refl (omega arith))
                (literal (codes "no") refl (omega arith)))
          ▸ row-Wide (codes "Physical Coverage") ansi_white (format_percent 64 coverage) refl
              (omega arith) white (format_percent-Printed 64 coverage)
          ▸ no_rows)
        (plain_row (codes "Effective Total") ansi_dim (codes "unavailable") refl (omega arith) dim
            refl (omega arith)
          ▸ plain_row (codes "Total Source") ansi_dim (codes "none") refl (omega arith) dim refl
              (omega arith)
          ▸ plain_row (codes "Extended Memory") ansi_dim (codes "no") refl (omega arith) dim refl
              (omega arith)
          ▸ plain_row (codes "Physical Coverage") ansi_dim (codes "unavailable") refl (omega arith)
              dim refl (omega arith)
          ▸ no_rows)
    ⊞ (visible_width-section_blank ▸ visible_width-section_bottom ▸ no_rows)

run_config_section-Wide :
    (mode : Mode) (workers seed duration_seconds : ℕ)
    → Wide (draw_run_config_section mode workers seed duration_seconds)
unfolding draw_run_config_section
run_config_section-Wide mode workers seed duration_seconds =
    top (codes "Configuration") refl (omega arith)
    ▸ visible_width-section_blank
    ▸ row-Wide (codes "Mode") ansi_yellow (mode_name mode) refl (omega arith) yellow
        (mode_name-Printed mode)
    ▸ row-Wide (codes "Workers") ansi_yellow (cut 63 (llu workers)) refl (omega arith) yellow
        (number workers)
    ▸ row-Wide (codes "Seed") ansi_white (cut 63 (codes "0x" ++ llx_016 seed)) refl (omega arith)
        white
        (cut-Printed 63
          (Printed-le 49 (literal-Printed (codes "0x") refl ⊕ llx_016-Printed seed) (omega arith)))
    ▸ on_branches (λ (r : List ℕ). visible_width (some r) ≡ tui_width) (ltb 0 duration_seconds)
        (row-Wide (codes "Duration") ansi_yellow
          (cut 63 (
            if duration_seconds % 60 == 0
            then llu (duration_seconds / 60) ++ codes " min"
            else llu duration_seconds ++ codes " s"))
          refl (omega arith) yellow
          (cut-Printed 63 (
            on_branches (Printed 49) (duration_seconds % 60 == 0)
              (counted (duration_seconds / 60) (codes " min") refl (omega arith))
              (counted duration_seconds (codes " s") refl (omega arith)))))
        (plain_row (codes "Duration") ansi_dim (codes "single pass") refl (omega arith) dim refl
          (omega arith))
    ▸ visible_width-section_blank
    ▸ visible_width-section_bottom
    ▸ no_rows

gpu_rows-Wide : (facts : Facts) → Wide (gpu_rows facts)
gpu_rows-Wide facts =
    let errors = facts.gpu_pump_error_batches in
    on_branches Wide (ltb 0 facts.gpu_pumped_bytes)
      (row-Wide (codes "GPU Pumped") ansi_cyan (format_amount facts.gpu_pumped_bytes) refl
          (omega arith) cyan (format_amount-Printed facts.gpu_pumped_bytes)
        ▸ row-Wide (codes "GPU Verify Batches") ansi_cyan
            (cut 63 (llu facts.gpu_pump_verified_batches)) refl (omega arith) cyan
            (number facts.gpu_pump_verified_batches)
        ▸ on_branches (λ (r : List ℕ). visible_width (some r) ≡ tui_width) (errors == 0)
            (plain_row (codes "GPU Verify Status") ansi_green (codes "ok") refl (omega arith) green
              refl (omega arith))
            (row-Wide (codes "GPU Verify Status") ansi_red
              (cut 63 (llu errors ++ codes " mismatched")) refl (omega arith) red
              (cut-Printed 63 (counted errors (codes " mismatched") refl (omega arith))))
        ▸ no_rows)
      no_rows

results_section-Wide :
    (facts : Facts) (passes_completed : ℕ) (log_ok : Bool)
    → facts.arena.size < 2 ^ 64
    → Wide (draw_results_section facts passes_completed log_ok)
unfolding draw_results_section
results_section-Wide facts passes_completed log_ok small =
    let stats = facts.stats in
    let size = facts.arena.size in
    let errors = facts.report.error_count in
    let total_bytes =
      add64 (add64 stats.bytes_written stats.bytes_verified) facts.gpu_pumped_bytes in
    let stress = or_zero (percent_milli facts.completed_workers facts.workers) in
    (top (codes "Result") refl (omega arith)
      ▸ visible_width-section_blank
      ▸ row-Wide (codes "Status") (status_color facts.status) (status_name facts.status) refl
          (omega arith) (status_color-Color facts.status) (status_name-Printed facts.status)
      ▸ row-Wide (codes "System Stress Pass") ansi_white (format_percent 64 stress) refl
          (omega arith) white (format_percent-Printed 64 stress)
      ▸ row-Wide (codes "Passes Completed") ansi_yellow (cut 63 (llu passes_completed)) refl
          (omega arith) yellow (number passes_completed)
      ▸ on_branches (λ (r : List ℕ). visible_width (some r) ≡ tui_width) (size == 0)
          (plain_row (codes "Verified Arena") ansi_dim (codes "unavailable") refl (omega arith) dim
            refl (omega arith))
          (row-Wide (codes "Verified Arena") ansi_white (verified_arena stats.bytes_verified size)
            refl (omega arith) white (verified_arena-Printed stats.bytes_verified size small))
      ▸ row-Wide (codes "Tested") ansi_yellow (format_amount stats.bytes_verified) refl
          (omega arith) yellow (format_amount-Printed stats.bytes_verified)
      ▸ no_rows)
    ⊞ gpu_rows-Wide facts
    ⊞ on_branches Wide (ltb 0 facts.elapsed_ms)
        (row-Wide (codes "Throughput") ansi_yellow (throughput total_bytes facts.elapsed_ms) refl
            (omega arith) yellow (throughput-Printed total_bytes facts.elapsed_ms)
          ▸ no_rows)
        no_rows
    ⊞ (row-Wide (codes "Elapsed") ansi_yellow (format_elapsed 64 facts.elapsed_ms) refl
          (omega arith) yellow (format_elapsed-Printed 64 facts.elapsed_ms)
        ▸ row-Wide (codes "Errors") (if errors == 0 then ansi_green else ansi_red)
            (cut 63 (llu errors)) refl (omega arith) (on_branches Color (errors == 0) green red)
            (number errors)
        ▸ no_rows)
    ⊞ on_branches Wide facts.thread_fallback
        (plain_row (codes "Thread Fallback") ansi_yellow (codes "yes") refl (omega arith) yellow
            refl (omega arith)
          ▸ no_rows)
        no_rows
    ⊞ (row-Wide (codes "Log") (if log_ok then ansi_dim else ansi_red)
          (if log_ok then codes "sdmc:/switch/NX-MemTest/logs/latest.txt" else codes "unavailable")
          refl (omega arith) (on_branches Color log_ok dim red)
          (on_branches (Printed 49) log_ok
            (literal (codes "sdmc:/switch/NX-MemTest/logs/latest.txt") refl (omega arith))
            (literal (codes "unavailable") refl (omega arith)))
        ▸ visible_width-section_blank
        ▸ visible_width-section_bottom
        ▸ no_rows)

-- For an arena whose size is a 64-bit number, and whatever else the memory query, the configuration
-- and the results are: every row of the three boxes that a run draws of them is exactly as wide as
-- the screen.
pub sections_wide :
    (facts : Facts) (duration_seconds passes_completed : ℕ) (log_ok : Bool)
    → facts.arena.size < 2 ^ 64
    → AllWide (draw_memory_section facts.arena facts.memory)
      × AllWide (draw_run_config_section facts.mode facts.workers facts.seed duration_seconds)
      × AllWide (draw_results_section facts passes_completed log_ok)
sections_wide facts duration_seconds passes_completed log_ok small = (
  (memory_section-Wide facts.arena facts.memory).all,
  (run_config_section-Wide facts.mode facts.workers facts.seed duration_seconds).all,
  (results_section-Wide facts passes_completed log_ok small).all,
)
