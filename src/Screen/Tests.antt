-- ===== src/Screen/Tests.antt =====
-- Widths of texts.
use nx_mem_test.Base.{some, ◌≡◌, refl, [], ◌∷◌}
use nx_mem_test.Base.{arith}
use nx_mem_test.Screen.{visible_width}
use nx_mem_test.Screen.Rows.Widths.{AllWide}
use nx_mem_test.Screen.Sections.{draw_memory_section, draw_run_config_section, draw_results_section}
use nx_mem_test.Screen.Sections.Wide.{sections_wide}
use nx_mem_test.ReportText.{Facts}
use nx_mem_test.Arena.Select.{override_heap}
use nx_mem_test.Types.{extreme, random, fail}
use nx_mem_test.Runner.Pass.{fresh_stats}
use nx_mem_test.Base.{true, false}

-- A sequence that the end of the string breaks off has no width.
broken_off : visible_width (some (0x41 ∷ 0x1b ∷ 0x5b ∷ 0x33 ∷ [])) ≡ 1
unfolding visible_width
broken_off = refl

abbrev long_run : Facts
long_run = record {
  mode = extreme;
  workers = 4;
  completed_workers = 44;
  seed = 77;
  arena = record { base = 4096; size = 1073741824; words = 134217728 };
  memory = record {
    override_heap_addr = 4096;
    override_heap_size = 1073741824;
    effective_total_memory = 3221225472;
    switch_total_memory = 3221225472;
    effective_total_source = override_heap;
    has_heap_override = true;
    has_effective_total = true;
    has_switch_total = true;
    extended_memory_detected = false;
  };
  report = record {
    has_first_error = true;
    first = record {
      mode = extreme;
      phase = random;
      seed = 77;
      pass = 1;
      worker_id = 2;
      offset = 0xdeadbeef;
      expected = 0x123456789abcdef0;
      actual = 0x123456789abcdef1;
      xor_diff = 1;
    };
    error_count = 1;
    min_error_offset = 0xdeadbeef;
    max_error_offset = 0xdeadbeef;
    bit_diff_or = 1;
  };
  stats = record fresh_stats { bytes_written = 6442450944; bytes_verified = 6442450944 };
  status = fail;
  thread_fallback = false;
  stop_requested = true;
  elapsed_ms = 1800123;
  gpu_pumped_bytes = 99999999999;
  gpu_pump_error_batches = 2;
  gpu_pump_verified_batches = 5000;
}

sections_wide_example :
    AllWide (draw_memory_section long_run.arena long_run.memory)
    × AllWide (draw_run_config_section extreme 4 77 1800)
    × AllWide (draw_results_section long_run 11 true)
sections_wide_example = sections_wide long_run 1800 11 true (omega arith)
