-- ===== src/ReportText/Tests.antt =====
-- A report and what is read back from it.
use nx_mem_test.Base.{◌≡◌, refl, true, false, some, arith}
use nx_mem_test.Base.Text.{codes}
use nx_mem_test.Types.{quick, address, fail}
use nx_mem_test.Arena.Select.{override_heap}
use nx_mem_test.Runner.Pass.{fresh_stats}
use nx_mem_test.ReportText.{Facts, format_report}
use nx_mem_test.Base.Digits.{llu, llx, llx_016, print_digits}
use nx_mem_test.ReportText.Read.{number_in, hex_in, status_in, format_report_read_back}

abbrev one_error : Facts
one_error = record {
  mode = quick;
  workers = 3;
  completed_workers = 6;
  seed = 0x4e584d54;
  arena = record { base = 4096; size = 1073741824; words = 134217728 };
  memory = record {
    override_heap_addr = 4096;
    override_heap_size = 1073741824;
    effective_total_memory = 3221225472;
    switch_total_memory = 3221225472;
    effective_total_source = override_heap;
    has_heap_override = true;
    has_effective_total = true;
    has_switch_total = true;
    extended_memory_detected = false;
  };
  report = record {
    has_first_error = true;
    first = record {
      mode = quick;
      phase = address;
      seed = 0x4e584d54;
      pass = 1;
      worker_id = 2;
      offset = 0xdeadbeef;
      expected = 0x123456789abcdef0;
      actual = 0x123456789abcdef1;
      xor_diff = 1;
    };
    error_count = 1;
    min_error_offset = 0xdeadbeef;
    max_error_offset = 0xdeadbeef;
    bit_diff_or = 1;
  };
  stats = record fresh_stats { bytes_written = 6442450944; bytes_verified = 6442450944 };
  status = fail;
  thread_fallback = false;
  stop_requested = true;
  elapsed_ms = 61007;
  gpu_pumped_bytes = 0;
  gpu_pump_error_batches = 0;
  gpu_pump_verified_batches = 0;
}

hexadecimal : (llx 0xdeadbeef ≡ codes "deadbeef") × (llx_016 0x4e584d54 ≡ codes "000000004e584d54")
unfolding print_digits
hexadecimal = (refl, refl)

decimal : (llu 0 ≡ codes "0") × (llu 18446744073709551615 ≡ codes "18446744073709551615")
unfolding print_digits
decimal = (refl, refl)

format_report_read_back_example :
    let text = format_report 2048 one_error in
    (number_in 2 text ≡ 3)
    × (number_in 3 text ≡ 6)
    × (hex_in 4 text ≡ 0x4e584d54)
    × (status_in 5 text ≡ some fail)
    × (number_in 13 text ≡ 6442450944)
    × (number_in 14 text ≡ 6442450944)
    × (number_in 15 text ≡ 0)
    × (number_in 16 text ≡ 0)
    × (number_in 17 text ≡ 0)
    × (number_in 18 text ≡ 61007)
    × (number_in 19 text ≡ 1)
    × (hex_in 20 text ≡ 0xdeadbeef)
    × (hex_in 21 text ≡ 0x123456789abcdef0)
    × (hex_in 22 text ≡ 0x123456789abcdef1)
    × (hex_in 23 text ≡ 1)
format_report_read_back_example = format_report_read_back one_error (omega arith)
