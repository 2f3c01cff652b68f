-- ===== src/Report/Tests.antt =====
-- Runs of the report functions.
use nx_mem_test.Base.{ℕ, ◌≡◌, refl, false, [], ◌∷◌, ◌++◌, arith}
use nx_mem_test.Types.{quick, address, random}
use nx_mem_test.Report.{Report, report_init, report_merge, report_record_error}
use nx_mem_test.Report.Summary.{Mismatch, record_mismatch, record_all, record_all-summary, summary}
use nx_mem_test.Report.Merge.{report_merge-record_all}

abbrev mismatch : ℕ → ℕ → ℕ → Mismatch
mismatch offset expected actual = record {
  mode = quick;
  phase = address;
  seed = 5;
  pass = 0;
  worker_id = 1;
  offset = offset;
  expected = expected;
  actual = actual;
}

abbrev blank : Report
blank = record {
  has_first_error = false;
  first = record {
    mode = quick;
    phase = random;
    seed = 0;
    pass = 0;
    worker_id = 0;
    offset = 0;
    expected = 0;
    actual = 0;
    xor_diff = 0;
  };
  error_count = 0;
  min_error_offset = 0;
  max_error_offset = 0;
  bit_diff_or = 0;
}

two_errors :
    let r = record_all (report_init blank) (mismatch 64 0xff 0xfe ∷ mismatch 16 0 8 ∷ []) in
    (r.error_count ≡ 2)
    × (r.min_error_offset ≡ 16)
    × (r.max_error_offset ≡ 64)
    × (r.bit_diff_or ≡ 9)
    × (r.first.offset ≡ 64)
unfolding report_init report_record_error record_mismatch
two_errors = (refl, refl, refl, refl, refl)

record_all-summary_example :
    record_all (report_init blank) (mismatch 64 0xff 0xfe ∷ mismatch 16 0 8 ∷ [])
    ≡ summary (mismatch 64 0xff 0xfe) (mismatch 16 0 8 ∷ [])
record_all-summary_example = record_all-summary blank (mismatch 64 0xff 0xfe) (mismatch 16 0 8 ∷ [])

report_merge-record_all_example :
    report_merge
      (record_all (report_init blank) (mismatch 64 0xff 0xfe ∷ []))
      (record_all (report_init blank) (mismatch 16 0 8 ∷ []))
    ≡ record_all (report_init blank) ((mismatch 64 0xff 0xfe ∷ []) ++ (mismatch 16 0 8 ∷ []))
report_merge-record_all_example =
    report_merge-record_all blank blank (mismatch 64 0xff 0xfe ∷ []) (mismatch 16 0 8 ∷ [])
      (omega arith)
