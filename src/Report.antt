-- ===== src/Report.antt =====
-- source/core/report.c: the errors that a pass found, kept as totals and the first one.
pub mod Summary
pub mod Merge
mod Tests
use nx_mem_test.Base.{ℕ, Bool, true, false, not, ◌&&◌, bit_or, bit_xor}
use nx_mem_test.Base.{add64, ltb, ◌==◌, if◌then◌else◌}
use nx_mem_test.Types.{Mode, Phase}

-- `NxmtError`
pub record Error : Type 0 where
  pub mode : Mode
  pub phase : Phase
  pub seed : ℕ
  pub pass : ℕ
  pub worker_id : ℕ
  pub offset : ℕ
  pub expected : ℕ
  pub actual : ℕ
  pub xor_diff : ℕ

-- `NxmtReport`
pub record Report : Type 0 where
  pub has_first_error : Bool
  pub first : Error
  pub error_count : ℕ
  pub min_error_offset : ℕ
  pub max_error_offset : ℕ
  pub bit_diff_or : ℕ

-- `first` keeps what stood there before.
unfoldable pub report_init : Report → Report
report_init report = record report {
  has_first_error = false;
  error_count = 0;
  min_error_offset = 0;
  max_error_offset = 0;
  bit_diff_or = 0;
}

-- The two branches that follow the computation of `diff`.
unfoldable pub note_offset : Report → Error → Report
note_offset report error =
    if not report.has_first_error
    then (record report {
      has_first_error = true;
      first = error;
      min_error_offset = error.offset;
      max_error_offset = error.offset;
    })
    else (record report {
      min_error_offset =
          if ltb error.offset report.min_error_offset
          then error.offset
          else report.min_error_offset;
      max_error_offset =
          if ltb report.max_error_offset error.offset
          then error.offset
          else report.max_error_offset;
    })

unfoldable pub report_record_error : Report → Mode → Phase → ℕ → ℕ → ℕ → ℕ → ℕ → ℕ → Report
unfolding note_offset
report_record_error report mode phase seed pass worker_id offset expected actual =
    let diff = bit_xor expected actual in
    let noted = note_offset report (record {
      mode = mode;
      phase = phase;
      seed = seed;
      pass = pass;
      worker_id = worker_id;
      offset = offset;
      expected = expected;
      actual = actual;
      xor_diff = diff;
    }) in
    record noted {
      error_count = add64 noted.error_count 1;
      bit_diff_or = bit_or noted.bit_diff_or diff;
    }

-- The two branches of the merge.
unfoldable pub merge_offsets : Report → Report → Report
merge_offsets dst src =
    if not dst.has_first_error && src.has_first_error
    then (record dst {
      has_first_error = true;
      first = src.first;
      min_error_offset = src.min_error_offset;
      max_error_offset = src.max_error_offset;
    })
    else (record dst {
      min_error_offset =
          if ltb src.min_error_offset dst.min_error_offset
          then src.min_error_offset
          else dst.min_error_offset;
      max_error_offset =
          if ltb dst.max_error_offset src.max_error_offset
          then src.max_error_offset
          else dst.max_error_offset;
    })

unfoldable pub report_merge : Report → Report → Report
unfolding merge_offsets
report_merge dst src =
    if src.error_count == 0
    then dst
    else let merged = merge_offsets dst src in
      record merged {
        error_count = add64 merged.error_count src.error_count;
        bit_diff_or = bit_or merged.bit_diff_or src.bit_diff_or;
      }
