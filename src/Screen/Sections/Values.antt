-- ===== src/Screen/Sections/Values.antt =====
-- The values that the boxes show are short enough for a row.
use nx_mem_test.Base.{
  ℕ, ◌-◌, ◌*◌, ◌/◌, ◌%◌, ◌^◌, ◌≤◌, ◌<◌, ◌≡◌, refl, Bool, true, false, List, ◌++◌, length, arith,
  ltb, leb, if◌then◌else◌, mul64,
}
use nx_mem_test.Base.Text.{codes, cut}
use nx_mem_test.Base.Digits.{llu}
use nx_mem_test.Types.{
  Mode, quick, memory_load, extreme, Status, pass, fail, aborted, unsupported, mib_bytes,
}
use nx_mem_test.Arena.Percent.{percent_milli}
use nx_mem_test.Arena.Select.{
  MemorySource, source_none, physical_pools, process_total, override_heap,
}
use nx_mem_test.ReportText.{mode_name, status_name, memory_source_name, or_zero}
use nx_mem_test.Screen.Rows.Spans.{is_plain}
use nx_mem_test.Screen.Sections.{
  format_size_mib, format_percent, format_elapsed, format_amount, verified_arena, throughput,
}
use nx_mem_test.Screen.Sections.Printed.{
  Printed, ◌⊕◌, literal-Printed, Printed-le, cut-Printed, llu-Printed, llu-Printed_below,
  llu_0-Printed,
}

-- What holds of both branches holds of the conditional.
pub on_branches :
    {A : Type 0} {x y : A} (P : A → Type 0) (b : Bool) → P x → P y → P (if b then x else y)
on_branches P false _ otherwise = otherwise
on_branches P true chosen _ = chosen

pub literal : (s : List ℕ) → is_plain s ≡ true → length s ≤ 49 → Printed 49 s
literal s plain short = Printed-le 49 (literal-Printed s plain) short

pub mode_name-Printed : (mode : Mode) → Printed 49 (mode_name mode)
mode_name-Printed quick = literal (codes "Quick Check") refl (omega arith)
mode_name-Printed memory_load = literal (codes "Memory Load") refl (omega arith)
mode_name-Printed extreme = literal (codes "Extreme") refl (omega arith)

pub status_name-Printed : (status : Status) → Printed 49 (status_name status)
status_name-Printed pass = literal (codes "PASS") refl (omega arith)
status_name-Printed fail = literal (codes "FAIL") refl (omega arith)
status_name-Printed aborted = literal (codes "ABORTED") refl (omega arith)
status_name-Printed unsupported = literal (codes "UNSUPPORTED") refl (omega arith)

pub memory_source_name-Printed : (source : MemorySource) → Printed 49 (memory_source_name source)
memory_source_name-Printed source_none = literal (codes "none") refl (omega arith)
memory_source_name-Printed physical_pools = literal (codes "physical-pools") refl (omega arith)
memory_source_name-Printed process_total = literal (codes "process-total") refl (omega arith)
memory_source_name-Printed override_heap = literal (codes "override-heap") refl (omega arith)

pub number : (n : ℕ) → Printed 49 (cut 63 (llu n))
number n = cut-Printed 63 (Printed-le 49 (llu-Printed n) (omega arith))

-- A number behind which a word stands.
pub counted : (n : ℕ) (s : List ℕ) → is_plain s ≡ true → length s ≤ 29 → Printed 49 (llu n ++ s)
counted n s plain short = Printed-le 49 (llu-Printed n ⊕ literal-Printed s plain) (omega arith)

pub format_size_mib-Printed : (size bytes : ℕ) → Printed 49 (format_size_mib size bytes)
format_size_mib-Printed size bytes =
    cut-Printed (size - 1) (counted (bytes / mib_bytes) (codes " MiB") refl (omega arith))

pub format_percent-Printed : (size milli : ℕ) → Printed 49 (format_percent size milli)
format_percent-Printed size milli = cut-Printed (size - 1) (
    Printed-le 49
      (llu-Printed (milli / 1000)
        ⊕ literal-Printed (codes ".") refl
        ⊕ llu_0-Printed 3 (milli % 1000) (llu-Printed (milli % 1000))
        ⊕ literal-Printed (codes "%") refl)
      (omega arith))

pub format_elapsed-Printed : (size ms : ℕ) → Printed 49 (format_elapsed size ms)
format_elapsed-Printed size ms =
    let secs = ms / 1000 in
    cut-Printed (size - 1) (
      Printed-le 49
        (llu_0-Printed 2 (secs / 60) (llu-Printed (secs / 60))
          ⊕ literal-Printed (codes ":") refl
          ⊕ llu_0-Printed 2 (secs % 60) (llu-Printed (secs % 60)))
        (omega arith))

pub format_amount-Printed : (bytes : ℕ) → Printed 49 (format_amount bytes)
format_amount-Printed bytes =
    let gib_x100 = mul64 bytes 100 / (1024 * mib_bytes) in
    cut-Printed 63 (
      on_branches (Printed 49) (leb (1024 * mib_bytes) bytes)
        (Printed-le 49
          (llu-Printed (gib_x100 / 100)
            ⊕ literal-Printed (codes ".") refl
            ⊕ llu_0-Printed 2 (gib_x100 % 100) (llu-Printed_below 1 (gib_x100 % 100) (omega arith))
            ⊕ literal-Printed (codes " GiB") refl)
          (omega arith))
        (counted (bytes / mib_bytes) (codes " MiB") refl (omega arith)))

pub verified_arena-Printed :
    (bytes_verified size : ℕ) → size < 2 ^ 64 → Printed 49 (verified_arena bytes_verified size)
verified_arena-Printed bytes_verified size small =
    let progress = if ltb size bytes_verified then size else bytes_verified in
    let pmilli = or_zero (percent_milli progress size) in
    cut-Printed 95 (
      Printed-le 49
        (llu-Printed (pmilli / 1000)
          ⊕ literal-Printed (codes ".") refl
          ⊕ llu_0-Printed 3 (pmilli % 1000) (llu-Printed_below 2 (pmilli % 1000) (omega arith))
          ⊕ literal-Printed (codes "% of ") refl
          ⊕ llu-Printed_below 13 (size / mib_bytes) (omega arith)
          ⊕ literal-Printed (codes " MiB") refl)
        (omega arith))

pub throughput-Printed :
    (total_bytes elapsed_ms : ℕ) → Printed 49 (throughput total_bytes elapsed_ms)
throughput-Printed total_bytes elapsed_ms =
    let mb_per_s = mul64 (total_bytes / 1000000) 1000 / elapsed_ms in
    cut-Printed 63 (
      on_branches (Printed 49) (leb 1000 mb_per_s)
        (Printed-le 49
          (llu-Printed (mb_per_s / 1000)
            ⊕ literal-Printed (codes ".") refl
            ⊕ llu-Printed (mb_per_s % 1000 / 100)
            ⊕ literal-Printed (codes " GB/s") refl)
          (omega arith))
        (counted mb_per_s (codes " MB/s") refl (omega arith)))
