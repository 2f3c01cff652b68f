-- ===== src/ReportText/Read.antt =====
-- The report in the log file is read back.
use nx_mem_test.Base.{
  ℕ, ◌<◌, ◌^◌, ◌≡◌, refl, ap, ◌∙◌, Bool, true, false, List, [], ◌∷◌, arith, ◌==◌, if◌then◌else◌,
  Option, none, some,
}
use nx_mem_test.Base.Text.{codes}
use nx_mem_test.Base.Digits.{
  llu, llx_016, IsLine, read_digits, print_digits-IsLine, llx_016-IsLine, llu_lem, llx_lem,
  llx_016_lem,
}
use nx_mem_test.Types.{Mode, quick, memory_load, extreme, Status, pass, fail, aborted, unsupported}
use nx_mem_test.Arena.Select.{
  MemorySource, source_none, physical_pools, process_total, override_heap,
}
use nx_mem_test.ReportText.{
  Facts, mode_name, status_name, memory_source_name, yes_no, of_first, report_rows, text_of,
  format_report,
}
use nx_mem_test.ReportText.Lines.{
  lines, lines-row, lines-text_of, behind, behind_0x, line_at, is_line-IsLine, AllLines, joined,
}
use nx_mem_test.ReportText.Fits.{format_report_whole}

mode_name-IsLine : (mode : Mode) → IsLine (mode_name mode)
mode_name-IsLine quick = is_line-IsLine (codes "Quick Check") refl
mode_name-IsLine memory_load = is_line-IsLine (codes "Memory Load") refl
mode_name-IsLine extreme = is_line-IsLine (codes "Extreme") refl

status_name-IsLine : (status : Status) → IsLine (status_name status)
status_name-IsLine pass = is_line-IsLine (codes "PASS") refl
status_name-IsLine fail = is_line-IsLine (codes "FAIL") refl
status_name-IsLine aborted = is_line-IsLine (codes "ABORTED") refl
status_name-IsLine unsupported = is_line-IsLine (codes "UNSUPPORTED") refl

memory_source_name-IsLine : (source : MemorySource) → IsLine (memory_source_name source)
memory_source_name-IsLine source_none = is_line-IsLine (codes "none") refl
memory_source_name-IsLine physical_pools = is_line-IsLine (codes "physical-pools") refl
memory_source_name-IsLine process_total = is_line-IsLine (codes "process-total") refl
memory_source_name-IsLine override_heap = is_line-IsLine (codes "override-heap") refl

yes_no-IsLine : (b : Bool) → IsLine (yes_no b)
yes_no-IsLine true = is_line-IsLine (codes "yes") refl
yes_no-IsLine false = is_line-IsLine (codes "no") refl

llu-IsLine : (n : ℕ) → IsLine (llu n)
llu-IsLine n = print_digits-IsLine 10 20 n

report_rows-AllLines : (facts : Facts) → AllLines (report_rows facts)
unfolding report_rows
report_rows-AllLines facts = (
  refl,
  mode_name-IsLine facts.mode,
  (
    refl,
    llu-IsLine _,
    (
      refl,
      llu-IsLine _,
      (
        refl,
        llx_016-IsLine _,
        (
          refl,
          status_name-IsLine facts.status,
          (
            refl,
            yes_no-IsLine _,
            (
              refl,
              yes_no-IsLine _,
              (
                refl,
                llu-IsLine _,
                (
                  refl,
                  llu-IsLine _,
                  (
                    refl,
                    memory_source_name-IsLine _,
                    (
                      refl,
                      yes_no-IsLine _,
                      (
                        refl,
                        llu-IsLine _,
                        (
                          refl,
                          llu-IsLine _,
                          (
                            refl,
                            llu-IsLine _,
                            (
                              refl,
                              llu-IsLine _,
                              (
                                refl,
                                llu-IsLine _,
                                (
                                  refl,
                                  llu-IsLine _,
                                  (
                                    refl,
                                    llu-IsLine _,
                                    (
                                      refl,
                                      llu-IsLine _,
                                      (
                                        refl,
                                        print_digits-IsLine 16 16 _,
                                        (
                                          refl,
                                          llx_016-IsLine _,
                                          (refl, llx_016-IsLine _, (refl, llx_016-IsLine _, tt)),
                                        ),
                                      ),
                                    ),
                                  ),
                                ),
                              ),
                            ),
                          ),
                        ),
                      ),
                    ),
                  ),
                ),
              ),
            ),
          ),
        ),
      ),
    ),
  ),
)

-- The lines of a report are its heading and its rows.
lines-format_report :
    (facts : Facts)
    → lines (format_report 2048 facts) ≡ codes "NX-MemTest Report" ∷ joined (report_rows facts)
lines-format_report facts =
    ap lines (format_report_whole facts)
    ∙ lines-row (codes "NX-MemTest Report") (text_of (report_rows facts))
        (is_line-IsLine (codes "NX-MemTest Report") refl)
    ∙ ap (λ ls. codes "NX-MemTest Report" ∷ ls)
        (lines-text_of (report_rows facts) (report_rows-AllLines facts))

abbrev read_status : List ℕ → Option Status
read_status [] = none
read_status (c ∷ s) =
    if c == b'P'
    then some pass
    else if c == b'F'
    then some fail
    else if c == b'A'
    then some aborted
    else some unsupported

read_status-status_name : (status : Status) → read_status (status_name status) ≡ some status
read_status-status_name pass = refl
read_status-status_name fail = refl
read_status-status_name aborted = refl
read_status-status_name unsupported = refl

-- The number in line `k` of a report, in decimal and behind `0x`, and the status.
abbrev pub number_in : ℕ → List ℕ → ℕ
number_in k text = read_digits 10 0 (behind (line_at k (lines text)))

abbrev pub hex_in : ℕ → List ℕ → ℕ
hex_in k text = read_digits 16 0 (behind_0x (line_at k (lines text)))

abbrev pub status_in : ℕ → List ℕ → Option Status
status_in k text = read_status (behind (line_at k (lines text)))

-- All numbers of the report that are read back are numbers of 64 bits.
abbrev pub IsSmall : Facts → Type 0
IsSmall facts =
    (facts.workers < 2 ^ 64)
    × (facts.completed_workers < 2 ^ 64)
    × (facts.seed < 2 ^ 64)
    × (facts.stats.bytes_written < 2 ^ 64)
    × (facts.stats.bytes_verified < 2 ^ 64)
    × (facts.gpu_pumped_bytes < 2 ^ 64)
    × (facts.gpu_pump_verified_batches < 2 ^ 64)
    × (facts.gpu_pump_error_batches < 2 ^ 64)
    × (facts.elapsed_ms < 2 ^ 64)
    × (facts.report.error_count < 2 ^ 64)
    × (of_first facts.report (λ e. e.offset) < 2 ^ 64)
    × (of_first facts.report (λ e. e.expected) < 2 ^ 64)
    × (of_first facts.report (λ e. e.actual) < 2 ^ 64)
    × (of_first facts.report (λ e. e.xor_diff) < 2 ^ 64)

-- If its numbers have 64 bits, the report is read back from the buffer of 2048 characters: its
-- lines give the numbers of workers, the seed, the status, the bytes written and verified, what the
-- GPU has copied, the batches it has verified and those that differed, the elapsed time, the number
-- of errors, and the offset and the words of the first error, or 0 where there is none.
pub format_report_read_back :
    (facts : Facts)
    → IsSmall facts
    → let text = format_report 2048 facts in
      (number_in 2 text ≡ facts.workers)
      × (number_in 3 text ≡ facts.completed_workers)
      × (hex_in 4 text ≡ facts.seed)
      × (status_in 5 text ≡ some facts.status)
      × (number_in 13 text ≡ facts.stats.bytes_written)
      × (number_in 14 text ≡ facts.stats.bytes_verified)
      × (number_in 15 text ≡ facts.gpu_pumped_bytes)
      × (number_in 16 text ≡ facts.gpu_pump_verified_batches)
      × (number_in 17 text ≡ facts.gpu_pump_error_batches)
      × (number_in 18 text ≡ facts.elapsed_ms)
      × (number_in 19 text ≡ facts.report.error_count)
      × (hex_in 20 text ≡ of_first facts.report (λ e. e.offset))
      × (hex_in 21 text ≡ of_first facts.report (λ e. e.expected))
      × (hex_in 22 text ≡ of_first facts.report (λ e. e.actual))
      × (hex_in 23 text ≡ of_first facts.report (λ e. e.xor_diff))
unfolding report_rows
format_report_read_back facts small =
    let found = lines-format_report facts in
    let decimal : (k n : ℕ)
        → n < 2 ^ 64
        → behind (line_at k (codes "NX-MemTest Report" ∷ joined (report_rows facts))) ≡ llu n
        → number_in k (format_report 2048 facts) ≡ n =
      λ k n lt e.
        ap (λ ls. read_digits 10 0 (behind (line_at k ls))) found
        ∙ ap (read_digits 10 0) e
        ∙ llu_lem n lt in
    let padded : (k n : ℕ)
        → n < 2 ^ 64
        → behind_0x (line_at k (codes "NX-MemTest Report" ∷ joined (report_rows facts))) ≡ llx_016 n
        → hex_in k (format_report 2048 facts) ≡ n =
      λ k n lt e.
        ap (λ ls. read_digits 16 0 (behind_0x (line_at k ls))) found
        ∙ ap (read_digits 16 0) e
        ∙ llx_016_lem n lt in
    (
      decimal 2 facts.workers (omega arith) refl,
      decimal 3 facts.completed_workers (omega arith) refl,
      padded 4 facts.seed (omega arith) refl,
      ap (λ ls. read_status (behind (line_at 5 ls))) found ∙ read_status-status_name facts.status,
      decimal 13 facts.stats.bytes_written (omega arith) refl,
      decimal 14 facts.stats.bytes_verified (omega arith) refl,
      decimal 15 facts.gpu_pumped_bytes (omega arith) refl,
      decimal 16 facts.gpu_pump_verified_batches (omega arith) refl,
      decimal 17 facts.gpu_pump_error_batches (omega arith) refl,
      decimal 18 facts.elapsed_ms (omega arith) refl,
      decimal 19 facts.report.error_count (omega arith) refl,
      ap (λ ls. read_digits 16 0 (behind_0x (line_at 20 ls))) found
          ∙ llx_lem (of_first facts.report (λ e. e.offset)) (omega arith),
      padded 21 (of_first facts.report (λ e. e.expected)) (omega arith) refl,
      padded 22 (of_first facts.report (λ e. e.actual)) (omega arith) refl,
      padded 23 (of_first facts.report (λ e. e.xor_diff)) (omega arith) refl,
    )
