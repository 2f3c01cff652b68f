-- ===== src/ReportText/Fits.antt =====
-- The text of the report fits into the buffer that `main` gives to `format_report`.
use nx_mem_test.Base.{
  ℕ, ◌+◌, ◌≤◌, ◌≡◌, true, false, List, [], ◌∷◌, ◌++◌, length, length-append, arith, Bool,
}
use nx_mem_test.Base.Text.{codes, cut_fits}
use nx_mem_test.Base.Digits.{length-llx_016, length-llx, length-llu}
use nx_mem_test.Types.{Mode, quick, memory_load, extreme, Status, pass, fail, aborted, unsupported}
use nx_mem_test.Arena.Select.{
  MemorySource, source_none, physical_pools, process_total, override_heap,
}
use nx_mem_test.ReportText.{
  Facts, mode_name, status_name, memory_source_name, yes_no, report_rows, text_of, format_report,
}

-- No value has more than 20 characters.
abbrev AllShort : List (List ℕ × List ℕ) → Type 0
AllShort [] = Unit {0}
AllShort (row ∷ rows) = (length row.1 ≤ 20) × AllShort rows

-- What such rows need at most.
abbrev room : List (List ℕ × List ℕ) → ℕ
room [] = 0
room (row ∷ rows) = length row.0 + 21 + room rows

length-text_of : (rows : List (List ℕ × List ℕ)) → AllShort rows → length (text_of rows) ≤ room rows
length-text_of [] h = omega arith
length-text_of (row ∷ rows) h = omega (
  arith,
  length-append (row.0 ++ row.1 ++ codes "\n") (text_of rows),
  length-append (row.0 ++ row.1) (codes "\n"),
  length-append row.0 row.1,
  h.0,
  length-text_of rows h.1,
)

length-mode_name : (mode : Mode) → length (mode_name mode) ≤ 20
length-mode_name quick = omega arith
length-mode_name memory_load = omega arith
length-mode_name extreme = omega arith

length-status_name : (status : Status) → length (status_name status) ≤ 20
length-status_name pass = omega arith
length-status_name fail = omega arith
length-status_name aborted = omega arith
length-status_name unsupported = omega arith

length-memory_source_name : (source : MemorySource) → length (memory_source_name source) ≤ 20
length-memory_source_name source_none = omega arith
length-memory_source_name physical_pools = omega arith
length-memory_source_name process_total = omega arith
length-memory_source_name override_heap = omega arith

length-yes_no : (b : Bool) → length (yes_no b) ≤ 20
length-yes_no true = omega arith
length-yes_no false = omega arith

report_rows-AllShort : (facts : Facts) → AllShort (report_rows facts)
unfolding report_rows
report_rows-AllShort facts = (
  length-mode_name facts.mode,
  (
    length-llu _,
    (
      length-llu _,
      (
        length-llx_016 _,
        (
          length-status_name facts.status,
          (
            length-yes_no _,
            (
              length-yes_no _,
              (
                length-llu _,
                (
                  length-llu _,
                  (
                    length-memory_source_name _,
                    (
                      length-yes_no _,
                      (
                        length-llu _,
                        (
                          length-llu _,
                          (
                            length-llu _,
                            (
                              length-llu _,
                              (
                                length-llu _,
                                (
                                  length-llu _,
                                  (
                                    length-llu _,
                                    (
                                      length-llu _,
                                      (
                                        length-llx _,
                                        (
                                          length-llx_016 _,
                                          (length-llx_016 _, (length-llx_016 _, tt)),
                                        ),
                                      ),
                                    ),
                                  ),
                                ),
                              ),
                            ),
                          ),
                        ),
                      ),
                    ),
                  ),
                ),
              ),
            ),
          ),
        ),
      ),
    ),
  ),
)

length-report :
    (facts : Facts) → length (codes "NX-MemTest Report\n" ++ text_of (report_rows facts)) ≤ 2047
unfolding report_rows
length-report facts = omega (
  arith,
  length-append (codes "NX-MemTest Report\n") (text_of (report_rows facts)),
  length-text_of (report_rows facts) (report_rows-AllShort facts),
)

-- The buffer of `main` never cuts the report.
pub format_report_whole :
    (facts : Facts)
    → format_report 2048 facts ≡ codes "NX-MemTest Report\n" ++ text_of (report_rows facts)
unfolding format_report
format_report_whole facts =
    cut_fits 2047 (codes "NX-MemTest Report\n" ++ text_of (report_rows facts)) (length-report facts)
