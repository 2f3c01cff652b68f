-- ===== src/Report/Merge.antt =====
-- Merging the reports of two runs is recording both runs into one report.
use nx_mem_test.Base.{◌^◌, ◌<◌, ◌≡◌, refl, sym, ap, ◌∙◌, List, [], ◌∷◌, ◌++◌, length, length-append}
use nx_mem_test.Base.{min, max, arith, bit_or, bit_xor}
use nx_mem_test.Base.Or.{or_assoc, zero-or}
use mathlib.Core.List.{append-nil}
use nx_mem_test.Report.{Report, report_init, report_merge}
use nx_mem_test.Report.Summary.{Mismatch, record_all, record_all-summary, summary, all_bits}
use nx_mem_test.Report.Summary.{least_offset, greatest_offset}

least_offset-append :
    (x y : Mismatch) (xs ys : List Mismatch)
    → least_offset x (xs ++ y ∷ ys) ≡ min (least_offset x xs) (least_offset y ys)
least_offset-append x y [] ys = refl
least_offset-append x y (k ∷ ks) ys = omega (arith, least_offset-append k y ks ys)

greatest_offset-append :
    (x y : Mismatch) (xs ys : List Mismatch)
    → greatest_offset x (xs ++ y ∷ ys) ≡ max (greatest_offset x xs) (greatest_offset y ys)
greatest_offset-append x y [] ys = refl
greatest_offset-append x y (k ∷ ks) ys = omega (arith, greatest_offset-append k y ks ys)

all_bits-append : (xs ys : List Mismatch) → all_bits (xs ++ ys) ≡ bit_or (all_bits xs) (all_bits ys)
all_bits-append [] ys = sym (zero-or (all_bits ys))
all_bits-append (x ∷ xs) ys =
    ap (bit_or (bit_xor x.expected x.actual)) (all_bits-append xs ys)
    ∙ sym (or_assoc (bit_xor x.expected x.actual) (all_bits xs) (all_bits ys))

merge_nothing : (d s : Report) → report_merge d (report_init s) ≡ d
unfolding report_merge report_init
merge_nothing d s = refl

merge_first :
    (d : Report) (y : Mismatch) (ys : List Mismatch)
    → length (y ∷ ys) < 2 ^ 64
    → report_merge (report_init d) (summary y ys) ≡ summary y ys
unfolding report_merge report_init
merge_first d y ys h = ground (arith, zero-or (all_bits (y ∷ ys)))

merge_later :
    (x y : Mismatch) (xs ys : List Mismatch)
    → length (y ∷ ys) < 2 ^ 64
    → report_merge (summary x xs) (summary y ys) ≡ summary x (xs ++ y ∷ ys)
unfolding report_merge
merge_later x y xs ys h = ground (
  arith,
  least_offset-append x y xs ys,
  greatest_offset-append x y xs ys,
  all_bits-append (x ∷ xs) (y ∷ ys),
  length-append {0} xs (y ∷ ys),
)

-- If fewer than 2 ^ 64 mismatches are merged in, merging the report of the run `ys` into the
-- report of the run `xs` gives the report of the run `xs` followed by `ys`.
pub report_merge-record_all :
    (d s : Report) (xs ys : List Mismatch)
    → length ys < 2 ^ 64
    → report_merge (record_all (report_init d) xs) (record_all (report_init s) ys)
      ≡ record_all (report_init d) (xs ++ ys)
report_merge-record_all d s xs [] h =
    merge_nothing (record_all (report_init d) xs) s
    ∙ ap (record_all (report_init d)) (sym (append-nil xs))
report_merge-record_all d s [] (y ∷ ys) h =
    rw (record_all-summary s y ys, record_all-summary d y ys) (merge_first d y ys h)
report_merge-record_all d s (x ∷ xs) (y ∷ ys) h =
    rw (record_all-summary d x xs, record_all-summary s y ys, record_all-summary d x (xs ++ y ∷ ys))
      (merge_later x y xs ys h)
