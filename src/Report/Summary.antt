-- ===== src/Report/Summary.antt =====
-- What a report says of the errors recorded in it, in order.
use nx_mem_test.Base.{ℕ, ◌+◌, ◌^◌, ◌<◌, ◌≡◌, refl, ◌∙◌, ap, true, List, [], ◌∷◌, ◌++◌}
use nx_mem_test.Base.{length, min, max, arith, bit_or, bit_xor, u64}
use nx_mem_test.Base.Or.{or_assoc, zero-or, or-zero}
use nx_mem_test.Types.{Mode, Phase}
use nx_mem_test.Report.{Error, Report, report_init, report_record_error}

-- The arguments of one call of `report_record_error`.
pub record Mismatch : Type 0 where
  pub mode : Mode
  pub phase : Phase
  pub seed : ℕ
  pub pass : ℕ
  pub worker_id : ℕ
  pub offset : ℕ
  pub expected : ℕ
  pub actual : ℕ

unfoldable pub record_mismatch : Report → Mismatch → Report
unfolding report_record_error
record_mismatch r m =
    report_record_error r m.mode m.phase m.seed m.pass m.worker_id m.offset m.expected m.actual

abbrev pub record_all : Report → List Mismatch → Report
record_all r [] = r
record_all r (m ∷ ms) = record_all (record_mismatch r m) ms

abbrev pub error_of : Mismatch → Error
error_of m = record {
  mode = m.mode;
  phase = m.phase;
  seed = m.seed;
  pass = m.pass;
  worker_id = m.worker_id;
  offset = m.offset;
  expected = m.expected;
  actual = m.actual;
  xor_diff = bit_xor m.expected m.actual;
}

abbrev pub least_offset : Mismatch → List Mismatch → ℕ
least_offset m [] = m.offset
least_offset m (k ∷ ks) = min m.offset (least_offset k ks)

abbrev pub greatest_offset : Mismatch → List Mismatch → ℕ
greatest_offset m [] = m.offset
greatest_offset m (k ∷ ks) = max m.offset (greatest_offset k ks)

abbrev pub all_bits : List Mismatch → ℕ
all_bits [] = 0
all_bits (m ∷ ms) = bit_or (bit_xor m.expected m.actual) (all_bits ms)

pub record_all-append :
    (r : Report) (xs ys : List Mismatch) → record_all r (xs ++ ys) ≡ record_all (record_all r xs) ys
record_all-append r [] ys = refl
record_all-append r (x ∷ xs) ys = record_all-append (record_mismatch r x) xs ys

-- Recording into a report that has a first error already.
abbrev later : Report → Mismatch → List Mismatch → Report
later r m ms = record r {
  error_count = u64 (r.error_count + length (m ∷ ms));
  min_error_offset = min r.min_error_offset (least_offset m ms);
  max_error_offset = max r.max_error_offset (greatest_offset m ms);
  bit_diff_or = bit_or r.bit_diff_or (all_bits (m ∷ ms));
}

record_mismatch-later :
    (r : Report) (m : Mismatch) → r.has_first_error ≡ true → record_mismatch r m ≡ later r m []
unfolding record_mismatch
record_mismatch-later r m e = ground (arith, or-zero (bit_xor m.expected m.actual))

later-later :
    (r : Report) (m k : Mismatch) (ks : List Mismatch)
    → later (later r m []) k ks ≡ later r m (k ∷ ks)
later-later r m k ks = ground (
  arith,
  or-zero (bit_xor m.expected m.actual),
  or_assoc r.bit_diff_or (bit_xor m.expected m.actual) (all_bits (k ∷ ks)),
)

record_all-later :
    (r : Report) (m : Mismatch) (ms : List Mismatch)
    → r.has_first_error ≡ true
    → record_all r (m ∷ ms) ≡ later r m ms
record_all-later r m [] e = record_mismatch-later r m e
record_all-later r m (k ∷ ks) e =
    let one = record_mismatch-later r m e in
    let known : (record_mismatch r m).has_first_error ≡ true = rw one e in
    record_all-later (record_mismatch r m) k ks known
    ∙ ap (λ q. later q k ks) one
    ∙ later-later r m k ks

-- The report of a non-empty run of mismatches, starting from an initialised report.
abbrev pub summary : Mismatch → List Mismatch → Report
summary m ms = record {
  has_first_error = true;
  first = error_of m;
  error_count = u64 (length (m ∷ ms));
  min_error_offset = least_offset m ms;
  max_error_offset = greatest_offset m ms;
  bit_diff_or = all_bits (m ∷ ms);
}

first_mismatch : (r : Report) (m : Mismatch) → record_mismatch (report_init r) m ≡ summary m []
unfolding record_mismatch report_init
first_mismatch r m =
    ground (arith, zero-or (bit_xor m.expected m.actual), or-zero (bit_xor m.expected m.actual))

-- Recording any non-empty sequence of mismatches into an initialised report, whatever it held
-- before, keeps the first of them, their number modulo 2 ^ 64, their least and greatest offset,
-- and the union of the bits that differed.
pub record_all-summary :
    (r : Report) (m : Mismatch) (ms : List Mismatch)
    → record_all (report_init r) (m ∷ ms) ≡ summary m ms
record_all-summary r m [] = first_mismatch r m
record_all-summary r m (k ∷ ks) =
    ap (λ q. record_all q (k ∷ ks)) (first_mismatch r m)
    ∙ record_all-later (summary m []) k ks refl
    ∙ summary-later
  where
    summary-later : later (summary m []) k ks ≡ summary m (k ∷ ks)
    summary-later = ground (
      arith,
      or-zero (bit_xor m.expected m.actual),
      or_assoc (bit_xor m.expected m.actual) 0 (all_bits (k ∷ ks)),
    )

record_mismatch-error_count :
    (r : Report) (m : Mismatch) → (record_mismatch r m).error_count ≡ u64 (r.error_count + 1)
unfolding record_mismatch
record_mismatch-error_count r m = ground arith

-- Every mismatch counts once, modulo 2 ^ 64.
pub record_all-error_count :
    (r : Report) (ms : List Mismatch)
    → r.error_count < 2 ^ 64
    → (record_all r ms).error_count ≡ u64 (r.error_count + length ms)
record_all-error_count r [] h = omega arith
record_all-error_count r (m ∷ ms) h =
    let one = record_mismatch-error_count r m in
    let rest = record_all-error_count (record_mismatch r m) ms (omega (arith, one)) in
    omega (arith, one, rest)
