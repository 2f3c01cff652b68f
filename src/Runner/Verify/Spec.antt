-- ===== src/Runner/Verify/Spec.antt =====
-- What verifying a chunk is to report, and that the recording loop reports it.
use nx_mem_test.Base.{ℕ, zero, suc, ◌+◌, ◌-◌, ◌*◌, ◌^◌, ◌≤◌, ◌<◌, ◌≡◌, refl, ap, ◌∙◌, inl, inr}
use nx_mem_test.Base.{List, [], ◌∷◌, arith, Bool-cases, add64, mul64, ◌!=◌, if◌then◌else◌, loop_by}
use nx_mem_test.Base.{loop_by-inv, stop_at}
use mathlib.Core.Path.{ap₂}
use nx_mem_test.Types.{Phase, word_bytes}
use nx_mem_test.Patterns.{expected_value}
use nx_mem_test.Report.{Report, report_record_error}
use nx_mem_test.Report.Summary.{Mismatch, record_mismatch, record_all}
use nx_mem_test.Runner.{RunConfig}
use nx_mem_test.Runner.Memory.{Mem}
use nx_mem_test.Runner.Expected.{expected_from}
use nx_mem_test.Runner.Verify.{record_differing}

abbrev pub mismatch_at : RunConfig → Phase → ℕ → ℕ → ℕ → Mismatch
mismatch_at config phase offset expected actual = record {
  mode = config.mode;
  phase = phase;
  seed = config.seed;
  pass = config.pass;
  worker_id = config.worker_id;
  offset = offset;
  expected = expected;
  actual = actual;
}

-- The words of the arena from `start` on, `n` of them, that are not what the phase expects, lowest
-- first. Word `start` of the arena is word `p` of the memory.
abbrev pub mismatches : RunConfig → Phase → Mem → ℕ → ℕ → ℕ → List Mismatch
mismatches config phase m p start zero = []
mismatches config phase m p start (suc n) =
    let expected = expected_from config.seed phase config.pass start 0 in
    let rest = mismatches config phase m (p + 1) (start + 1) n in
    if m p != expected
    then mismatch_at config phase (start * word_bytes) expected (m p) ∷ rest
    else rest

module _ (config : RunConfig) (phase : Phase) (m : Mem) (p start n : ℕ) (expected : ℕ → ℕ)
    (fits : (start + n) * word_bytes ≤ 2 ^ 64)
    (same : (k : ℕ)
      → k < n
      → expected k ≡ expected_from config.seed phase config.pass start k) where
  abbrev visit : ℕ → Report → Report
  visit k r =
      if m (p + k) != expected k
      then report_record_error r config.mode phase config.seed config.pass config.worker_id
          (add64 (mul64 start word_bytes) (mul64 k word_bytes)) (expected k) (m (p + k))
      else r

  -- What is left to report from word `k` on.
  abbrev left : ℕ → ℕ → List Mismatch
  left k r = mismatches config phase m (p + k) (start + k) r

  visit-left :
      (k r : ℕ) (report : Report)
      → k + suc r ≤ n
      → record_all (visit k report) (left (k + 1) r) ≡ record_all report (left k (suc r))
  unfolding record_mismatch
  visit-left k r report h =
      let wanted : expected k ≡ expected_from config.seed phase config.pass (start + k) 0 =
        same k (omega arith) ∙ ap (expected_value config.seed phase config.pass) (omega arith) in
      let offset : add64 (mul64 start word_bytes) (mul64 k word_bytes) ≡ (start + k) * word_bytes =
        omega arith in
      let next : left (k + 1) r ≡ mismatches config phase m (p + k + 1) (start + k + 1) r =
        ap₂ (λ a b. mismatches config phase m a b r) (omega arith) (omega arith) in
      rw (next, wanted, offset)
        (elim (Bool-cases
          (m (p + k) != expected_from config.seed phase config.pass (start + k) 0)) [
            | inl differs ↦ rw differs refl
            | inr equal ↦ rw equal refl
          ])

  pub record_differing-record_all :
      (report : Report)
      → record_differing m p n start config report phase expected
        ≡ record_all report (mismatches config phase m p start n)
  unfolding record_differing
  record_differing-record_all report =
      let done : 0 ≡ n - stop_at 1 n 0 = omega arith in
      ap (λ r. record_all (loop_by 1 n 0 visit report) (left (stop_at 1 n 0) r)) done
      ∙ loop_by-inv 1 n visit (λ k r. record_all r (left k (n - k)) ≡ record_all report (left 0 n))
          (λ k r _ lt inv.
            ap (λ j. record_all (visit k r) (left (k + 1) j)) {x = n - (k + 1)} (omega arith)
            ∙ visit-left k (n - k - 1) r (omega arith)
            ∙ ap (λ j. record_all r (left k j)) {x = suc (n - k - 1)} (omega arith)
            ∙ inv)
          0 report (omega arith) (omega arith)
          (ap (λ r. record_all report (left 0 r)) (omega arith))
      ∙ ap₂ (λ a b. record_all report (mismatches config phase m a b n)) (omega arith) (omega arith)

-- Nothing is to be reported where all words are as expected.
pub mismatches-none :
    (config : RunConfig) (phase : Phase) (m : Mem) (p start n : ℕ)
    → ((k : ℕ) → k < n → m (p + k) ≡ expected_from config.seed phase config.pass start k)
    → mismatches config phase m p start n ≡ []
mismatches-none config phase m p start zero same = refl
mismatches-none config phase m p start (suc n) same =
    let value = expected_value config.seed phase config.pass in
    let here : m p ≡ expected_from config.seed phase config.pass start 0 =
      ap m (omega arith) ∙ same 0 (omega arith) in
    let rest = mismatches-none config phase m (p + 1) (start + 1) n (λ k lt.
      ap m {x = p + 1 + k} (omega arith)
      ∙ same (k + 1) (omega arith)
      ∙ ap value {x = (start + (k + 1)) * word_bytes} (omega arith)) in
    rw (here, rest) (ground arith)
