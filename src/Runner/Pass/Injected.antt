-- ===== src/Runner/Pass/Injected.antt =====
-- The mismatch that a pass is told to inject is found.
use nx_mem_test.Base.{ℕ, suc, ◌+◌, ◌-◌, ◌*◌, ◌^◌, ◌<◌, ◌≡◌, ◌≢◌, refl, sym, ap, ◌∙◌}
use nx_mem_test.Base.{Bool, true, false, some, List, [], ◌∷◌, ◌++◌, arith, length, lt→ltb}
use mathlib.Core.Path.{ap₂}
use nx_mem_test.Base.{bit_xor, ◌!=◌, if◌then◌else◌}
use nx_mem_test.Base.Xor.{xor_self, xor_assoc, zero-xor}
use nx_mem_test.Types.{Mode, quick, memory_load, extreme, pass, fail, Phase, word_bytes}
use nx_mem_test.Arena.{Arena}
use nx_mem_test.Patterns.{expected_value}
use nx_mem_test.Report.{Report}
use nx_mem_test.Report.Summary.{Mismatch, record_all, record_all-error_count}
use nx_mem_test.Runner.{RunConfig, RunStats}
use nx_mem_test.Runner.Memory.{Mem, store, fill, fill-inside}
use nx_mem_test.Runner.Expected.{expected_from}
use nx_mem_test.Runner.Verify.Spec.{mismatch_at, mismatches, mismatches-none}
use nx_mem_test.Runner.Chunks.{stop_requested}
use nx_mem_test.Runner.Pass.{run_pass, is_supported}
use nx_mem_test.Runner.Chunks.{phase_count_for_mode}
use nx_mem_test.Runner.Pass.Spec.{pass_mismatches, phases_of, read_back}
use nx_mem_test.Runner.Pass.Verdict.{slice_start, slice_words, slice_address}
use nx_mem_test.Runner.Pass.Verdict.{run_pass_lem}
use nx_mem_test.Runner.Pass.Sound.{sound}

-- The mismatch that injection makes of the first word of the slice in a phase, and in each phase.
abbrev pub injected_mismatch : RunConfig → ℕ → Phase → Mismatch
injected_mismatch config start phase =
    let expected = expected_from config.seed phase config.pass start 0 in
    mismatch_at config phase (start * word_bytes) expected (bit_xor expected 0x100)

abbrev pub injected_mismatches : RunConfig → ℕ → List Phase → List Mismatch
injected_mismatches config start [] = []
injected_mismatches config start (phase ∷ phases) =
    injected_mismatch config start phase ∷ injected_mismatches config start phases

flipped : (e : ℕ) → bit_xor e 0x100 ≢ e
flipped e same =
    let twice : bit_xor e (bit_xor e 0x100) ≡ 0 = ap (bit_xor e) same ∙ xor_self e in
    let bit : bit_xor e (bit_xor e 0x100) ≡ 0x100 =
      sym (xor_assoc e e 0x100) ∙ ap (λ t. bit_xor t 0x100) (xor_self e) ∙ zero-xor 0x100 in
    absurd (omega (arith, twice, bit))

-- One mismatch in the first word, and none behind it.
one_mismatch :
    (config : RunConfig) (phase : Phase) (m : Mem) (slice start c : ℕ)
    → m slice ≡ bit_xor (expected_from config.seed phase config.pass start 0) 0x100
    → ((k : ℕ)
        → k < c
        → m (slice + (k + 1)) ≡ expected_from config.seed phase config.pass start (k + 1))
    → mismatches config phase m slice start (suc c) ≡ injected_mismatch config start phase ∷ []
one_mismatch config phase m slice start c first rest =
    let expected = expected_from config.seed phase config.pass start 0 in
    let none = mismatches-none config phase m (slice + 1) (start + 1) c (λ k lt.
      ap m {y = slice + (k + 1)} (omega arith)
      ∙ rest k lt
      ∙ ap (expected_value config.seed phase config.pass) (omega arith)) in
    let differs : bit_xor expected 0x100 != expected ≡ true = ground (arith, flipped expected) in
    rw (none, first, differs) refl

module _ (config : RunConfig) (slice start count : ℕ) (injected : config.inject_mismatch ≡ true)
    (pos : 0 < count) where
  injected_back :
      (p : ℕ) (phase : Phase) (m : Mem)
      → let filled = fill slice count (expected_from config.seed phase config.pass start) m in
        read_back sound slice start count config p phase m
        ≡ store filled slice (bit_xor (filled slice) 0x100)
  injected_back p phase m = rw (injected, lt→ltb 0 count pos) refl

  injected-one :
      (p : ℕ) (phase : Phase) (m : Mem)
      → mismatches config phase
          (read_back sound slice start count config p phase m)
          slice
          start
          count
        ≡ injected_mismatch config start phase ∷ []
  unfolding store
  injected-one p phase m =
      let expected = expected_from config.seed phase config.pass start in
      let filled = fill slice count expected m in
      let at : (k : ℕ) → k < count → filled (slice + k) ≡ expected k = λ k lt.
        fill-inside slice count expected m (slice + k) (omega arith) (omega arith)
        ∙ ap expected (omega arith) in
      let here : filled slice ≡ expected 0 = ap filled (omega arith) ∙ at 0 pos in
      let size : count ≡ suc (count - 1) = omega arith in
      rw (injected_back p phase m) (
        ap (mismatches config phase (store filled slice (bit_xor (filled slice) 0x100)) slice start)
          size
        ∙ one_mismatch config phase (store filled slice (bit_xor (filled slice) 0x100)) slice start
            (count - 1) (ground (arith, here)) (λ k lt. ground (arith, at (k + 1) (omega arith))))

  injected-all :
      (p : ℕ) (phases : List Phase) (m : Mem)
      → pass_mismatches sound slice start count config p phases m
        ≡ injected_mismatches config start phases
  injected-all p [] m = refl
  injected-all p (phase ∷ phases) m =
      ap₂ ◌++◌ (injected-one p phase m)
        (injected-all (p + 1) phases (read_back sound slice start count config p phase m))

length-injected :
    (config : RunConfig) (start : ℕ) (mode : Mode)
    → length (injected_mismatches config start (phases_of mode)) ≡ phase_count_for_mode mode
length-injected config start quick = refl
length-injected config start memory_load = refl
length-injected config start extreme = refl

few_phases : (mode : Mode) → (0 < phase_count_for_mode mode) × (phase_count_for_mode mode < 9)
few_phases quick = (omega arith, omega arith)
few_phases memory_load = (omega arith, omega arith)
few_phases extreme = (omega arith, omega arith)

-- If a mismatch is to be injected, the memory holds what was written, the worker's slice is not
-- empty, the guards hold and the pass is not stopped, then each phase of the mode finds the first
-- word of the slice with one bit flipped and nothing else, and the pass fails.
pub run_pass-injected :
    (neon : Bool) (m : Mem) (progress : ℕ) (arena : Arena) (config : RunConfig) (report : Report)
    (stats : RunStats)
    → is_supported arena config ≡ true
    → arena.words * word_bytes < 2 ^ 64
    → config.seed < 2 ^ 64
    → ((i : ℕ) → stop_requested config i ≡ false)
    → config.inject_mismatch ≡ true
    → 0 < slice_words arena config
    → report.error_count < 2 ^ 64
    → let result =
        run_pass neon sound m progress (some arena) (some config) (some report) (some stats) in
      let found = injected_mismatches config (slice_start arena config) (phases_of config.mode) in
      (result.report ≡ some (record_all report found)) × (result.status ≡ fail)
run_pass-injected neon m progress arena config report stats ok words seed never injected pos bound =
    let all = run_pass_lem neon sound m progress arena config report stats ok words seed never in
    let start = slice_start arena config in
    let found = injected_mismatches config start (phases_of config.mode) in
    let same =
      injected-all config (slice_address arena config) start (slice_words arena config) injected pos
        0 (phases_of config.mode) m in
    let judged =
      all.1
      ∙ ap (λ ms. if (record_all report ms).error_count != report.error_count then fail else pass)
          same in
    let counted = record_all-error_count report found bound in
    let few = few_phases config.mode in
    (
      all.0 ∙ ap (λ ms. some (record_all report ms)) same,
      judged ∙ ground (arith, counted, length-injected config start config.mode, few),
    )
