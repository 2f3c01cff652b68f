-- ===== src/Runner/Pass/Spec.antt =====
-- What a pass is to find, phase by phase.
use nx_mem_test.Base.{ℕ, zero, suc, ◌+◌, ◌≡◌, refl, List, [], ◌∷◌, ◌++◌}
use nx_mem_test.Types.{Mode, quick, memory_load, extreme, Phase}
use nx_mem_test.Report.Summary.{Mismatch}
use nx_mem_test.Runner.{RunConfig}
use nx_mem_test.Runner.Expected.{expected_from}
use nx_mem_test.Runner.Memory.{Mem, fill}
use nx_mem_test.Runner.Verify.Spec.{mismatches}
use nx_mem_test.Runner.Chunks.{inject, phase_for_mode, phase_count_for_mode, quick_phases}
use nx_mem_test.Runner.Chunks.{memory_load_phases}

-- The phases of a mode, in order.
abbrev pub phases_of : Mode → List Phase
phases_of quick = quick_phases
phases_of memory_load = memory_load_phases
phases_of extreme = memory_load_phases

-- The phases that the indices from `p` on stand for.
abbrev pub phases_from : Mode → ℕ → ℕ → List Phase
phases_from mode p zero = []
phases_from mode p (suc left) = phase_for_mode mode p ∷ phases_from mode (p + 1) left

pub phases_from_zero :
    (mode : Mode) → phases_from mode 0 (phase_count_for_mode mode) ≡ phases_of mode
phases_from_zero quick = refl
phases_from_zero memory_load = refl
phases_from_zero extreme = refl

module _ (ram : ℕ → Mem → Mem) (slice start count : ℕ) (config : RunConfig) where
  -- What is read back in phase number `p`, if the memory held `m` before.
  abbrev pub read_back : ℕ → Phase → Mem → Mem
  read_back p phase m = ram p (
      inject config slice count
        (fill slice count (expected_from config.seed phase config.pass start) m))

  -- The words that differ in the phases, in the order in which they are read.
  abbrev pub pass_mismatches : ℕ → List Phase → Mem → List Mismatch
  pass_mismatches p [] m = []
  pass_mismatches p (phase ∷ phases) m =
      mismatches config phase (read_back p phase m) slice start count
      ++ pass_mismatches (p + 1) phases (read_back p phase m)

  -- The memory after the phases.
  abbrev pub pass_memory : ℕ → List Phase → Mem → Mem
  pass_memory p [] m = m
  pass_memory p (phase ∷ phases) m = pass_memory (p + 1) phases (read_back p phase m)
