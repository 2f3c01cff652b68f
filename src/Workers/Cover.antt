-- ===== src/Workers/Cover.antt =====
-- The workers' slices together are the arena: reading them all back misses no word.
use nx_mem_test.Base.{ℕ, zero, suc, ◌+◌, ◌-◌, ◌^◌, ◌<◌, ◌≡◌, sym, ap, ◌∙◌, List, [], ◌++◌, arith}
use mathlib.Core.Path.{ap₂}
use nx_mem_test.Types.{Phase}
use nx_mem_test.Arena.Split.{split_block_start, split_block_size}
use nx_mem_test.Arena.Split.Partition.{split_block_partition}
use nx_mem_test.Report.Summary.{Mismatch}
use nx_mem_test.Runner.{RunConfig}
use nx_mem_test.Runner.Memory.{Mem}
use nx_mem_test.Runner.Verify.Spec.{mismatches}
use nx_mem_test.Runner.Chunks.Fills.{mismatches-append}

module _ (config : RunConfig) (phase : Phase) (m : Mem) (p words workers : ℕ) where
  -- What differs in the slice of worker `i`; word 0 of the arena is word `p` of the memory.
  abbrev pub slice_of : ℕ → List Mismatch
  slice_of i =
      let start = split_block_start words workers i in
      mismatches config phase m (p + start) start (split_block_size words workers i)

  -- The slices of `left` workers from number `i` on.
  abbrev pub slices : ℕ → ℕ → List Mismatch
  slices i zero = []
  slices i (suc left) = slice_of i ++ slices (i + 1) left

  module _ (small : words < 2 ^ 64) (pos : 0 < workers) where
    slices-rest :
        (left i : ℕ)
        → i + left ≡ workers
        → slices i left
          ≡ mismatches config phase m
              (p + split_block_start words workers i)
              (split_block_start words workers i)
              (words - split_block_start words workers i)
    slices-rest zero i e =
        let whole = split_block_partition words workers 0 small pos in
        let last : 0 ≡ words - split_block_start words workers i = omega (
          arith,
          whole.1,
          ap (split_block_start words workers) {x = i} {y = workers} (omega (arith, e)),
        ) in
        ap
          (mismatches config phase m (p + split_block_start words workers i)
            (split_block_start words workers i))
          last
    slices-rest (suc left) i e =
        let start = split_block_start words workers i in
        let size = split_block_size words workers i in
        let parts = split_block_partition words workers i small (omega (arith, e)) in
        let next : split_block_start words workers (i + 1) ≡ start + size = parts.2 in
        let split : size + (words - (start + size)) ≡ words - start = omega (arith, parts.5) in
        ap (λ t. slice_of i ++ t) (slices-rest left (i + 1) (omega (arith, e)))
        ∙ ap (λ s. slice_of i ++ mismatches config phase m (p + s) s (words - s)) next
        ∙ ap
            (λ a. slice_of i ++ mismatches config phase m a (start + size) (words - (start + size)))
            {y = p + start + size} (omega arith)
        ∙ sym (mismatches-append config phase m (p + start) start size (words - (start + size)))
        ∙ ap (mismatches config phase m (p + start) start) split

-- For at least one worker and an arena of fewer than 2 ^ 64 words: what differs in the workers'
-- slices, one after the other, is what differs in the whole arena, whatever it holds.
pub slices_lem :
    (config : RunConfig) (phase : Phase) (m : Mem) (p words workers : ℕ)
    → words < 2 ^ 64
    → 0 < workers
    → slices config phase m p words workers 0 workers ≡ mismatches config phase m p 0 words
slices_lem config phase m p words workers small pos =
    let whole = split_block_partition words workers 0 small pos in
    slices-rest config phase m p words workers small pos workers 0 (omega arith)
    ∙ ap (λ s. mismatches config phase m (p + s) s (words - s)) whole.0
    ∙ ap₂ (λ a n. mismatches config phase m a 0 n) (omega arith) (omega arith)
