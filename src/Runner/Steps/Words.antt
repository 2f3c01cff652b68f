-- ===== src/Runner/Steps/Words.antt =====
-- What a step of a worker does to the memory and to the report, on two memories that agree on the
-- slice of the worker.
use nx_mem_test.Base.{
  ℕ, zero, suc, ◌+◌, ◌-◌, ◌*◌, ◌^◌, ◌≤◌, ◌<◌, ◌≡◌, refl, sym, ap, ◌∙◌, ◌⊎◌, Bool, ◌&&◌, arith, ltb,
  leb, ◌!=◌, loop_by-ext, add64, List, ◌∷◌,
}
use nx_mem_test.Base.{if◌then◌else◌}
use mathlib.Core.Path.{ap₂}
use nx_mem_test.Types.{Phase, word_bytes}
use nx_mem_test.Report.{Report}
use nx_mem_test.Report.Summary.{Mismatch, record_all}
use nx_mem_test.Runner.{RunConfig}
use nx_mem_test.Runner.Memory.{Mem, store, fill, fill-outside}
use nx_mem_test.Runner.Expected.{expected_from}
use nx_mem_test.Runner.Write.{write_chunk}
use nx_mem_test.Runner.Verify.{verify_chunk}
use nx_mem_test.Runner.Write.Chunk.{write_chunk_lem}
use nx_mem_test.Runner.Verify.Spec.{mismatches, mismatch_at}
use nx_mem_test.Runner.Verify.Chunk.{verify_chunk_lem}
use nx_mem_test.Runner.Chunks.{
  is_extreme, chunk_at, phase_for_mode, inject, press, extreme_cpu_pressure,
}
use nx_mem_test.Runner.Chunks.Phases.{chunk_at-bounds}

-- Two memories that agree on `n` words from `p` on.
abbrev pub SameWords : ℕ → ℕ → Mem → Mem → Type 0
SameWords p n m m' = (a : ℕ) → p ≤ a → a < p + n → m a ≡ m' a

pub press-SameWords :
    (config : RunConfig) (m m' : Mem) (p n pressure : ℕ)
    → SameWords p n m m'
    → press config m p n pressure ≡ press config m' p n pressure
unfolding press
press-SameWords config m m' p n pressure same =
    ap (λ t. if is_extreme config.mode then t else pressure)
      (loop_by-ext 1 n (λ k state. extreme_cpu_pressure state (m (p + k)))
        (λ k state. extreme_cpu_pressure state (m' (p + k)))
        (λ k state lt. ap (extreme_cpu_pressure state) (same (p + k) (omega arith) (omega arith))) 0
        pressure (omega arith))

mismatches-SameWords :
    (config : RunConfig) (phase : Phase) (m m' : Mem) (p start n : ℕ)
    → SameWords p n m m'
    → mismatches config phase m p start n ≡ mismatches config phase m' p start n
mismatches-SameWords config phase m m' p start zero same = refl
mismatches-SameWords config phase m m' p start (suc n) same =
    let expected = expected_from config.seed phase config.pass start 0 in
    ap₂
      (λ (w : ℕ) (rest : List Mismatch).
        if w != expected
        then mismatch_at config phase (start * word_bytes) expected w ∷ rest
        else rest)
      (same p (omega arith) (omega arith))
      (mismatches-SameWords config phase m m' (p + 1) (start + 1) n
        (λ a lo hi. same a (omega arith) (omega arith)))

fill-SameWords :
    (p n q k : ℕ) (f : ℕ → ℕ) (m m' : Mem)
    → SameWords p n m m'
    → SameWords p n (fill q k f m) (fill q k f m')
unfolding fill
fill-SameWords p n q k f m m' same a lo hi =
    ap (λ t. if leb q a && ltb a (q + k) then f (a - q) else t) (same a lo hi)

pub inject-SameWords :
    (config : RunConfig) (p n : ℕ) (m m' : Mem)
    → SameWords p n m m'
    → SameWords p n (inject config p n m) (inject config p n m')
unfolding store
inject-SameWords config p n m m' same a lo hi = ground (arith, same a lo hi, same p)

pub inject-Outside :
    (config : RunConfig) (p n : ℕ) (m : Mem) (a : ℕ)
    → (a < p) ⊎ (p + n ≤ a)
    → inject config p n m a ≡ m a
unfolding store
inject-Outside config p n m a out = ground arith

module _ (neon : Bool) (slice start count : ℕ) (config : RunConfig)
    (small : count * word_bytes < 2 ^ 64) (fits : (start + count) * word_bytes ≤ 2 ^ 64)
    (seed : config.seed < 2 ^ 64) where
  abbrev pub phase_of : ℕ → Phase
  phase_of p = phase_for_mode config.mode p

  -- A chunk is written as the reference says.
  written-chunk :
      (p k : ℕ) (m : Mem)
      → k < count
      → write_chunk neon
          (slice + k)
          (chunk_at count k)
          (add64 start k)
          (phase_of p)
          config.seed
          config.pass
          m
        ≡ fill
            (slice + k)
            (chunk_at count k)
            (expected_from config.seed (phase_of p) config.pass (add64 start k))
            m
  written-chunk p k m lt =
      let bounds = chunk_at-bounds neon slice start count (phase_of p) config small k lt in
      write_chunk_lem neon (slice + k) (chunk_at count k) (add64 start k) (phase_of p) config.seed
        config.pass m seed (omega (arith, bounds.1)) (omega (arith, bounds.1))

  -- The two places where the memory changes.
  abbrev pub chunk_written : ℕ → ℕ → Mem → Mem
  chunk_written p k m =
      write_chunk neon (slice + k) (chunk_at count k) (add64 start k) (phase_of p) config.seed
        config.pass m

  pub chunk_written-Outside :
      (p k : ℕ) (m : Mem) (a : ℕ)
      → k < count
      → (a < slice) ⊎ (slice + count ≤ a)
      → chunk_written p k m a ≡ m a
  chunk_written-Outside p k m a lt out =
      let bounds = chunk_at-bounds neon slice start count (phase_of p) config small k lt in
      ap (λ (t : Mem). t a) (written-chunk p k m lt)
      ∙ fill-outside (slice + k) (chunk_at count k) _ m a (ground (arith, bounds.1))

  pub chunk_written-SameWords :
      (p k : ℕ) (m m' : Mem)
      → k < count
      → SameWords slice count m m'
      → SameWords slice count (chunk_written p k m) (chunk_written p k m')
  chunk_written-SameWords p k m m' lt same a lo hi =
      ap (λ (t : Mem). t a) (written-chunk p k m lt)
      ∙ fill-SameWords slice count (slice + k) (chunk_at count k)
          (expected_from config.seed (phase_of p) config.pass (add64 start k)) m m' same a lo hi
      ∙ ap (λ (t : Mem). t a) (sym (written-chunk p k m' lt))

  -- A chunk of the slice.
  pub chunk-SameWords :
      (p k : ℕ) (m m' : Mem)
      → k < count
      → SameWords slice count m m'
      → SameWords (slice + k) (chunk_at count k) m m'
  chunk-SameWords p k m m' lt same a lo hi =
      let bounds = chunk_at-bounds neon slice start count (phase_of p) config small k lt in
      same a (omega arith) (omega (arith, bounds.1))

  pub verified-SameWords :
      (p k : ℕ) (m m' : Mem) (report : Report)
      → k < count
      → SameWords slice count m m'
      → verify_chunk m
          (slice + k)
          (chunk_at count k)
          (add64 start k)
          config
          report
          neon
          (phase_of p)
        ≡ verify_chunk m'
            (slice + k)
            (chunk_at count k)
            (add64 start k)
            config
            report
            neon
            (phase_of p)
  verified-SameWords p k m m' report lt same =
      let bounds = chunk_at-bounds neon slice start count (phase_of p) config small k lt in
      let fits' : (add64 start k + chunk_at count k) * word_bytes ≤ 2 ^ 64 =
        omega (arith, bounds.1) in
      verify_chunk_lem m (slice + k) (chunk_at count k) (add64 start k) config report neon
        (phase_of p) fits' (omega arith)
      ∙ ap (record_all report) (
          mismatches-SameWords config (phase_of p) m m' (slice + k) (add64 start k)
            (chunk_at count k) (chunk-SameWords p k m m' lt same))
      ∙ sym (
          verify_chunk_lem m' (slice + k) (chunk_at count k) (add64 start k) config report neon
            (phase_of p) fits' (omega arith))
