-- ===== src/Runner/Chunks/Slice.antt =====
-- Writing and verifying a slice, chunk by chunk, is writing and verifying it as a whole.
use nx_mem_test.Base.{ℕ, ◌+◌, ◌-◌, ◌*◌, ◌^◌, ◌≤◌, ◌<◌, ◌≡◌, ◌⊎◌, refl, sym, ap, ◌∙◌, inl, inr}
use nx_mem_test.Base.{Bool, true, false, List, [], ◌∷◌, ◌++◌, arith, Bool-cases, add64}
use nx_mem_test.Base.{mul64}
use nx_mem_test.Types.{Phase, word_bytes}
use nx_mem_test.Patterns.{expected_value}
use nx_mem_test.Report.Summary.{Mismatch, record_all, record_all-append}
use nx_mem_test.Runner.{RunConfig}
use nx_mem_test.Runner.Expected.{expected_from}
use nx_mem_test.Runner.Memory.{Mem, store, fill, fill-zero, fill-outside}
use nx_mem_test.Runner.Write.Chunk.{write_chunk_lem}
use nx_mem_test.Runner.Verify.Spec.{mismatches}
use nx_mem_test.Runner.Verify.Chunk.{verify_chunk_lem}
use nx_mem_test.Runner.Chunks.{
  Run, chunk_at, write_phase, verify_phase, phase_loop, write_round, verify_round, stop_requested,
}
use nx_mem_test.Runner.Chunks.{progress_add, inject}
use nx_mem_test.Runner.Chunks.Fills.{fill-fill, mismatches-append, progress_add-append}
use nx_mem_test.Runner.Chunks.Phases.{chunk_at-bounds, phase_loop-inv, phase_loop-never}

prefix-nil : (xs ys : List Mismatch) → xs ++ ys ≡ [] → xs ≡ []
prefix-nil [] ys e = refl
prefix-nil (x ∷ xs) ys e = absurd (ground arith)

module _ (neon : Bool) (slice start count : ℕ) (phase : Phase) (config : RunConfig)
    (small : count * word_bytes < 2 ^ 64) (fits : (start + count) * word_bytes ≤ 2 ^ 64)
    (hs : config.seed < 2 ^ 64) (s0 : Run) where
  abbrev expected : ℕ → ℕ
  expected = expected_from config.seed phase config.pass start

  progress_round :
      (k g : ℕ)
      → k < count
      → g ≡ progress_add config (k * word_bytes) s0.progress
      → progress_add config (mul64 (chunk_at count k) word_bytes) g
        ≡ progress_add config ((k + chunk_at count k) * word_bytes) s0.progress
  progress_round k g lt e =
      let bounds = chunk_at-bounds neon slice start count phase config small k lt in
      let chunk = chunk_at count k in
      ap (progress_add config (mul64 chunk word_bytes)) e
      ∙ progress_add-append config (k * word_bytes) (mul64 chunk word_bytes) s0.progress
      ∙ ap (λ d. progress_add config d s0.progress) (omega (arith, bounds.1))

  -- The run after `k` words are written.
  abbrev Written : ℕ → Run → Type 0
  Written k s =
      (s.mem ≡ fill slice k expected s0.mem)
      × (s.report ≡ s0.report)
      × (s.progress ≡ progress_add config (k * word_bytes) s0.progress)

  Written-round :
      (k : ℕ) (s : Run)
      → k < count
      → Written k s
      → Written (k + chunk_at count k) (write_round neon slice start count phase config k s)
  unfolding write_round
  Written-round k s lt w =
      let bounds = chunk_at-bounds neon slice start count phase config small k lt in
      let chunk = chunk_at count k in
      let here : add64 start k ≡ start + k = omega arith in
      (
        write_chunk_lem neon (slice + k) chunk (add64 start k) phase config.seed config.pass s.mem
              hs (omega (arith, bounds.1)) (omega (arith, bounds.1))
            ∙ ap
                (fill (slice + k) chunk
                  (expected_from config.seed phase config.pass (add64 start k)))
                w.0
            ∙ fill-fill slice k chunk expected _ s0.mem
                (λ j _. ap (expected_value config.seed phase config.pass) (omega (arith, here))),
        w.1,
        progress_round k s.progress lt w.2,
      )

  Written-start : Written 0 s0
  unfolding progress_add
  Written-start = (sym (fill-zero slice expected s0.mem), refl, ground arith)

  -- What the slice holds after it is written: the expected words, with one bit of the first one
  -- flipped where a mismatch is to be injected.
  abbrev pub written_mem : Mem
  written_mem = inject config slice count (fill slice count expected s0.mem)

  abbrev pub Outside : ℕ → Type 0
  Outside a = (a < slice) ⊎ (slice + count ≤ a)

  -- What holds at whatever chunk writing is broken off.
  abbrev Kept : Run → Type 0
  Kept s = ((a : ℕ) → Outside a → s.mem a ≡ s0.mem a) × (s.report ≡ s0.report)

  Written-Kept : (k : ℕ) (s : Run) → k ≤ count → Written k s → Kept s
  Written-Kept k s h w = (
    λ a out. ap (λ (m : Mem). m a) w.0 ∙ fill-outside slice k expected s0.mem a (ground arith),
    w.1,
  )

  abbrev write_loop : Bool × Run
  write_loop =
      phase_loop neon slice start count phase config
        (write_round neon slice start count phase config) count 0 s0

  write_loop-inv : Kept write_loop.1 × (write_loop.0 ≡ true → Written count write_loop.1)
  write_loop-inv =
      phase_loop-inv neon slice start count phase config small
        (write_round neon slice start count phase config) Written Kept Written-Kept (λ k s w. w)
        Written-round count 0 s0 (omega arith) (omega arith) Written-start

  inject-Outside : (m : Mem) (a : ℕ) → Outside a → inject config slice count m a ≡ m a
  unfolding store
  inject-Outside m a out = ground arith

  -- Broken off or not, writing changes nothing outside the slice.
  pub write_phase-Outside :
      let done = write_phase neon slice start count phase config s0 in
      ((a : ℕ) → Outside a → done.1.mem a ≡ s0.mem a) × (done.1.report ≡ s0.report)
  unfolding write_phase
  write_phase-Outside =
      let kept = write_loop-inv.0 in
      elim (Bool-cases write_loop.0) [
        | inl whole ↦
            rw whole (λ a out. inject-Outside write_loop.1.mem a out ∙ kept.0 a out, kept.1)
        | inr broken ↦ rw broken kept
      ]

  pub write_phase-written :
      let done = write_phase neon slice start count phase config s0 in
      done.0 ≡ true
      → (done.1.mem ≡ written_mem)
        × (done.1.report ≡ s0.report)
        × (done.1.progress ≡ progress_add config (count * word_bytes) s0.progress)
  unfolding write_phase
  write_phase-written e =
      let whole : write_loop.0 ≡ true = ground arith in
      let w = write_loop-inv.1 whole in rw whole (ap (inject config slice count) w.0, w.1, w.2)

  -- The run after `k` words are verified.
  abbrev Verified : ℕ → Run → Type 0
  Verified k s =
      (s.mem ≡ s0.mem)
      × (s.report ≡ record_all s0.report (mismatches config phase s0.mem slice start k))
      × (s.progress ≡ progress_add config (k * word_bytes) s0.progress)

  Verified-round :
      (k : ℕ) (s : Run)
      → k < count
      → Verified k s
      → Verified (k + chunk_at count k) (verify_round neon slice start count phase config k s)
  unfolding verify_round
  Verified-round k s lt w =
      let bounds = chunk_at-bounds neon slice start count phase config small k lt in
      let chunk = chunk_at count k in
      let here : add64 start k ≡ start + k = omega arith in
      (
        w.0,
        verify_chunk_lem s.mem (slice + k) chunk (add64 start k) config s.report neon phase
              (omega (arith, bounds.1)) (omega arith)
            ∙ rw (w.0, w.1, here)
                (sym (record_all-append s0.report (mismatches config phase s0.mem slice start k) _)
                  ∙ ap (record_all s0.report)
                      (sym (mismatches-append config phase s0.mem slice start k chunk))),
        progress_round k s.progress lt w.2,
      )

  Verified-start : Verified 0 s0
  unfolding progress_add
  Verified-start = (refl, refl, ground arith)

  abbrev slice_mismatches : List Mismatch
  slice_mismatches = mismatches config phase s0.mem slice start count

  -- What holds at whatever chunk verifying is broken off.
  abbrev Read : Run → Type 0
  Read s = (s.mem ≡ s0.mem) × (slice_mismatches ≡ [] → s.report ≡ s0.report)

  Verified-Read : (k : ℕ) (s : Run) → k ≤ count → Verified k s → Read s
  Verified-Read k s h w = (
    w.0,
    λ none.
        w.1
        ∙ ap (record_all s0.report) (
            prefix-nil (mismatches config phase s0.mem slice start k)
              (mismatches config phase s0.mem (slice + k) (start + k) (count - k))
              (sym parts ∙ none)),
  )
    where
      parts :
          slice_mismatches
          ≡ mismatches config phase s0.mem slice start k
            ++ mismatches config phase s0.mem (slice + k) (start + k) (count - k)
      parts =
          ap (mismatches config phase s0.mem slice start) (omega arith)
          ∙ mismatches-append config phase s0.mem slice start k (count - k)

  verify_phase-inv :
      let done = verify_phase neon slice start count phase config s0 in
      Read done.1 × (done.0 ≡ true → Verified count done.1)
  unfolding verify_phase
  verify_phase-inv =
      phase_loop-inv neon slice start count phase config small
        (verify_round neon slice start count phase config) Verified Read Verified-Read (λ k s p. p)
        Verified-round count 0 s0 (omega arith) (omega arith) Verified-start

  -- Broken off or not, verifying changes no memory, and no report where no word differs.
  pub verify_phase-read :
      let done = verify_phase neon slice start count phase config s0 in
      (done.1.mem ≡ s0.mem) × (slice_mismatches ≡ [] → done.1.report ≡ s0.report)
  verify_phase-read = verify_phase-inv.0

  pub verify_phase-verified :
      let done = verify_phase neon slice start count phase config s0 in
      done.0 ≡ true
      → (done.1.mem ≡ s0.mem)
        × (done.1.report ≡ record_all s0.report (mismatches config phase s0.mem slice start count))
        × (done.1.progress ≡ progress_add config (count * word_bytes) s0.progress)
  verify_phase-verified e = verify_phase-inv.1 e

  pub write_phase-never :
      ((i : ℕ) → stop_requested config i ≡ false)
      → (write_phase neon slice start count phase config s0).0 ≡ true
  unfolding write_phase
  write_phase-never never =
      let whole =
        phase_loop-never neon slice start count phase config small
          (write_round neon slice start count phase config) never count 0 s0 in
      rw whole refl

  pub verify_phase-never :
      ((i : ℕ) → stop_requested config i ≡ false)
      → (verify_phase neon slice start count phase config s0).0 ≡ true
  unfolding verify_phase
  verify_phase-never never =
      phase_loop-never neon slice start count phase config small
        (verify_round neon slice start count phase config) never count 0 s0
