-- ===== src/Runner/Chunks/Phases.antt =====
-- The loop over the chunks of a slice: what each round preserves, and when it runs to its end.
use nx_mem_test.Base.{ℕ, zero, suc, ◌+◌, ◌-◌, ◌*◌, ◌^◌, ◌≤◌, ◌<◌, ◌≡◌, refl, inl, inr}
use nx_mem_test.Base.{Bool, true, false, arith, Bool-cases, ltb, ltb→lt}
use mathlib.Core.Path.{subst}
use nx_mem_test.Types.{Phase, word_bytes}
use nx_mem_test.Runner.{RunConfig}
use nx_mem_test.Runner.Chunks.{Run, chunk_at, phase_loop, stop_requested}

module _ (neon : Bool) (slice start count : ℕ) (phase : Phase) (config : RunConfig)
    (small : count * word_bytes < 2 ^ 64) where
  pub chunk_at-bounds :
      (k : ℕ) → k < count → (0 < chunk_at count k) × (k + chunk_at count k ≤ count)
  chunk_at-bounds k h = ground arith

  module _ (round : ℕ → Run → Run) (P : ℕ → Run → Type 0) (Q : Run → Type 0)
      (weaken : (k : ℕ) (s : Run) → k ≤ count → P k s → Q s)
      (polled : (k : ℕ) (s : Run) → P k s → P k (record s { polls = suc s.polls }))
      (step : (k : ℕ) (s : Run) → k < count → P k s → P (k + chunk_at count k) (round k s)) where
    -- What each round preserves holds when the flag is found set, and at the end.
    pub phase_loop-inv :
        (fuel k : ℕ) (s : Run)
        → k ≤ count
        → count - k ≤ fuel
        → P k s
        → let done = phase_loop neon slice start count phase config round fuel k s in
          Q done.1 × (done.0 ≡ true → P count done.1)
    unfolding phase_loop
    phase_loop-inv zero k s h f p = (weaken k s h p, λ _. subst (λ i. P i s) (omega arith) p)
    phase_loop-inv (suc fuel) k s h f p = elim (Bool-cases (ltb k count)) [
      | inr end ↦ rw end (weaken k s h p, λ _. subst (λ i. P i s) (ground arith) p)
      | inl more ↦ elim (Bool-cases (stop_requested config s.polls)) [
        | inl stop ↦
            rw (more, stop)
              (
                weaken k (record s { polls = suc s.polls }) h (polled k s p),
                λ (e : false ≡ true). absurd (ground arith),
              )
        | inr going ↦
            let lt = ltb→lt k count more in
            let bounds = chunk_at-bounds k lt in
            rw (more, going)
              (phase_loop-inv fuel (k + chunk_at count k)
                (round k (record s { polls = suc s.polls })) bounds.1 (omega (arith, bounds.0))
                (step k (record s { polls = suc s.polls }) lt (polled k s p)))
      ]
    ]

  pub phase_loop-never :
      (round : ℕ → Run → Run)
      → ((i : ℕ) → stop_requested config i ≡ false)
      → (fuel k : ℕ) (s : Run)
      → (phase_loop neon slice start count phase config round fuel k s).0 ≡ true
  unfolding phase_loop
  phase_loop-never round never zero k s = refl
  phase_loop-never round never (suc fuel) k s =
      let rest =
        phase_loop-never round never fuel (k + chunk_at count k)
          (round k (record s { polls = suc s.polls })) in
      elim (Bool-cases (ltb k count)) [
        | inr end ↦ rw end refl
        | inl more ↦ rw (more, never s.polls) rest
      ]
