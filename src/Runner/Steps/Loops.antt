-- ===== src/Runner/Steps/Loops.antt =====
-- The steps of a worker that is alone take it through the two loops of a phase.
use nx_mem_test.Base.{
  ℕ, zero, suc, ◌+◌, ◌-◌, ◌*◌, ◌^◌, ◌≤◌, ◌<◌, ◌≡◌, refl, ◌∙◌, ◌⊎◌, inl, inr, Bool, true, false,
  arith, Bool-cases, ltb, ltb→lt, add64, mul64,
}
use nx_mem_test.Base.{if◌then◌else◌}
use nx_mem_test.Types.{Phase, word_bytes}
use nx_mem_test.Runner.{RunConfig, RunStats}
use nx_mem_test.Runner.Memory.{Mem}
use nx_mem_test.Runner.Chunks.{
  Run, chunk_at, phase_for_mode, stop_requested, abort_status, write_round, verify_round,
  phase_loop, write_phase, verify_phase,
}
use nx_mem_test.Runner.Chunks.Phases.{chunk_at-bounds}
use nx_mem_test.Runner.Steps.{Place, before, writing, reading, Local, state_of, end_at, step}
use nx_mem_test.Base.Schedule.{Reaches, Reaches-trans, Reaches-le, Reaches-first}

module _ (neon : Bool) (ram : ℕ → Mem → Mem) (slice start count initial_errors : ℕ)
    (config : RunConfig) (small : count * word_bytes < 2 ^ 64) where
  abbrev pub advance : Local × Mem → Local × Mem
  advance x = step neon ram slice start count initial_errors config x.0 x.1

  abbrev pub at : Place → RunStats → Run → Local × Mem
  at = state_of

  abbrev pub stops : RunStats → Run → Local × Mem
  stops stats s =
      end_at neon ram slice start count initial_errors config (abort_status s.report initial_errors)
        stats s

  -- A loop over the chunks, as it is written in both phases.
  module _ (place : ℕ → Place) (round : ℕ → Run → Run) (stats : RunStats)
      (stepped : (k : ℕ) (s : Run)
        → ltb k count ≡ true
        → advance (at (place k) stats s) ≡ (
            if stop_requested config s.polls
            then stops stats (record s { polls = suc s.polls })
            else at
                (place (k + chunk_at count k))
                stats
                (round k (record s { polls = suc s.polls }))))
      (phase : Phase) where
    abbrev loop : ℕ → ℕ → Run → Bool × Run
    loop = phase_loop neon slice start count phase config round

    -- Where the loop leaves the worker: behind all words, or stopped.
    abbrev LoopEnds : ℕ → ℕ → Run → Bool × Run → Type 0
    LoopEnds fuel k s done =
        ((done.0 ≡ true)
          × ((j : ℕ) × (ltb j count ≡ false)
              × Reaches advance fuel (at (place k) stats s) (at (place j) stats done.1)))
        ⊎ ((done.0 ≡ false) × Reaches advance fuel (at (place k) stats s) (stops stats done.1))

    loop-ends :
        (fuel k : ℕ) (s : Run) → k ≤ count → count - k ≤ fuel → LoopEnds fuel k s (loop fuel k s)
    unfolding phase_loop
    loop-ends zero k s h f = inl (refl, (k, ground arith, (0, omega arith, refl)))
    loop-ends (suc fuel) k s h f =
        let polled = record s { polls = suc s.polls } in
        elim (Bool-cases (ltb k count)) [
          | inr end ↦ rw end (inl (refl, (k, end, (0, omega arith, refl))))
          | inl more ↦ elim (Bool-cases (stop_requested config s.polls)) [
            | inl stop ↦ rw (more, stop) (inr (refl, (1, omega arith, stepped k s more ∙ rw stop)))
            | inr going ↦
                let lt = ltb→lt k count more in
                let bounds = chunk_at-bounds neon slice start count phase config small k lt in
                let next = k + chunk_at count k in
                let one : advance (at (place k) stats s) ≡ at (place next) stats (round k polled) =
                  stepped k s more ∙ rw going in
                let rest =
                  loop-ends fuel next (round k polled) bounds.1 (omega (arith, bounds.0)) in
                elim rest [
                  | inl whole ↦
                      rw (more, going)
                        (inl (
                          whole.0,
                          (whole.1.0, whole.1.1, Reaches-first advance fuel one whole.1.2),
                        ))
                  | inr broken ↦
                      rw (more, going) (inr (broken.0, Reaches-first advance fuel one broken.1))
                ]
          ]
        ]

  abbrev pub phase_of : ℕ → Phase
  phase_of p = phase_for_mode config.mode p

  writing-step :
      (left p : ℕ) (stats : RunStats) (k : ℕ) (s : Run)
      → ltb k count ≡ true
      → advance (at (writing left p k) stats s) ≡ (
          if stop_requested config s.polls
          then stops stats (record s { polls = suc s.polls })
          else at (writing left p (k + chunk_at count k)) stats (
              write_round neon slice start count
                (phase_of p)
                config
                k
                (record s { polls = suc s.polls })))
  unfolding step
  writing-step left p stats k s more = rw more refl

  reading-step :
      (left p : ℕ) (stats : RunStats) (k : ℕ) (s : Run)
      → ltb k count ≡ true
      → advance (at (reading left p k) stats s) ≡ (
          if stop_requested config s.polls
          then stops stats (record s { polls = suc s.polls })
          else at (reading left p (k + chunk_at count k)) stats (
              verify_round neon slice start count
                (phase_of p)
                config
                k
                (record s { polls = suc s.polls })))
  unfolding step
  reading-step left p stats k s more = rw more refl

  abbrev pub after_write : RunStats → RunStats
  after_write stats = record stats {
    bytes_written = add64 stats.bytes_written (mul64 count word_bytes);
  }

  abbrev pub after_read : RunStats → RunStats
  after_read stats = record stats {
    bytes_verified = add64 stats.bytes_verified (mul64 count word_bytes);
  }

  abbrev pub read_mem : ℕ → Run → Run
  read_mem p s = record s { mem = ram p s.mem }

  -- Writing a phase: the worker is about to read it back, or stopped.
  pub write-ends :
      (left p : ℕ) (stats : RunStats) (s : Run)
      → let done = write_phase neon slice start count (phase_of p) config s in
        ((done.0 ≡ true)
          × Reaches advance
              (count + 1)
              (at (writing left p 0) stats s)
              (at (reading left p 0) (after_write stats) (read_mem p done.1)))
        ⊎ ((done.0 ≡ false)
            × Reaches advance (count + 1) (at (writing left p 0) stats s) (stops stats done.1))
  unfolding write_phase step
  write-ends left p stats s =
      let round = write_round neon slice start count (phase_of p) config in
      elim (loop-ends (writing left p) round stats (writing-step left p stats) (phase_of p) count 0
        s (omega arith) (omega arith)) [
          | inl whole ↦ rw whole.0 (
              inl
                (refl, Reaches-trans advance count 1 whole.1.2 (1, omega arith, rw whole.1.1 refl)))
          | inr broken ↦ rw broken.0 (inr (broken.0, Reaches-le advance broken.1 (omega arith)))
        ]

  -- Reading a phase back: the worker stands before the next one, or is stopped.
  pub read-ends :
      (left p : ℕ) (stats : RunStats) (s : Run)
      → let done = verify_phase neon slice start count (phase_of p) config s in
        ((done.0 ≡ true)
          × Reaches advance
              (count + 1)
              (at (reading left p 0) stats s)
              (at (before left (p + 1)) (after_read stats) done.1))
        ⊎ ((done.0 ≡ false)
            × Reaches advance (count + 1) (at (reading left p 0) stats s) (stops stats done.1))
  unfolding verify_phase step
  read-ends left p stats s =
      let round = verify_round neon slice start count (phase_of p) config in
      elim (loop-ends (reading left p) round stats (reading-step left p stats) (phase_of p) count 0
        s (omega arith) (omega arith)) [
          | inl whole ↦
              inl (
                whole.0,
                Reaches-trans advance count 1 whole.1.2 (1, omega arith, rw whole.1.1 refl),
              )
          | inr broken ↦ inr (broken.0, Reaches-le advance broken.1 (omega arith))
        ]
