-- ===== src/Runner/Steps/Alone.antt =====
-- The steps of a worker that is alone make up its pass.
use nx_mem_test.Base.{
  ℕ, zero, suc, ◌+◌, ◌-◌, ◌*◌, ◌^◌, ◌≤◌, ◌<◌, ◌≡◌, refl, ap, ◌∙◌, inl, inr, Bool, true, false,
  arith, Bool-cases, add64, mul64,
}
use nx_mem_test.Base.Schedule.{iterate}
use nx_mem_test.Types.{Phase, word_bytes}
use nx_mem_test.Runner.{RunConfig, RunStats}
use nx_mem_test.Runner.Memory.{Mem}
use nx_mem_test.Runner.Chunks.{
  Run, phase_for_mode, stop_requested, abort_status, write_phase, verify_phase,
}
use nx_mem_test.Runner.Pass.{Outcome, run_phases}
use nx_mem_test.Runner.Steps.{Place, before, writing, ended, Local, state_of, end_at, step}
use nx_mem_test.Base.Schedule.{iterate-add, Reaches, Reaches-trans, Reaches-le, Reaches-first}
use nx_mem_test.Runner.Steps.Loops.{write-ends, read-ends}

abbrev pub finished : Outcome → Local × Mem
finished o = state_of (ended o.status) o.stats o.run

module _ (neon : Bool) (ram : ℕ → Mem → Mem) (slice start count initial_errors : ℕ)
    (config : RunConfig) (small : count * word_bytes < 2 ^ 64) where
  abbrev advance : Local × Mem → Local × Mem
  advance x = step neon ram slice start count initial_errors config x.0 x.1

  abbrev at : Place → RunStats → Run → Local × Mem
  at = state_of

  abbrev stops : RunStats → Run → Local × Mem
  stops stats s =
      end_at neon ram slice start count initial_errors config (abort_status s.report initial_errors)
        stats s

  abbrev phase_of : ℕ → Phase
  phase_of p = phase_for_mode config.mode p

  abbrev after_write : RunStats → RunStats
  after_write stats = record stats {
    bytes_written = add64 stats.bytes_written (mul64 count word_bytes);
  }

  abbrev after_read : RunStats → RunStats
  after_read stats = record stats {
    bytes_verified = add64 stats.bytes_verified (mul64 count word_bytes);
  }

  abbrev read_mem : ℕ → Run → Run
  read_mem p s = record s { mem = ram p s.mem }

  -- All steps that a pass of `left` phases needs.
  abbrev pub steps_for : ℕ → ℕ
  steps_for left = left * (2 * count + 3) + 1

  steps_for-suc : (left : ℕ) → steps_for (suc left) ≡ 2 * count + 3 + steps_for left
  steps_for-suc left = grind arith

  begin-step :
      (left p : ℕ) (s : Run) (stats : RunStats)
      → stop_requested config s.polls ≡ false
      → advance (at (before (suc left) p) stats s)
        ≡ at
            (writing left p 0)
            (record stats { current_phase = phase_of p })
            (record s { polls = suc s.polls })
  unfolding step
  begin-step left p s stats going = rw going refl

  stop-step :
      (left p : ℕ) (s : Run) (stats : RunStats)
      → stop_requested config s.polls ≡ true
      → advance (at (before (suc left) p) stats s) ≡ stops stats (record s { polls = suc s.polls })
  unfolding step
  stop-step left p s stats stop = rw stop refl

  last-step :
      (p : ℕ) (s : Run) (stats : RunStats)
      → advance (at (before zero p) stats s)
        ≡ finished (run_phases neon ram slice start count initial_errors config zero p s stats)
  unfolding step run_phases
  last-step p s stats = refl

  phases-end :
      (left p : ℕ) (s : Run) (stats : RunStats)
      → Reaches advance
          (steps_for left)
          (at (before left p) stats s)
          (finished (run_phases neon ram slice start count initial_errors config left p s stats))
  unfolding run_phases
  phases-end zero p s stats = (1, omega arith, last-step p s stats)
  phases-end (suc left) p s stats =
      let polled = record s { polls = suc s.polls } in
      let stats1 = record stats { current_phase = phase_of p } in
      let written = write_phase neon slice start count (phase_of p) config polled in
      let verified =
        verify_phase neon slice start count (phase_of p) config (read_mem p written.1) in
      let enough = steps_for-suc left in
      elim (Bool-cases (stop_requested config s.polls)) [
        | inl stop ↦ rw stop (1, omega (arith, enough), stop-step left p s stats stop)
        | inr going ↦
            let begun = begin-step left p s stats going in
            elim (write-ends neon ram slice start count initial_errors config small left p stats1
              polled) [
                | inr broken ↦
                    rw (going, broken.0)
                      (Reaches-le advance (Reaches-first advance (count + 1) begun broken.1)
                        (omega (arith, enough)))
                | inl wrote ↦
                    elim (read-ends neon ram slice start count initial_errors config small left p
                      (after_write stats1) (read_mem p written.1)) [
                        | inr broken ↦
                            rw (going, wrote.0, broken.0)
                              (Reaches-le advance
                                (Reaches-first advance (count + 1 + (count + 1)) begun
                                  (Reaches-trans advance (count + 1) (count + 1) wrote.1 broken.1))
                                (omega (arith, enough)))
                        | inl read ↦
                            let rest =
                              phases-end left (p + 1) verified.1
                                (after_read (after_write stats1)) in
                            rw (going, wrote.0, read.0)
                              (Reaches-le advance
                                (Reaches-first advance (count + 1 + (count + 1 + steps_for left))
                                  begun
                                  (Reaches-trans advance (count + 1) (count + 1 + steps_for left)
                                    wrote.1
                                    (Reaches-trans advance (count + 1) (steps_for left) read.1
                                      rest)))
                                (omega (arith, enough)))
                      ]
              ]
      ]

  stays-ended : (n : ℕ) (o : Outcome) → iterate advance n (finished o) ≡ finished o
  unfolding step
  stays-ended zero o = refl
  stays-ended (suc n) o = stays-ended n o

  -- Any number of steps that is large enough takes the worker through its whole pass.
  pub iterate-run_phases :
      (left n : ℕ) (s : Run) (stats : RunStats)
      → steps_for left ≤ n
      → iterate advance n (at (before left 0) stats s)
        ≡ finished (run_phases neon ram slice start count initial_errors config left 0 s stats)
  iterate-run_phases left n s stats enough =
      let ends = phases-end left 0 s stats in
      let done = run_phases neon ram slice start count initial_errors config left 0 s stats in
      ap (λ k. iterate advance k (at (before left 0) stats s)) {x = n} {y = ends.0 + (n - ends.0)}
        (omega (arith, ends.1))
      ∙ iterate-add advance ends.0 (n - ends.0) (at (before left 0) stats s)
      ∙ ap (iterate advance (n - ends.0)) ends.2
      ∙ stays-ended (n - ends.0) done
