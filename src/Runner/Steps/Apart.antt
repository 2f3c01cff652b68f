-- ===== src/Runner/Steps/Apart.antt =====
-- A step of a worker changes its slice only, and depends on nothing else of the memory.
use nx_mem_test.Base.{
  ℕ, zero, suc, ◌+◌, ◌*◌, ◌^◌, ◌≤◌, ◌<◌, ◌≡◌, refl, ap, ◌∙◌, ◌⊎◌, inl, inr, Bool, Bool-cases, ltb,
  ltb→lt,
}
use nx_mem_test.Base.{mul64}
use mathlib.Core.Path.{ap₂}
use nx_mem_test.Types.{word_bytes}
use nx_mem_test.Runner.{RunConfig, RunStats}
use nx_mem_test.Runner.Memory.{Mem}
use nx_mem_test.Runner.Chunks.{
  Run, chunk_at, stop_requested, inject, progress_add, write_round, verify_round,
}
use nx_mem_test.Runner.Steps.{Place, before, writing, reading, ended, Local, run_of, step_at, step}
use nx_mem_test.Runner.Steps.Words.{
  SameWords, press-SameWords, inject-SameWords, inject-Outside, chunk_written,
  chunk_written-Outside, chunk_written-SameWords, chunk-SameWords, verified-SameWords,
}

module _ (neon : Bool) (ram : ℕ → Mem → Mem) (slice start count initial_errors : ℕ)
    (config : RunConfig) (small : count * word_bytes < 2 ^ 64)
    (fits : (start + count) * word_bytes ≤ 2 ^ 64) (seed : config.seed < 2 ^ 64) where
  abbrev advance : Local → Mem → Local × Mem
  advance = step neon ram slice start count initial_errors config

  abbrev step_from : Place → RunStats → Run → Local × Mem
  step_from = step_at neon ram slice start count initial_errors config

  -- Outside the slice a step changes nothing, if the memory under test does not by itself.
  module _
      (ram-Outside : (p : ℕ) (m : Mem) (a : ℕ)
        → (a < slice) ⊎ (slice + count ≤ a)
        → ram p m a ≡ m a) where
    pub step-Outside :
        (l : Local) (m : Mem) (a : ℕ) → (a < slice) ⊎ (slice + count ≤ a) → (advance l m).1 a ≡ m a
    unfolding step write_round verify_round
    step-Outside l m a out = go l.place l.stats
      where
        go : (place : Place) (stats : RunStats) → (step_from place stats (run_of l m)).1 a ≡ m a
        go (before zero p) stats = refl
        go (before (suc left) p) stats = elim (Bool-cases (stop_requested config l.polls)) [
          | inl stop ↦ rw stop refl
          | inr going ↦ rw going refl
        ]
        go (writing left p k) stats = elim (Bool-cases (ltb k count)) [
          | inl more ↦ elim (Bool-cases (stop_requested config l.polls)) [
            | inl stop ↦ rw (more, stop) refl
            | inr going ↦
                rw (more, going)
                  (chunk_written-Outside neon slice start count config small fits seed p k m a
                    (ltb→lt k count more) out)
          ]
          | inr end ↦ rw end (
              ram-Outside p (inject config slice count m) a out
              ∙ inject-Outside config slice count m a out)
        ]
        go (reading left p k) stats = elim (Bool-cases (ltb k count)) [
          | inl more ↦ elim (Bool-cases (stop_requested config l.polls)) [
            | inl stop ↦ rw (more, stop) refl
            | inr going ↦ rw (more, going) refl
          ]
          | inr end ↦ rw end refl
        ]
        go (ended status) stats = refl

  -- Memories that agree on the slice before a step agree on it afterwards, if what the memory
  -- under test makes of the slice depends on the slice only; and the worker does not tell them
  -- apart.
  module _
      (ram-SameWords : (p : ℕ) (m m' : Mem)
        → SameWords slice count m m'
        → SameWords slice count (ram p m) (ram p m')) where
    abbrev Alike : Local × Mem → Local × Mem → Type 0
    Alike x y = (x.0 ≡ y.0) × SameWords slice count x.1 y.1

    pub step-own_only :
        (l : Local) (m m' : Mem)
        → SameWords slice count m m'
        → ((advance l m).0 ≡ (advance l m').0)
          × SameWords slice count (advance l m).1 (advance l m').1
    unfolding step write_round verify_round
    step-own_only l m m' same = go l.place l.stats
      where
        go :
            (place : Place) (stats : RunStats)
            → Alike (step_from place stats (run_of l m)) (step_from place stats (run_of l m'))
        go (before zero p) stats = (refl, same)
        go (before (suc left) p) stats = elim (Bool-cases (stop_requested config l.polls)) [
          | inl stop ↦ rw stop (refl, same)
          | inr going ↦ rw going (refl, same)
        ]
        go (writing left p k) stats = elim (Bool-cases (ltb k count)) [
          | inl more ↦ elim (Bool-cases (stop_requested config l.polls)) [
            | inl stop ↦ rw (more, stop) (refl, same)
            | inr going ↦
                let lt = ltb→lt k count more in
                let wrote =
                  chunk_written-SameWords neon slice start count config small fits seed p k m m' lt
                    same in
                let pressed =
                  press-SameWords config
                    (chunk_written neon slice start count config small fits seed p k m)
                    (chunk_written neon slice start count config small fits seed p k m') (slice + k)
                    (chunk_at count k) l.pressure
                    (chunk-SameWords neon slice start count config small fits seed p k
                      (chunk_written neon slice start count config small fits seed p k m)
                      (chunk_written neon slice start count config small fits seed p k m') lt
                      wrote) in
                rw (more, going)
                  (
                    ap
                        (λ pressure. record l {
                          place = writing left p (k + chunk_at count k);
                          polls = suc l.polls;
                          progress =
                              progress_add config (mul64 (chunk_at count k) word_bytes) l.progress;
                          pressure = pressure;
                          stats = stats;
                        })
                        pressed,
                    wrote,
                  )
          ]
          | inr end ↦ rw end (
            refl,
            ram-SameWords p (inject config slice count m) (inject config slice count m')
                (inject-SameWords config slice count m m' same),
          )
        ]
        go (reading left p k) stats = elim (Bool-cases (ltb k count)) [
          | inl more ↦ elim (Bool-cases (stop_requested config l.polls)) [
            | inl stop ↦ rw (more, stop) (refl, same)
            | inr going ↦
                let lt = ltb→lt k count more in
                let pressed =
                  press-SameWords config m m' (slice + k) (chunk_at count k) l.pressure (
                    chunk-SameWords neon slice start count config small fits seed p k m m' lt
                      same) in
                rw (more, going)
                  (
                    ap₂
                        (λ report pressure. record l {
                          place = reading left p (k + chunk_at count k);
                          polls = suc l.polls;
                          progress =
                              progress_add config (mul64 (chunk_at count k) word_bytes) l.progress;
                          pressure = pressure;
                          report = report;
                          stats = stats;
                        })
                        (verified-SameWords neon slice start count config small fits seed p k m m'
                          l.report lt same)
                        pressed,
                    same,
                  )
          ]
          | inr end ↦ rw end (refl, same)
        ]
        go (ended status) stats = (refl, same)
