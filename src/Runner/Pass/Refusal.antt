-- ===== src/Runner/Pass/Refusal.antt =====
-- When a pass is refused, and what it changes then.
use nx_mem_test.Base.{
  ℕ, ◌%◌, ◌≤◌, ◌<◌, ◌≡◌, ◌≢◌, ◌⊎◌, inl, inr, refl, Bool, true, false, Option, none, some, arith,
}
use nx_mem_test.Types.{Status, pass, fail, aborted, unsupported}
use nx_mem_test.Arena.{Arena}
use nx_mem_test.Report.{Report}
use nx_mem_test.Runner.{RunConfig, RunStats}
use nx_mem_test.Runner.Memory.{Mem}
use nx_mem_test.Runner.Pass.{run_pass, is_supported, fresh_stats}
use nx_mem_test.Runner.Pass.Frame.{run_pass-status}

-- An arena without memory or that is not aligned to words, or a worker that is not one of the
-- workers.
abbrev pub Unusable : Arena → RunConfig → Type 0
Unusable arena config =
    (arena.base ≡ 0)
    ⊎ (arena.words ≡ 0)
    ⊎ (0 < arena.base % 8)
    ⊎ (config.worker_count ≡ 0)
    ⊎ (config.worker_count ≤ config.worker_id)

-- A null pointer, or an arena and a worker that do not do.
abbrev pub Refused : Option Arena → Option RunConfig → Option Report → Option RunStats → Type 0
Refused (some arena) (some config) (some report) (some stats) = Unusable arena config
Refused arena config report none = Unit
Refused none config report (some stats) = Unit
Refused (some arena) none report (some stats) = Unit
Refused (some arena) (some config) none (some stats) = Unit

-- All statistics are set to 0, where there are any.
abbrev pub cleared : Option RunStats → Option RunStats
cleared none = none
cleared (some stats) = some fresh_stats

is_supported-Unusable :
    (arena : Arena) (config : RunConfig)
    → ((is_supported arena config ≡ true) × ¬ (Unusable arena config))
      ⊎ ((is_supported arena config ≡ false) × Unusable arena config)
unfolding is_supported
is_supported-Unusable arena config = ground arith

-- The branch behind the guards.
pub run_pass-refused :
    (neon : Bool) (ram : ℕ → Mem → Mem) (m : Mem) (progress : ℕ) (arena : Arena)
    (config : RunConfig) (report : Report) (stats : RunStats)
    → is_supported arena config ≡ false
    → let result =
        run_pass neon ram m progress (some arena) (some config) (some report) (some stats) in
      (result.status ≡ unsupported)
      × (result.mem ≡ m)
      × (result.progress ≡ progress)
      × (result.report ≡ some report)
      × (result.stats ≡ some fresh_stats)
unfolding run_pass
run_pass-refused neon ram m progress arena config report stats h =
    rw h (refl, refl, refl, refl, refl)

not_refused :
    (status : Status)
    → (status ≡ fail) ⊎ (status ≡ pass) ⊎ (status ≡ aborted)
    → status ≢ unsupported
not_refused status h = ground arith

-- Either a pointer is null, or the arena has no memory or is not aligned, or the worker is not one
-- of the workers: then the pass is refused and changes neither the memory nor the progress counter
-- nor the report, and clears the statistics. Or none of these holds, and the pass is not refused.
pub run_pass-unsupported :
    (neon : Bool) (ram : ℕ → Mem → Mem) (m : Mem) (progress : ℕ) (arena : Option Arena)
    (config : Option RunConfig) (report : Option Report) (stats : Option RunStats)
    → let result = run_pass neon ram m progress arena config report stats in
      (Refused arena config report stats
        × (result.status ≡ unsupported)
        × (result.mem ≡ m)
        × (result.progress ≡ progress)
        × (result.report ≡ report)
        × (result.stats ≡ cleared stats))
      ⊎ (¬ (Refused arena config report stats) × (result.status ≢ unsupported))
unfolding run_pass
run_pass-unsupported neon ram m progress arena config report none =
    inl (tt, refl, refl, refl, refl, refl)
run_pass-unsupported neon ram m progress none config report (some stats) =
    inl (tt, refl, refl, refl, refl, refl)
run_pass-unsupported neon ram m progress (some arena) none report (some stats) =
    inl (tt, refl, refl, refl, refl, refl)
run_pass-unsupported neon ram m progress (some arena) (some config) none (some stats) =
    inl (tt, refl, refl, refl, refl, refl)
run_pass-unsupported neon ram m progress (some arena) (some config) (some report) (some stats) =
    elim (is_supported-Unusable arena config) [
      | inr bad ↦
          let effects = run_pass-refused neon ram m progress arena config report stats bad.0 in
          inl (bad.1, effects.0, effects.1, effects.2, effects.3, effects.4)
      | inl good ↦
          let judged = run_pass-status neon ram m progress arena config report stats good.0 in
          inr (
            good.1,
            elim judged [
              | inl failed ↦ not_refused _ (inl failed.1)
              | inr clean ↦ not_refused _ (inr clean.1)
            ],
          )
    ]
