-- ===== src/TestRun/Sound.antt =====
-- A run over a sound memory.
use nx_mem_test.Base.{
  ℕ, ◌*◌, ◌^◌, ◌<◌, ◌≡◌, ◌≢◌, inl, inr, refl, ap, ◌∙◌, sym, false, some, arith, Bool-cases,
}
use mathlib.Core.Path.{subst}
use nx_mem_test.Types.{Status, fail, word_bytes}
use nx_mem_test.Report.{Report, report_init}
use nx_mem_test.Runner.{RunConfig, RunStats}
use nx_mem_test.Runner.Memory.{Mem}
use nx_mem_test.Runner.Pass.{run_pass, is_supported}
use nx_mem_test.Runner.Pass.Sound.{sound, run_pass-sound}
use nx_mem_test.Runner.Pass.Frame.{errors_of, run_pass-status}
use nx_mem_test.Runner.Pass.Refusal.{run_pass-refused}
use nx_mem_test.Workers.{WorkerContext, Totals, merge_worker_context, prepare_worker, worker_entry}
use nx_mem_test.Workers.Final.{final_status_lem}
use nx_mem_test.TestRun.{Setup, Events, RunState, start_state, run_test}
use nx_mem_test.TestRun.Invariant.{passes-inv, fallback-inv}
use nx_mem_test.TestRun.Verdict.{
  merge_fine, merge-nothing, errors-or_report, alone, fallback_context-alone, run_test-ended,
}

abbrev IsSilent : WorkerContext → Type 0
IsSilent ctx = (ctx.status ≢ fail) × (ctx.report.error_count ≡ 0)

abbrev Clean : Report → Totals → Type 0
Clean blank t = (t.status ≢ fail) × (t.report ≡ report_init blank)

merged-Clean :
    (blank : Report) (ctx : WorkerContext) (t : Totals)
    → IsSilent ctx
    → Clean blank t
    → Clean blank (merge_worker_context ctx t)
unfolding merge_worker_context
merged-Clean blank ctx t silent clean =
    (merge_fine _ _ clean.0 silent.0, merge-nothing t.report ctx.report silent.1 ∙ clean.1)

module _ (setup : Setup) (words : setup.arena.words * word_bytes < 2 ^ 64)
    (seed : setup.seed < 2 ^ 64) where
  pass-Silent :
      (m : Mem) (config : RunConfig) (report : Report) (stats : RunStats)
      → config.seed ≡ setup.seed
      → config.inject_mismatch ≡ false
      → let result =
          run_pass setup.neon sound m 0
            (some setup.arena)
            (some config)
            (some report)
            (some stats) in
        (result.status ≢ fail) × (errors_of result.report ≡ report.error_count)
  pass-Silent m config report stats same plain =
      elim (Bool-cases (is_supported setup.arena config)) [
        | inl ok ↦
            let silent =
              run_pass-sound setup.neon m 0 setup.arena config report stats ok words
                (omega (arith, seed, same)) plain in
            elim (run_pass-status setup.neon sound m 0 setup.arena config report stats ok) [
              | inl failed ↦ absurd (failed.0 (ap errors_of silent))
              | inr fine ↦ (elim fine.1 [ inl passed ↦ λ e. cc | inr stopped ↦ λ e. cc ], fine.0)
            ]
        | inr bad ↦
            let refused =
              run_pass-refused setup.neon sound m 0 setup.arena config report stats bad in
            (λ e. cc (refused.0), ap errors_of refused.3)
      ]

  -- A worker over a sound memory records nothing, so it does not fail.
  worker_entry-IsSilent :
      (ram : ℕ → Mem → Mem) (ctx : WorkerContext) (m : Mem)
      → ram ≡ sound
      → ctx.config.seed ≡ setup.seed
      → ctx.config.inject_mismatch ≡ false
      → IsSilent (worker_entry setup.neon ram setup.arena ctx m 0).0
  unfolding worker_entry report_init
  worker_entry-IsSilent ram ctx m is_sound same plain =
      let report = report_init ctx.report in
      let result =
        run_pass setup.neon sound m 0 (some setup.arena) (some ctx.config) (some report)
          (some ctx.stats) in
      let silent = pass-Silent m ctx.config report ctx.stats same plain in
      subst (λ ram'. IsSilent (worker_entry setup.neon ram' setup.arena ctx m 0).0) (sym is_sound)
        (silent.0, errors-or_report report result.report refl silent.1)

  -- If the memory holds what was written throughout the run and the GPU finds no batch that
  -- differs, then a run that has ended has not failed and has recorded no error, wherever it was
  -- stopped and however its threads fared: there are no false alarms.
  pub run_test-sound :
      (fuel : ℕ) (events : ℕ → Events) (last_ram : ℕ → Mem → Mem) (blank : Report) (m : Mem)
      (status : Status) (r : RunState)
      → ((k worker : ℕ) → (events k).ram worker ≡ sound)
      → last_ram ≡ sound
      → run_test setup fuel events last_ram 0 blank m ≡ some (status, r)
      → (status ≢ fail) × (r.totals.report ≡ report_init blank)
  unfolding prepare_worker
  run_test-sound fuel events last_ram blank m status r all last e =
      let ended =
        run_test-ended setup (λ s. Clean blank s.totals) fuel events last_ram 0 blank m status r
          (λ s done.
            fallback-inv setup IsSilent (Clean blank) (merged-Clean blank) last_ram s
              (λ pass_index m'.
                subst IsSilent (sym (fallback_context-alone setup last_ram pass_index m'))
                  (worker_entry-IsSilent last_ram (alone setup pass_index) m' last refl refl))
              (passes-inv setup IsSilent (Clean blank) (merged-Clean blank) fuel events 0
                (start_state setup blank m) s
                (λ i worker pass_index flag m'.
                  worker_entry-IsSilent ((events i).ram worker) _ m' (all i worker) refl refl)
                (λ p. cc, refl) done))
          e in
      let fails =
        final_status_lem r.totals.status 0 r.flags.user_aborted r.totals.report.error_count in
      (
        λ failed. elim (fails.0.0 (sym ended.0 ∙ failed)) [
          | inl bad ↦ ended.1.0 bad
          | inr positive ↦ absurd (omega (arith, positive))
        ],
        ended.1.1,
      )
