-- ===== src/TestRun/Verdict.antt =====
-- What the status of a run says, wherever it is stopped and however its threads fare.
use nx_mem_test.Base.{
  ℕ, ◌≡◌, ◌≢◌, ◌⊎◌, inl, inr, refl, ap, ◌∙◌, Bool, false, Option, none, some, arith, Bool-cases,
  ltb, sym,
}
use mathlib.Core.Path.{subst}
use nx_mem_test.Types.{Status, fail}
use nx_mem_test.Arena.{Arena}
use nx_mem_test.Report.{Report, report_init, report_merge}
use nx_mem_test.Runner.{RunConfig, RunStats}
use nx_mem_test.Runner.Memory.{Mem}
use nx_mem_test.Runner.Pass.{run_pass, is_supported}
use nx_mem_test.Runner.Pass.Frame.{errors_of, run_pass-status}
use nx_mem_test.Runner.Pass.Refusal.{run_pass-refused}
use nx_mem_test.Workers.{
  WorkerContext, Totals, merge_worker_context, worker_entry, or_report, combine_worker_status,
  init_worker_context,
}
use nx_mem_test.Workers.Final.{final_status_lem}
use nx_mem_test.TestRun.{
  Setup, Events, RunState, start_state, status_of, passes, fallback, fallback_context, run_test,
  conclude,
}
use nx_mem_test.TestRun.Invariant.{passes-inv, fallback-inv}

-- A pass that does not fail records nothing, whatever its guards say.
pass-Quiet :
    (neon : Bool) (ram : ℕ → Mem → Mem) (m : Mem) (progress : ℕ) (arena : Arena)
    (config : RunConfig) (report : Report) (stats : RunStats)
    → let result =
        run_pass neon ram m progress (some arena) (some config) (some report) (some stats) in
      (result.status ≡ fail)
      ⊎ ((result.status ≢ fail) × (errors_of result.report ≡ report.error_count))
pass-Quiet neon ram m progress arena config report stats =
    elim (Bool-cases (is_supported arena config)) [
      | inl ok ↦ elim (run_pass-status neon ram m progress arena config report stats ok) [
        | inl failed ↦ inl failed.1
        | inr fine ↦ inr (elim fine.1 [ inl passed ↦ λ e. cc | inr stopped ↦ λ e. cc ], fine.0)
      ]
      | inr bad ↦
          let refused = run_pass-refused neon ram m progress arena config report stats bad in
          inr (λ e. cc (refused.0), ap errors_of refused.3)
    ]

-- A context of a worker that failed, or that recorded nothing.
abbrev pub IsHonest : WorkerContext → Type 0
IsHonest ctx = (ctx.status ≡ fail) ⊎ ((ctx.status ≢ fail) × (ctx.report.error_count ≡ 0))

-- Totals that failed, or that hold no error.
abbrev pub HoldsNothing : Report → Totals → Type 0
HoldsNothing blank t = (t.status ≡ fail) ⊎ ((t.status ≢ fail) × (t.report ≡ report_init blank))

pub errors-or_report :
    (report : Report) (r : Option Report)
    → report.error_count ≡ 0
    → errors_of r ≡ 0
    → (or_report report r).error_count ≡ 0
errors-or_report report none h e = h
errors-or_report report (some r) h e = e

merge_fail : (a b : Status) → (a ≡ fail) ⊎ (b ≡ fail) → combine_worker_status a b ≡ fail
unfolding combine_worker_status
merge_fail a b h = ground arith

pub merge_fine : (a b : Status) → a ≢ fail → b ≢ fail → combine_worker_status a b ≢ fail
unfolding combine_worker_status
merge_fine a b h k = ground arith

pub merge-nothing : (r s : Report) → s.error_count ≡ 0 → report_merge r s ≡ r
unfolding report_merge
merge-nothing r s h = ground arith

merged-HoldsNothing :
    (blank : Report) (ctx : WorkerContext) (t : Totals)
    → IsHonest ctx
    → HoldsNothing blank t
    → HoldsNothing blank (merge_worker_context ctx t)
unfolding merge_worker_context
merged-HoldsNothing blank ctx t (inl failed) h = inl (merge_fail _ _ (inr failed))
merged-HoldsNothing blank ctx t (inr fine) (inl failed) = inl (merge_fail _ _ (inl failed))
merged-HoldsNothing blank ctx t (inr fine) (inr empty) =
    inr (merge_fine _ _ empty.0 fine.0, merge-nothing t.report ctx.report fine.1 ∙ empty.1)

module _ (setup : Setup) where
  pub worker_entry-IsHonest :
      (ram : ℕ → Mem → Mem) (ctx : WorkerContext) (m : Mem)
      → IsHonest (worker_entry setup.neon ram setup.arena ctx m 0).0
  unfolding worker_entry report_init
  worker_entry-IsHonest ram ctx m =
      let report = report_init ctx.report in
      let result =
        run_pass setup.neon ram m 0 (some setup.arena) (some ctx.config) (some report)
          (some ctx.stats) in
      elim (pass-Quiet setup.neon ram m 0 setup.arena ctx.config report ctx.stats) [
        | inl failed ↦ inl failed
        | inr fine ↦ inr (fine.0, errors-or_report report result.report refl fine.1)
      ]

  -- The fallback is a worker on the main thread.
  abbrev pub alone : ℕ → WorkerContext
  unfolding init_worker_context
  alone pass_index =
      let ctx = init_worker_context setup.mode setup.seed 0 1 (some (λ read. false)) in
      record ctx { config = record ctx.config { pass = pass_index } }

  pub fallback_context-alone :
      (ram : ℕ → Mem → Mem) (pass_index : ℕ) (m : Mem)
      → (fallback_context setup ram pass_index m).0
        ≡ (worker_entry setup.neon ram setup.arena (alone pass_index) m 0).0
  unfolding fallback_context worker_entry init_worker_context
  fallback_context-alone ram pass_index m = refl

  passes-HoldsNothing :
      (fuel : ℕ) (events : ℕ → Events) (blank : Report) (m : Mem) (s : RunState)
      → passes setup fuel events 0 (start_state setup blank m) ≡ some s
      → HoldsNothing blank s.totals
  passes-HoldsNothing fuel events blank m s e =
      passes-inv setup IsHonest (HoldsNothing blank) (merged-HoldsNothing blank) fuel events 0
        (start_state setup blank m) s
        (λ i worker pass_index flag m'. worker_entry-IsHonest ((events i).ram worker) _ m')
        (inr (λ p. cc, refl)) e

  -- What a run that ended leaves, from what its passes left.
  pub run_test-ended :
      (Q : RunState → Type 0) (fuel : ℕ) (events : ℕ → Events) (last_ram : ℕ → Mem → Mem)
      (gpu_err_batches : ℕ) (blank : Report) (m : Mem) (status : Status) (r : RunState)
      → ((s : RunState)
          → passes setup fuel events 0 (start_state setup blank m) ≡ some s
          → Q (fallback setup last_ram s))
      → run_test setup fuel events last_ram gpu_err_batches blank m ≡ some (status, r)
      → (status ≡ status_of setup gpu_err_batches r) × Q r
  unfolding run_test conclude
  run_test-ended Q fuel events last_ram gpu_err_batches blank m status r kept =
      go (passes setup fuel events 0 (start_state setup blank m)) kept
    where
      go :
          (ended : Option RunState)
          → ((s : RunState) → ended ≡ some s → Q (fallback setup last_ram s))
          → conclude setup last_ram gpu_err_batches ended ≡ some (status, r)
          → (status ≡ status_of setup gpu_err_batches r) × Q r
      go none kept e = cc
      go (some s) kept e =
          let same : fallback setup last_ram s ≡ r = cc in (cc, subst Q (same) (kept s refl))

  -- If a run ends with another status than `fail`, whatever the memory, the threads, the clock and
  -- the keys did, then the GPU found no batch that differs and the report is as it was initialised:
  -- a run never passes over an error that it recorded.
  pub run_test-clean :
      (fuel : ℕ) (events : ℕ → Events) (last_ram : ℕ → Mem → Mem) (gpu_err_batches : ℕ)
      (blank : Report) (m : Mem) (status : Status) (r : RunState)
      → run_test setup fuel events last_ram gpu_err_batches blank m ≡ some (status, r)
      → status ≢ fail
      → (gpu_err_batches ≡ 0) × (r.totals.report ≡ report_init blank)
  run_test-clean fuel events last_ram gpu_err_batches blank m status r e fine =
      let ended =
        run_test-ended (λ s. HoldsNothing blank s.totals) fuel events last_ram gpu_err_batches blank
          m status r
          (λ s done.
            fallback-inv setup IsHonest (HoldsNothing blank) (merged-HoldsNothing blank) last_ram s
              (λ pass_index m'.
                subst IsHonest (sym (fallback_context-alone last_ram pass_index m'))
                  (worker_entry-IsHonest last_ram (alone pass_index) m'))
              (passes-HoldsNothing fuel events blank m s done))
          e in
      let fails =
        final_status_lem r.totals.status gpu_err_batches r.flags.user_aborted
          r.totals.report.error_count in
      (
        elim (Bool-cases (ltb 0 gpu_err_batches)) [
          | inl some_found ↦ absurd (fine (ended.0 ∙ fails.0.1 (inr (ground arith))))
          | inr none_found ↦ ground arith
        ],
        elim ended.1 [
          | inl failed ↦ absurd (fine (ended.0 ∙ fails.0.1 (inl failed)))
          | inr empty ↦ empty.1
        ],
      )
