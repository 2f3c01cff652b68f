-- ===== src/TestRun/Invariant.antt =====
-- What holds of every context that a worker leaves, and is kept when it is merged, holds of the
-- totals of the run.
use nx_mem_test.Base.{
  ℕ, zero, suc, ◌≡◌, Bool, Option, none, some, List, [], ◌∷◌, Bool-cases, inl, inr, true, false,
  ◌&&◌,
}
use nx_mem_test.Base.{if◌then◌else◌}
use mathlib.Core.Path.{subst}
use nx_mem_test.Runner.Memory.{Mem}
use nx_mem_test.Workers.{
  WorkerContext, Totals, prepare_worker, worker_entry, merge_worker_context, merge_workers,
  start_workers, goes_on,
}
use nx_mem_test.TestRun.{
  Setup, Events, RunState, time_is_up, run_workers, threaded_pass, pass_body, passes,
  fallback_context, fallback, wait_for_workers,
}

module _ (setup : Setup) (Good : WorkerContext → Type 0) (P : Totals → Type 0)
    (merged : (ctx : WorkerContext) (t : Totals)
      → Good ctx
      → P t
      → P (merge_worker_context ctx t)) where
  open setup use {neon, arena, mode, seed, workers, duration_ms, test_started}

  abbrev AllGood : List WorkerContext → Type 0
  AllGood [] = Unit {0}
  AllGood (ctx ∷ ctxs) = Good ctx × AllGood ctxs

  merge_workers-inv :
      (ctxs : List WorkerContext) (t : Totals) → AllGood ctxs → P t → P (merge_workers ctxs t)
  unfolding merge_workers
  merge_workers-inv [] t good h = h
  merge_workers-inv (ctx ∷ ctxs) t good h =
      merge_workers-inv ctxs (merge_worker_context ctx t) good.1 (merged ctx t good.0 h)

  -- Every worker that the events of a pass allow leaves a good context.
  abbrev pub WorkersGood : Events → Type 0
  WorkersGood events =
      (worker pass_index : ℕ) (flag : ℕ → Bool) (m : Mem)
      → Good
          (worker_entry neon (events.ram worker) arena
            (prepare_worker mode seed worker workers (some flag) pass_index) m 0).0

  run_workers-AllGood :
      (events : Events) (stop : Bool) (pass_index left worker : ℕ) (m : Mem)
      → WorkersGood events
      → AllGood (run_workers setup events stop pass_index left worker m).0
  unfolding run_workers
  run_workers-AllGood events stop pass_index zero worker m good = tt
  run_workers-AllGood events stop pass_index (suc left) worker m good = (
    good worker pass_index (λ read. stop && events.sees worker read) m,
    run_workers-AllGood events stop pass_index left (suc worker) _ good,
  )

  both :
      (b : Bool) (x y : Bool × RunState)
      → P x.1.totals
      → P y.1.totals
      → P (if b then x else y).1.totals
  both true x y hx hy = hx
  both false x y hx hy = hy

  threaded_pass-inv :
      (events : Events) (started : Option ℕ) (s : RunState)
      → WorkersGood events
      → P s.totals
      → P (threaded_pass setup events started s).1.totals
  unfolding threaded_pass
  threaded_pass-inv events none s good h = h
  threaded_pass-inv events (some started) s good h =
      let flags = wait_for_workers setup events.rounds s.flags in
      let ran = run_workers setup events flags.stop s.pass_index started 0 s.mem in
      let kept =
        merge_workers-inv ran.0 s.totals
          (run_workers-AllGood events flags.stop s.pass_index started 0 s.mem good) h in
      both (goes_on (merge_workers ran.0 s.totals).status flags.stop duration_ms) _ _ kept kept

  pass_body-inv :
      (events : Events) (s : RunState)
      → WorkersGood events
      → P s.totals
      → P (pass_body setup events s).1.totals
  unfolding pass_body
  pass_body-inv events s good h = both s.flags.stop _ _ h (
      both (time_is_up setup events.now) _ _ h
        (threaded_pass-inv events (start_workers events.create events.start workers) s good h))

  -- Whenever the passes end.
  pub passes-inv :
      (fuel : ℕ) (events : ℕ → Events) (k : ℕ) (s r : RunState)
      → ((i : ℕ) → WorkersGood (events i))
      → P s.totals
      → passes setup fuel events k s ≡ some r
      → P r.totals
  unfolding passes
  passes-inv zero events k s r good h e = cc
  passes-inv (suc fuel) events k s r good h e =
      let body = pass_body setup (events k) s in
      let kept = pass_body-inv (events k) s (good k) h in
      elim (Bool-cases body.0) [
        | inl on ↦ passes-inv fuel events (suc k) body.1 r good kept (rw on at e)
        | inr off ↦
            let same : body.1 ≡ r = cc (rw off at e) in
            subst (λ (t : RunState). P t.totals) (same) kept
      ]

  -- The same of the fallback.
  pub fallback-inv :
      (ram : ℕ → Mem → Mem) (s : RunState)
      → ((pass_index : ℕ) (m : Mem) → Good (fallback_context setup ram pass_index m).0)
      → P s.totals
      → P (fallback setup ram s).totals
  unfolding fallback
  fallback-inv ram s good h = elim (Bool-cases s.thread_fallback) [
    | inl back ↦ simp back (
        merged (fallback_context setup ram s.pass_index s.mem).0 s.totals (good s.pass_index s.mem)
          h)
    | inr none_needed ↦ simp none_needed h
  ]
