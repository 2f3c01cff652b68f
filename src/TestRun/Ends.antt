-- ===== src/TestRun/Ends.antt =====
-- Every run ends.
use nx_mem_test.Base.{
  ℕ, zero, suc, ◌+◌, ◌^◌, ◌≤◌, ◌<◌, ◌≡◌, refl, ap, ◌∙◌, sym, Bool, true, false, Option, none, some,
  arith, Bool-cases, inl, inr, sub64, if◌then◌else◌,
}
use nx_mem_test.Types.{Status}
use nx_mem_test.Report.{Report}
use nx_mem_test.Runner.Memory.{Mem}
use nx_mem_test.Workers.{goes_on, merge_workers, start_workers}
use nx_mem_test.TestRun.{
  Setup, Events, RunState, time_is_up, threaded_pass, pass_body, passes, start_state, run_test,
  conclude, fallback, status_of, wait_for_workers, run_workers,
}

answer-if :
    (b : Bool) (s t : RunState)
    → (◌≡◌ {A = Bool} (if◌then◌else◌ {A = Bool × RunState} b (true, s) (false, t)).0 b)
answer-if true s t = refl
answer-if false s t = refl

goes_on-timed :
    (status : Status) (stop : Bool) (duration_ms : ℕ)
    → goes_on status stop duration_ms ≡ true
    → 0 < duration_ms
unfolding goes_on
goes_on-timed status stop duration_ms h = ground arith

module _ (setup : Setup) where
  open setup use {duration_ms, test_started}

  threaded_pass-timed :
      (events : Events) (started : Option ℕ) (s : RunState)
      → (threaded_pass setup events started s).0 ≡ true
      → 0 < duration_ms
  unfolding threaded_pass
  threaded_pass-timed events none s h = cc
  threaded_pass-timed events (some started) s h =
      let flags = wait_for_workers setup events.rounds s.flags in
      let ran = run_workers setup events flags.stop s.pass_index started 0 s.mem in
      goes_on-timed (merge_workers ran.0 s.totals).status flags.stop duration_ms (
        sym (answer-if (goes_on (merge_workers ran.0 s.totals).status flags.stop duration_ms) _ _)
        ∙ h)

  -- Another pass follows only in a timed run whose time was not up before this one.
  pass_body-timed :
      (events : Events) (s : RunState)
      → (pass_body setup events s).0 ≡ true
      → (0 < duration_ms) × (sub64 events.now test_started < duration_ms)
  unfolding pass_body
  pass_body-timed events s h = elim (Bool-cases s.flags.stop) [
    | inl stop ↦ cc (rw stop at h)
    | inr going ↦ elim (Bool-cases (time_is_up setup events.now)) [
      | inl up ↦ cc (rw (going, up) at h)
      | inr time ↦
          let timed =
            threaded_pass-timed events (start_workers events.create events.start setup.workers) s
              (simp (going, time) at h) in
          (timed, ground arith)
    ]
  ]

  module _ (events : ℕ → Events)
      (clock : (i : ℕ)
        → i ≤ duration_ms
        → (test_started + i ≤ (events i).now) × ((events i).now < 2 ^ 64)) where
    passes-end :
        (fuel k : ℕ) (s : RunState)
        → k + fuel ≡ duration_ms
        → (r : RunState) × (passes setup (suc fuel) events k s ≡ some r)
    unfolding passes
    passes-end zero k s enough = elim (Bool-cases (pass_body setup (events k) s).0) [
      | inl on ↦
          absurd (
            omega (arith, pass_body-timed (events k) s on, clock k (omega (arith, enough)), enough))
      | inr off ↦ ((pass_body setup (events k) s).1, rw off refl)
    ]
    passes-end (suc fuel) k s enough = elim (Bool-cases (pass_body setup (events k) s).0) [
      | inl on ↦
          let rest =
            passes-end fuel (suc k) (pass_body setup (events k) s).1 (omega (arith, enough)) in
          (rest.0, rw on rest.1)
      | inr off ↦ ((pass_body setup (events k) s).1, rw off refl)
    ]

    -- If the clock moves on by a millisecond at least with each pass and does not wrap, then a
    -- run of `duration_ms` milliseconds has ended after that many passes and one more; a run
    -- without a timer after its first pass.
    pub run_test-ends :
        (last_ram : ℕ → Mem → Mem) (gpu_err_batches : ℕ) (blank : Report) (m : Mem)
        → (result : Status × RunState) × (run_test setup
              (suc duration_ms)
              events
              last_ram
              gpu_err_batches
              blank
              m
            ≡ some result)
    unfolding run_test conclude
    run_test-ends last_ram gpu_err_batches blank m =
        let ended = passes-end duration_ms 0 (start_state setup blank m) (omega arith) in
        let done = fallback setup last_ram ended.0 in
        (
          (status_of setup gpu_err_batches done, done),
          ap (conclude setup last_ram gpu_err_batches) ended.1,
        )
