-- ===== src/TestRun.antt =====
-- source/nx/main.c, one run of the test: the passes one after the other, each with its threads and
-- the loop that waits for them, the single-worker fallback, and the status of the whole.
pub mod Invariant
pub mod Ends
pub mod Verdict
pub mod Sound
pub mod Quick
mod Tests
use nx_mem_test.Base.{
  ℕ, zero, suc, ◌+◌, Bool, true, false, not, ◌&&◌, Option, none, some, List, [], ◌∷◌,
}
use nx_mem_test.Base.{add64, sub64, leb, ◌==◌, if◌then◌else◌}
use nx_mem_test.Types.{Mode, Status, pass}
use nx_mem_test.Arena.{Arena}
use nx_mem_test.Report.{Report, report_init}
use nx_mem_test.Runner.Memory.{Mem}
use nx_mem_test.Runner.Pass.{run_pass, fresh_stats}
use nx_mem_test.Workers.{
  WorkerContext, Totals, init_worker_context, prepare_worker, worker_entry, merge_worker_context,
  merge_workers, start_workers, goes_on, final_status, or_report, or_stats,
}

-- What `main` finds in one round of the loop that waits for the workers.
pub record Round : Type 0 where
  pub app_running : Bool
  pub plus : Bool
  pub now : ℕ

-- What the outside does in one pass: the clock before it, which threads can be created and started,
-- what a worker sees of the stop flag at each read once the flag is set during the pass, the rounds
-- of the waiting loop until all started workers have finished, and the memory under test.
pub record Events : Type 0 where
  pub now : ℕ
  pub create : ℕ → Bool
  pub start : ℕ → Bool
  pub sees : ℕ → ℕ → Bool
  pub rounds : List Round
  pub ram : ℕ → ℕ → Mem → Mem

-- The stop flag and `user_aborted`.
pub record Flags : Type 0 where
  pub stop : Bool
  pub user_aborted : Bool

-- What the passes change.
pub record RunState : Type 0 where
  pub totals : Totals
  pub mem : Mem
  pub flags : Flags
  pub thread_fallback : Bool
  pub passes_completed : ℕ
  pub pass_index : ℕ

-- What is settled before the first pass: `arena` is the `cpu_arena` of `main`, `workers` the number
-- of its workers, and `neon` the side of `#if NXMT_HAS_NEON`.
pub record Setup : Type 0 where
  pub neon : Bool
  pub arena : Arena
  pub mode : Mode
  pub seed : ℕ
  pub workers : ℕ
  pub duration_ms : ℕ
  pub test_started : ℕ

module _ (setup : Setup) where
  open setup use {neon, arena, mode, seed, workers, duration_ms, test_started}

  -- The test of the timer, before a pass and in the waiting loop.
  abbrev pub time_is_up : ℕ → Bool
  time_is_up now = not (duration_ms == 0) && leb duration_ms (sub64 now test_started)

  -- The waiting loop, without what it draws: one round for each time that some started worker has
  -- not finished.
  unfoldable pub wait_for_workers : List Round → Flags → Flags
  wait_for_workers [] flags = flags
  wait_for_workers (round ∷ rounds) flags =
      let rest = wait_for_workers rounds flags in
      if not round.app_running
      then (record { stop = true; user_aborted = true })
      else if round.plus
      then (record { stop = true; user_aborted = true })
      else if time_is_up round.now
      then (record flags { stop = true })
      else rest

  -- The contexts of `left` workers from number `worker` on after they have run, and the memory.
  -- Their slices are apart, so their order is no matter. They find the stop flag set only if `main`
  -- sets it.
  unfoldable pub run_workers : Events → Bool → ℕ → ℕ → ℕ → Mem → List WorkerContext × Mem
  run_workers events stop pass_index zero worker m = ([], m)
  run_workers events stop pass_index (suc left) worker m =
      let ctx =
        prepare_worker mode seed worker workers (some (λ read. stop && events.sees worker read))
          pass_index in
      let ran = worker_entry neon (events.ram worker) arena ctx m 0 in
      let rest = run_workers events stop pass_index left (suc worker) ran.1 in
      (ran.0 ∷ rest.0, rest.1)

  -- A pass from the creation of the threads on, with the answer whether another pass follows.
  unfoldable pub threaded_pass : Events → Option ℕ → RunState → Bool × RunState
  unfolding wait_for_workers run_workers
  threaded_pass events none s = (false, record s { thread_fallback = true })
  threaded_pass events (some started) s =
      let flags = wait_for_workers events.rounds s.flags in
      let ran = run_workers events flags.stop s.pass_index started 0 s.mem in
      let totals = merge_workers ran.0 s.totals in
      let merged = record s {
        totals = totals;
        mem = ran.1;
        flags = flags;
        passes_completed = add64 s.passes_completed 1;
      } in
      if goes_on totals.status flags.stop duration_ms
      then (true, record merged { pass_index = add64 s.pass_index 1 })
      else (false, merged)

  -- The body of the `for (;;)` of `main`.
  unfoldable pub pass_body : Events → RunState → Bool × RunState
  unfolding threaded_pass
  pass_body events s =
      if s.flags.stop
      then (false, s)
      else if time_is_up events.now
      then (false, s)
      else threaded_pass events (start_workers events.create events.start workers) s

  -- The `for (;;)` from pass `k` on; `none` is a run that has not ended when the fuel is used up.
  unfoldable pub passes : ℕ → (ℕ → Events) → ℕ → RunState → Option RunState
  unfolding pass_body
  passes zero events k s = none
  passes (suc fuel) events k s =
      let body = pass_body (events k) s in
      let rest = passes fuel events (suc k) body.1 in if body.0 then rest else some body.1

  -- The pass of a single worker on the main thread, where nobody can set the stop flag.
  unfoldable pub fallback_context : (ℕ → Mem → Mem) → ℕ → Mem → WorkerContext × Mem
  unfolding init_worker_context
  fallback_context ram pass_index m =
      let ctx = init_worker_context mode seed 0 1 (some (λ read. false)) in
      let config = record ctx.config { pass = pass_index } in
      let report = report_init ctx.report in
      let result =
        run_pass neon ram m 0 (some arena) (some config) (some report) (some fresh_stats) in
      (
        record {
          config = config;
          report = or_report report result.report;
          stats = or_stats fresh_stats result.stats;
          status = result.status;
        },
        result.mem,
      )

  unfoldable pub fallback : (ℕ → Mem → Mem) → RunState → RunState
  unfolding fallback_context
  fallback ram s =
      let ran = fallback_context ram s.pass_index s.mem in
      if s.thread_fallback
      then (record s {
        totals = merge_worker_context ran.0 s.totals;
        mem = ran.1;
        flags = record s.flags { stop = false };
        passes_completed = add64 s.passes_completed 1;
      })
      else s

  -- What stands in the variables of `main` before the first pass; `blank` is what the report held
  -- before it was initialised.
  abbrev pub start_state : Report → Mem → RunState
  start_state blank m = record {
    totals = record {
      report = report_init blank;
      stats = fresh_stats;
      status = pass;
      completed_workers = 0;
    };
    mem = m;
    flags = record { stop = false; user_aborted = false };
    thread_fallback = false;
    passes_completed = 0;
    pass_index = 0;
  }

  abbrev pub status_of : ℕ → RunState → Status
  status_of gpu_err_batches s =
      final_status s.totals.status gpu_err_batches s.flags.user_aborted s.totals.report.error_count

  -- What follows the `for (;;)`, if it has ended.
  unfoldable pub conclude : (ℕ → Mem → Mem) → ℕ → Option RunState → Option (Status × RunState)
  unfolding fallback
  conclude last_ram gpu_err_batches none = none
  conclude last_ram gpu_err_batches (some s) =
      let done = fallback last_ram s in some (status_of gpu_err_batches done, done)

  -- The run: its status and what it leaves, or `none` if the fuel is used up.
  unfoldable pub run_test :
      ℕ → (ℕ → Events) → (ℕ → Mem → Mem) → ℕ → Report → Mem → Option (Status × RunState)
  unfolding passes conclude
  run_test fuel events last_ram gpu_err_batches blank m =
      conclude last_ram gpu_err_batches (passes fuel events 0 (start_state blank m))
