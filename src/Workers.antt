-- ===== src/Workers.antt =====
-- source/nx/main.c, the part around the workers: what each of them is given and runs, how many of
-- them run, and how their results become the result of the run.
pub mod Start
pub mod Merge
pub mod Final
pub mod Cover
pub mod Entry
pub mod Together
mod Tests
use nx_mem_test.Base.{
  ℕ, zero, suc, ◌+◌, Bool, true, false, not, ◌&&◌, ◌||◌, Option, none, some, List, [], ◌∷◌,
}
use nx_mem_test.Base.{bit_xor, bit_and, shl64, add64, u32, ltb, ◌==◌, ◌!=◌, if◌then◌else◌}
use nx_mem_test.Types.{Mode, quick, Phase, fixed_a, Status, pass, fail, aborted, unsupported}
use nx_mem_test.Arena.{Arena}
use nx_mem_test.Report.{Error, Report, report_init, report_merge}
use nx_mem_test.Runner.{RunConfig, RunStats}
use nx_mem_test.Runner.Memory.{Mem}
use nx_mem_test.Runner.Pass.{run_pass, fresh_stats, PassResult}

-- `NxmtWorkerContext`, without the pointer to the arena that all of them share.
pub record WorkerContext : Type 0 where
  pub config : RunConfig
  pub report : Report
  pub stats : RunStats
  pub status : Status

-- What `memset` leaves of a report: the first mode and the first phase stand for 0.
abbrev pub zero_report : Report
zero_report = record {
  has_first_error = false;
  first = record {
    mode = quick;
    phase = fixed_a;
    seed = 0;
    pass = 0;
    worker_id = 0;
    offset = 0;
    expected = 0;
    actual = 0;
    xor_diff = 0;
  };
  error_count = 0;
  min_error_offset = 0;
  max_error_offset = 0;
  bit_diff_or = 0;
}

unfoldable pub init_worker_context : Mode → ℕ → ℕ → ℕ → Option (ℕ → Bool) → WorkerContext
init_worker_context mode seed worker workers stop_requested = record {
  config = record {
    mode = mode;
    seed = seed;
    pass = 0;
    worker_id = worker;
    worker_count = workers;
    inject_mismatch = false;
    stop_requested = stop_requested;
    progress_bytes = false;
  };
  report = zero_report;
  stats = fresh_stats;
  status = unsupported;
}

-- What `main` makes of it for a threaded pass: the number of the pass, and a progress counter.
unfoldable pub prepare_worker : Mode → ℕ → ℕ → ℕ → Option (ℕ → Bool) → ℕ → WorkerContext
unfolding init_worker_context
prepare_worker mode seed worker workers stop_requested pass_index =
    let ctx = init_worker_context mode seed worker workers stop_requested in
    record ctx { config = record ctx.config { pass = pass_index; progress_bytes = true } }

abbrev pub or_report : Report → Option Report → Report
or_report report none = report
or_report report (some report') = report'

abbrev pub or_stats : RunStats → Option RunStats → RunStats
or_stats stats none = stats
or_stats stats (some stats') = stats'

-- `nxmt_worker_entry`: the context afterwards, and the memory and the progress counter.
unfoldable pub worker_entry :
    Bool → (ℕ → Mem → Mem) → Arena → WorkerContext → Mem → ℕ → WorkerContext × Mem × ℕ
worker_entry neon ram arena ctx m progress =
    let report = report_init ctx.report in
    let result =
      run_pass neon ram m progress (some arena) (some ctx.config) (some report) (some ctx.stats) in
    (
      record ctx {
        report = or_report report result.report;
        stats = or_stats ctx.stats result.stats;
        status = result.status;
      },
      result.mem,
      result.progress,
    )

abbrev is_status : Status → Status → Bool
is_status pass pass = true
is_status fail fail = true
is_status aborted aborted = true
is_status unsupported unsupported = true
is_status _ _ = false

unfoldable pub combine_worker_status : Status → Status → Status
combine_worker_status current worker_status =
    if is_status current fail || is_status worker_status fail
    then fail
    else if is_status current aborted || is_status worker_status aborted
    then aborted
    else if is_status current unsupported || is_status worker_status unsupported
    then unsupported
    else pass

-- What `main` adds up over the workers and the passes.
pub record Totals : Type 0 where
  pub report : Report
  pub stats : RunStats
  pub status : Status
  pub completed_workers : ℕ

unfoldable pub merge_worker_context : WorkerContext → Totals → Totals
unfolding combine_worker_status
merge_worker_context ctx totals = record {
  report = report_merge totals.report ctx.report;
  stats = record totals.stats {
    bytes_written = add64 totals.stats.bytes_written ctx.stats.bytes_written;
    bytes_verified = add64 totals.stats.bytes_verified ctx.stats.bytes_verified;
    pressure_checksum = bit_xor totals.stats.pressure_checksum ctx.stats.pressure_checksum;
  };
  status = combine_worker_status totals.status ctx.status;
  completed_workers =
      if not (is_status ctx.status unsupported) && not (is_status ctx.status aborted)
      then u32 (totals.completed_workers + 1)
      else totals.completed_workers;
}

-- The loop over the started workers, in the order of their numbers.
unfoldable pub merge_workers : List WorkerContext → Totals → Totals
unfolding merge_worker_context
merge_workers [] totals = totals
merge_workers (ctx ∷ ctxs) totals = merge_workers ctxs (merge_worker_context ctx totals)

-- How many of the `left` workers from number `worker` on succeed, up to the first that does not.
unfoldable pub count_successes : (ℕ → Bool) → ℕ → ℕ → ℕ
count_successes succeeds worker zero = 0
count_successes succeeds worker (suc left) =
    let rest = count_successes succeeds (suc worker) left in if succeeds worker then suc rest else 0

-- The number of workers of a pass, or `none` for the single-worker fallback. `create` and `start`
-- tell for which workers `threadCreate` and `threadStart` succeed.
unfoldable pub start_workers : (ℕ → Bool) → (ℕ → Bool) → ℕ → Option ℕ
unfolding count_successes
start_workers create start workers =
    let created = count_successes create 0 workers in
    let started = count_successes start 0 workers in
    if created != workers
    then none
    else if started != workers && started == 0
    then none
    else some started

-- The status of the run after its last pass.
unfoldable pub final_status : Status → ℕ → Bool → ℕ → Status
final_status status gpu_err_batches user_aborted error_count =
    let escalated =
      if ltb 0 gpu_err_batches
      then (if not (is_status status fail) then fail else status)
      else status in
    if not user_aborted && is_status escalated aborted && error_count == 0 then pass else escalated

-- Whether `main` goes on to another pass after the one just merged.
unfoldable pub goes_on : Status → Bool → ℕ → Bool
goes_on status stop_requested duration_ms =
    if is_status status fail
    then false
    else if stop_requested
    then false
    else not (duration_ms == 0)

abbrev preferred_order : List ℕ
preferred_order = 2 ∷ 0 ∷ 1 ∷ 3 ∷ []

-- The loop of `collect_worker_cpu_map` over the cores that are left, with room for `room` workers.
unfoldable pub usable_cores : ℕ → ℕ → List ℕ → List ℕ
usable_cores mask room [] = []
usable_cores mask zero (core ∷ cores) = []
usable_cores mask (suc room) (core ∷ cores) =
    let with_core = core ∷ usable_cores mask room cores in
    let without = usable_cores mask (suc room) cores in
    if bit_and mask (shl64 1 core) != 0 then with_core else without

-- The cores of the workers, in the order of their numbers.
unfoldable pub collect_worker_cpu_map : ℕ → ℕ → List ℕ
unfolding usable_cores
collect_worker_cpu_map mask max_workers = usable_cores mask max_workers preferred_order
