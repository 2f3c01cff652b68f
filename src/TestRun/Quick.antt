-- ===== src/TestRun/Quick.antt =====
-- A run without a timer that nobody interrupts: one pass of all workers, and what it reports.
use nx_mem_test.Base.{
  ℕ, zero, suc, ◌+◌, ◌*◌, ◌^◌, ◌≤◌, ◌<◌, ◌≡◌, refl, ap, ◌∙◌, sym, Bool, true, false, some, arith,
  inl, inr, ltb, ltb→lt, ltb-false, Bool-cases, ◌==◌, if◌then◌else◌, List, [], ◌∷◌, ◌++◌, length,
}
use mathlib.Core.Path.{ap₂}
use mathlib.Core.List.{append-nil, append_assoc}
use nx_mem_test.Types.{Status, pass, fail, word_bytes}
use nx_mem_test.Report.{Report, report_init}
use nx_mem_test.Report.Summary.{Mismatch, record_all}
use nx_mem_test.Runner.Memory.{Mem}
use nx_mem_test.Runner.Chunks.{stop_requested}
use nx_mem_test.Runner.Pass.{is_supported}
use nx_mem_test.Runner.Pass.Verdict.{found_words}
use nx_mem_test.Workers.{
  WorkerContext, Totals, merge_worker_context, merge_workers, prepare_worker, worker_entry,
  combine_worker_status, count_successes, start_workers, goes_on, final_status,
}
use nx_mem_test.Workers.Start.{count_successes-FirstSucceed}
use nx_mem_test.Workers.Merge.{Found, concat, merge_workers-report}
use nx_mem_test.Workers.Entry.{worker_entry_lem}
use nx_mem_test.TestRun.{
  Setup, time_is_up, Events, Round, Flags, RunState, wait_for_workers, run_workers, threaded_pass,
  pass_body, passes, fallback, conclude, run_test, start_state,
}

-- Neither the system nor the player ends the application.
abbrev pub IsQuiet : List Round → Type 0
IsQuiet [] = Unit {0}
IsQuiet (round ∷ rounds) = (round.app_running ≡ true) × (round.plus ≡ false) × IsQuiet rounds

-- The verdict on a list of mismatches.
abbrev pub verdict : List Mismatch → Status
verdict [] = pass
verdict (found ∷ founds) = fail

verdict-length :
    (found : List Mismatch) → (if length found == 0 then pass else fail) ≡ verdict found
verdict-length [] = refl
verdict-length (x ∷ xs) = ground arith

verdict-append :
    (xs ys : List Mismatch) → combine_worker_status (verdict xs) (verdict ys) ≡ verdict (xs ++ ys)
unfolding combine_worker_status
verdict-append [] [] = refl
verdict-append [] (y ∷ ys) = refl
verdict-append (x ∷ xs) [] = refl
verdict-append (x ∷ xs) (y ∷ ys) = refl

-- Each worker's status is the verdict on what it found.
abbrev Judged : List WorkerContext → List (List Mismatch) → Type 0
Judged [] [] = Unit {0}
Judged [] (found ∷ founds) = ⊥
Judged (ctx ∷ ctxs) [] = ⊥
Judged (ctx ∷ ctxs) (found ∷ founds) = (ctx.status ≡ verdict found) × Judged ctxs founds

merge_workers-verdict :
    (ctxs : List WorkerContext) (founds : List (List Mismatch)) (t : Totals)
    (before : List Mismatch)
    → t.status ≡ verdict before
    → Judged ctxs founds
    → (merge_workers ctxs t).status ≡ verdict (before ++ concat founds)
unfolding merge_workers merge_worker_context
merge_workers-verdict [] [] t before e h = e ∙ ap verdict (sym (append-nil before))
merge_workers-verdict [] (found ∷ founds) t before e h = absurd h
merge_workers-verdict (ctx ∷ ctxs) [] t before e h = absurd h
merge_workers-verdict (ctx ∷ ctxs) (found ∷ founds) t before e h =
    merge_workers-verdict ctxs founds (merge_worker_context ctx t) (before ++ found)
      (ap₂ combine_worker_status e h.0 ∙ verdict-append before found) h.1
    ∙ ap verdict (append_assoc before found (concat founds))

count_successes-all :
    (succeeds : ℕ → Bool) (workers : ℕ)
    → ((i : ℕ) → i < workers → succeeds i ≡ true)
    → count_successes succeeds 0 workers ≡ workers
count_successes-all succeeds workers all =
    let first = count_successes-FirstSucceed succeeds 0 workers in
    let n = count_successes succeeds 0 workers in
    elim first.2 [
      | inl whole ↦ whole
      | inr fails ↦ elim (Bool-cases (ltb n workers)) [
        | inl fewer ↦
            cc
              (fails, ap succeeds {x = 0 + n} {y = n} (omega arith), all n (ltb→lt n workers fewer))
        | inr whole ↦ omega (arith, first.0, ltb-false n workers whole)
      ]
    ]

start_workers-all :
    (create start : ℕ → Bool) (workers : ℕ)
    → ((i : ℕ) → i < workers → (create i ≡ true) × (start i ≡ true))
    → start_workers create start workers ≡ some workers
unfolding start_workers
start_workers-all create start workers all =
    let created = count_successes-all create workers (λ i lt. (all i lt).0) in
    let started = count_successes-all start workers (λ i lt. (all i lt).1) in
    rw (created, started) (ground arith)

goes_on-untimed : (status : Status) → goes_on status false 0 ≡ false
unfolding goes_on
goes_on-untimed status = ground arith

module _ (setup : Setup) where
  open setup use {neon, arena, mode, seed, workers, duration_ms}

  wait-IsQuiet :
      (rounds : List Round) (flags : Flags)
      → duration_ms ≡ 0
      → IsQuiet rounds
      → wait_for_workers setup rounds flags ≡ flags
  unfolding wait_for_workers
  wait-IsQuiet [] flags untimed quiet = refl
  wait-IsQuiet (round ∷ rounds) flags untimed quiet =
      rw (quiet.0, quiet.1, untimed) (wait-IsQuiet rounds flags untimed quiet.2)

  -- A worker of the first pass that is never stopped.
  abbrev pub first_context : ℕ → WorkerContext
  first_context worker = prepare_worker mode seed worker workers (some (λ read. false)) 0

  -- What `left` workers from number `worker` on find in their slices, one after the other.
  abbrev pub found_by : Events → ℕ → ℕ → Mem → List (List Mismatch)
  found_by events zero worker m = []
  found_by events (suc left) worker m =
      found_words (events.ram worker) arena (first_context worker).config m
      ∷ found_by events left (suc worker)
          (worker_entry neon (events.ram worker) arena (first_context worker) m 0).1

  abbrev pub AreFew : List (List Mismatch) → Type 0
  AreFew [] = Unit {0}
  AreFew (found ∷ founds) = (length found < 2 ^ 64) × AreFew founds

  module _ (events : Events)
      (ok : (i : ℕ) → i < workers → is_supported arena (first_context i).config ≡ true)
      (words : arena.words * word_bytes < 2 ^ 64) (small : seed < 2 ^ 64) where
    run_workers-Found :
        (left worker : ℕ) (m : Mem)
        → worker + left ≤ workers
        → AreFew (found_by events left worker m)
        → let ctxs = (run_workers setup events false 0 left worker m).0 in
          Found ctxs (found_by events left worker m) × Judged ctxs (found_by events left worker m)
    unfolding run_workers prepare_worker stop_requested
    run_workers-Found zero worker m fits few = (tt, tt)
    run_workers-Found (suc left) worker m fits few =
        let one =
          worker_entry_lem neon (events.ram worker) arena (first_context worker) m 0
            (ok worker (omega arith)) words small (λ i. refl) few.0 in
        let rest =
          run_workers-Found left (suc worker)
            (worker_entry neon (events.ram worker) arena (first_context worker) m 0).1 (omega arith)
            few.1 in
        (
          (one.0, few.0, rest.0),
          (
            one.1
                ∙ verdict-length
                    (found_words (events.ram worker) arena (first_context worker).config m),
            rest.1,
          ),
        )

    module _ (untimed : duration_ms ≡ 0)
        (threads : (i : ℕ) → i < workers → (events.create i ≡ true) × (events.start i ≡ true))
        (quiet : IsQuiet events.rounds) (blank : Report) (m : Mem) where
      abbrev ran : List WorkerContext × Mem
      ran = run_workers setup events false 0 workers 0 m

      -- The run after its only pass.
      abbrev after_pass : RunState
      after_pass =
          let s = start_state setup blank m in
          record s { totals = merge_workers ran.0 s.totals; mem = ran.1; passes_completed = 1 }

      threaded_pass-Quick :
          threaded_pass setup events (some workers) (start_state setup blank m)
          ≡ (false, after_pass)
      unfolding threaded_pass
      threaded_pass-Quick =
          rw
            (
              wait-IsQuiet events.rounds (record { stop = false; user_aborted = false }) untimed
                  quiet,
              untimed,
              goes_on-untimed (merge_workers ran.0 (start_state setup blank m).totals).status,
            )
            refl

      pass_body-Quick : pass_body setup events (start_state setup blank m) ≡ (false, after_pass)
      unfolding pass_body
      pass_body-Quick =
          let time_left : time_is_up setup events.now ≡ false = ground arith in
          rw (time_left, start_workers-all events.create events.start workers threads)
            threaded_pass-Quick

final_status-verdict :
    (found : List Mismatch) (gpu_err_batches error_count : ℕ)
    → final_status (verdict found) gpu_err_batches false error_count
      ≡ (if ltb 0 gpu_err_batches then fail else verdict found)
unfolding final_status
final_status-verdict [] g n = ground arith
final_status-verdict (x ∷ xs) g n = ground arith

-- A run without a timer, in which all threads can be created and started, which neither the system
-- nor the player interrupts, whose workers' guards hold, with 64-bit sizes and fewer than 2 ^ 64
-- mismatches in each slice, consists of one pass. Its report is that of all words that differ, in
-- the order of the workers, the phases and the addresses, whatever the memory did; and it fails
-- just if there is one or the GPU found a batch that differs, and passes otherwise.
pub run_test-quick :
    (setup : Setup) (fuel : ℕ) (events : ℕ → Events) (last_ram : ℕ → Mem → Mem)
    (gpu_err_batches : ℕ) (blank : Report) (m : Mem)
    → ((i : ℕ) → i < setup.workers → is_supported setup.arena (first_context setup i).config ≡ true)
    → setup.arena.words * word_bytes < 2 ^ 64
    → setup.seed < 2 ^ 64
    → setup.duration_ms ≡ 0
    → ((i : ℕ) → i < setup.workers → ((events 0).create i ≡ true) × ((events 0).start i ≡ true))
    → IsQuiet (events 0).rounds
    → AreFew setup (found_by setup (events 0) setup.workers 0 m)
    → let found = concat (found_by setup (events 0) setup.workers 0 m) in
      (r : RunState) × (run_test setup (suc fuel) events last_ram gpu_err_batches blank m
        ≡ some (if ltb 0 gpu_err_batches then fail else verdict found, r))
      × (r.totals.report ≡ record_all (report_init blank) found)
      × (r.passes_completed ≡ 1)
unfolding run_test passes conclude fallback
run_test-quick setup fuel events last_ram gpu_err_batches blank m ok words small untimed threads
      quiet few =
    let start = start_state setup blank m in
    let founds = found_by setup (events 0) setup.workers 0 m in
    let done = after_pass setup (events 0) ok words small untimed threads quiet blank m in
    let body = pass_body-Quick setup (events 0) ok words small untimed threads quiet blank m in
    let ended : passes setup (suc fuel) events 0 start ≡ some done = rw body refl in
    let found =
      run_workers-Found setup (events 0) ok words small setup.workers 0 m (omega arith) few in
    let contexts = (run_workers setup (events 0) false 0 setup.workers 0 m).0 in
    let judged = merge_workers-verdict contexts founds start.totals [] refl found.1 in
    (
      done,
      ap (conclude setup last_ram gpu_err_batches) ended
          ∙ ap (λ (t : Status). some (t, done))
              (ap (λ t. final_status t gpu_err_batches false done.totals.report.error_count) judged
                ∙ final_status-verdict (concat founds) gpu_err_batches
                    done.totals.report.error_count),
      merge_workers-report contexts founds start.totals blank [] refl found.0,
      refl,
    )
