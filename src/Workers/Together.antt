-- ===== src/Workers/Together.antt =====
-- The workers of a pass run at the same time on one memory: each of them does what it does alone.
use nx_mem_test.Base.{
  ℕ, ◌+◌, ◌*◌, ◌/◌, ◌^◌, ◌≤◌, ◌<◌, ◌≡◌, ◌≢◌, refl, ap, ◌∙◌, ◌⊎◌, inl, inr, Bool, true, false, ◌&&◌,
  arith, Bool-cases, ltb, ltb→lt, leb, Option, List,
}
use nx_mem_test.Base.Schedule.{turns, AllBelow, System, run_schedule, run_schedule-alone}
use nx_mem_test.Types.{Mode, word_bytes}
use nx_mem_test.Arena.{Arena}
use nx_mem_test.Arena.Split.{split_block_start, split_block_size}
use nx_mem_test.Arena.Split.Partition.{split_block_partition, split_block_disjoint}
use nx_mem_test.Report.{report_init}
use nx_mem_test.Runner.{RunConfig}
use nx_mem_test.Runner.Memory.{Mem}
use nx_mem_test.Runner.Chunks.{is_aligned, phase_count_for_mode}
use nx_mem_test.Runner.Pass.{
  is_supported, run_phases, run_pass, run_supported, fresh_stats, start_run,
}
use nx_mem_test.Runner.Pass.Verdict.{slice_words, slice_address, worker-lt}
use nx_mem_test.Runner.Steps.{before, ended, Local, local_of, step}
use nx_mem_test.Runner.Steps.Alone.{finished, iterate-run_phases}
use nx_mem_test.Runner.Steps.Apart.{step-Outside, step-own_only}
use nx_mem_test.Workers.{
  WorkerContext, init_worker_context, prepare_worker, worker_entry, zero_report,
}

-- Whether word `a` of the memory lies in the slice of worker `i` of `workers`.
abbrev pub owned_by : Arena → ℕ → ℕ → ℕ → Bool
owned_by arena workers i a =
    let address =
      (arena.base + split_block_start arena.words workers i * word_bytes) / word_bytes in
    leb address a && ltb a (address + split_block_size arena.words workers i)

module _ (neon : Bool) (ram : ℕ → ℕ → Mem → Mem) (arena : Arena) (mode : Mode)
    (seed workers pass_index : ℕ) (flag : ℕ → Option (ℕ → Bool)) where
  -- What worker `i` is given. Each worker reads the flag when it comes to it, and has its own
  -- answers.
  abbrev context_of : ℕ → WorkerContext
  context_of i = prepare_worker mode seed i workers (flag i) pass_index

  abbrev first_word : ℕ → ℕ
  first_word i = split_block_start arena.words workers i

  abbrev words_of : ℕ → ℕ
  words_of i = split_block_size arena.words workers i

  -- The address of its first word.
  abbrev word_at : ℕ → ℕ
  word_at i = (arena.base + first_word i * word_bytes) / word_bytes

  abbrev owns : ℕ → ℕ → Bool
  owns = owned_by arena workers

  -- One step of worker `i`.
  abbrev pub worker_step : ℕ → Local → Mem → Local × Mem
  worker_step i = step neon (ram i) (word_at i) (first_word i) (words_of i) 0 (context_of i).config

  -- All workers before their first step.
  abbrev pub started : Mem → System worker_step
  started m = record {
    locals = λ i.
        local_of (before (phase_count_for_mode mode) 0) fresh_stats
          (start_run (context_of i).config (report_init zero_report) m 0);
    mem = m;
  }

  module _ (aligned : is_aligned arena ≡ true) (words : arena.words * word_bytes < 2 ^ 64)
      (small : seed < 2 ^ 64) where
    word_at-sum : (i : ℕ) → word_at i ≡ arena.base / word_bytes + first_word i
    unfolding is_aligned
    word_at-sum i = ground arith

    share-bounds :
        (i : ℕ)
        → i < workers
        → (words_of i * word_bytes < 2 ^ 64) × ((first_word i + words_of i) * word_bytes ≤ 2 ^ 64)
    share-bounds i below =
        let parts = split_block_partition arena.words workers i (omega arith) below in
        (omega (arith, parts.5), omega (arith, parts.5))

    owns-apart :
        (i j : ℕ) → i < workers → j < workers → i ≢ j → (a : ℕ) → owns i a ≡ true → owns j a ≡ false
    owns-apart i j below below' ne a own =
        let here = word_at-sum i in
        let there = word_at-sum j in
        let start_after = split_block_disjoint arena.words workers in
        elim (Bool-cases (ltb i j)) [
          | inl lower ↦
              ground (arith, here, there, start_after i j (omega arith) below' (ltb→lt i j lower))
          | inr upper ↦
              ground (arith, here, there, start_after j i (omega arith) below (ground arith))
        ]

    not_owned : (i a : ℕ) → owns i a ≡ false → (a < word_at i) ⊎ (word_at i + words_of i ≤ a)
    not_owned i a other = ground arith

    -- The memory under test changes the words of the workers' slices on their own.
    module _
        (ram-Outside : (i p : ℕ) (m : Mem) (a : ℕ)
          → i < workers
          → owns i a ≡ false
          → ram i p m a ≡ m a)
        (ram-own_only : (i p : ℕ) (m m' : Mem)
          → i < workers
          → ((a : ℕ) → owns i a ≡ true → m a ≡ m' a)
          → (a : ℕ) → owns i a ≡ true
          → ram i p m a ≡ ram i p m' a) where
      worker_step-frame :
          (j : ℕ)
          → j < workers
          → (l : Local) (m : Mem) (a : ℕ) → owns j a ≡ false
          → (worker_step j l m).1 a ≡ m a
      unfolding prepare_worker init_worker_context
      worker_step-frame j below l m a other =
          let bounds = share-bounds j below in
          step-Outside neon (ram j) (word_at j) (first_word j) (words_of j) 0 (context_of j).config
            bounds.0 bounds.1 small (λ p m' b out. ram-Outside j p m' b below (ground arith)) l m a
            (not_owned j a other)

      worker_step-own_only :
          (j : ℕ)
          → j < workers
          → (l : Local) (m m' : Mem) → ((a : ℕ) → owns j a ≡ true → m a ≡ m' a)
          → ((worker_step j l m).0 ≡ (worker_step j l m').0)
            × ((a : ℕ) → owns j a ≡ true → (worker_step j l m).1 a ≡ (worker_step j l m').1 a)
      unfolding prepare_worker init_worker_context
      worker_step-own_only j below l m m' same =
          let bounds = share-bounds j below in
          let alike =
            step-own_only neon (ram j) (word_at j) (first_word j) (words_of j) 0
              (context_of j).config bounds.0 bounds.1 small
              (λ p n n' h a lo hi.
                ram-own_only j p n n' below (λ b own. h b (ground arith) (ground arith)) a
                  (ground arith))
              l m m' (λ a lo hi. same a (ground arith)) in
          (alike.0, λ a own. alike.1 a (ground arith) (ground arith))

      -- Worker `i` after a whole pass that it runs alone.
      abbrev alone : ℕ → Mem → Local × Mem
      alone i m = finished (
          run_phases neon (ram i) (word_at i) (first_word i) (words_of i) 0 (context_of i).config
            (phase_count_for_mode mode) 0
            (start_run (context_of i).config (report_init zero_report) m 0) fresh_stats)

      together :
          (i : ℕ) (schedule : List ℕ) (m : Mem)
          → i < workers
          → AllBelow workers schedule
          → phase_count_for_mode mode * (2 * words_of i + 3) + 1 ≤ turns i schedule
          → let last = run_schedule worker_step schedule (started m) in
            (last.locals i ≡ (alone i m).0)
            × ((a : ℕ) → owns i a ≡ true → last.mem a ≡ (alone i m).1 a)
      unfolding prepare_worker init_worker_context
      together i schedule m below all enough =
          let bounds = share-bounds i below in
          let own =
            run_schedule-alone worker_step owns workers owns-apart worker_step-frame
              worker_step-own_only i schedule (started m) ((started m).locals i, m) below all
              (refl, λ a _. refl) in
          let ends =
            iterate-run_phases neon (ram i) (word_at i) (first_word i) (words_of i) 0
              (context_of i).config bounds.0 (phase_count_for_mode mode) (turns i schedule)
              (start_run (context_of i).config (report_init zero_report) m 0) fresh_stats enough in
          (
            own.0 ∙ ap (λ (t : Local × Mem). t.0) ends,
            λ a mine. own.1 a mine ∙ ap (λ (t : Local × Mem). t.1 a) ends,
          )

is_supported-aligned :
    (arena : Arena) (config : RunConfig)
    → is_supported arena config ≡ true
    → is_aligned arena ≡ true
unfolding is_supported
is_supported-aligned arena config ok = ground arith

-- Any number of workers of one pass, with an aligned arena and a 64-bit seed, take turns on the same memory, each turn a read of the stop flag with the chunk behind it or the end of a phase, in any order that
-- gives worker `i` enough turns. If the guards of worker `i` hold, and the memory under test changes the words of each worker's slice on their own, then worker `i` ends with the status, the report, the statistics and the progress that `nxmt_worker_entry` gives it when it runs alone, and leaves its slice as it does then.
pub worker_entry-together :
    (neon : Bool) (ram : ℕ → ℕ → Mem → Mem) (arena : Arena) (mode : Mode)
    (seed workers pass_index : ℕ) (flag : ℕ → Option (ℕ → Bool)) (m : Mem) (schedule : List ℕ)
    (i : ℕ)
    → let ctx = prepare_worker mode seed i workers (flag i) pass_index in
      let slice = slice_address arena ctx.config in
      is_supported arena ctx.config ≡ true
      → arena.words * word_bytes < 2 ^ 64
      → seed < 2 ^ 64
      → ((j p : ℕ) (m : Mem) (a : ℕ)
          → j < workers
          → owned_by arena workers j a ≡ false
          → ram j p m a ≡ m a)
      → ((j p : ℕ) (m m' : Mem)
          → j < workers
          → ((a : ℕ) → owned_by arena workers j a ≡ true → m a ≡ m' a)
          → (a : ℕ) → owned_by arena workers j a ≡ true
          → ram j p m a ≡ ram j p m' a)
      → AllBelow workers schedule
      → phase_count_for_mode mode * (2 * slice_words arena ctx.config + 3) + 1 ≤ turns i schedule
      → let alone = worker_entry neon (ram i) arena ctx m 0 in
        let step = worker_step neon ram arena mode seed workers pass_index flag in
        let last =
          run_schedule step schedule (started neon ram arena mode seed workers pass_index flag m) in
        let own = last.locals i in
        (own.place ≡ ended alone.0.status)
        × (own.report ≡ alone.0.report)
        × (own.stats ≡ alone.0.stats)
        × (own.progress ≡ alone.2)
        × ((a : ℕ) → owned_by arena workers i a ≡ true → last.mem a ≡ alone.1 a)
unfolding prepare_worker init_worker_context worker_entry run_pass run_supported report_init
worker_entry-together neon ram arena mode seed workers pass_index flag m schedule i ok words small
      outside own_only all enough =
    let config = (prepare_worker mode seed i workers (flag i) pass_index).config in
    let below : i < workers = worker-lt arena config ok words in
    let aligned : is_aligned arena ≡ true = is_supported-aligned arena config ok in
    let done =
      together neon ram arena mode seed workers pass_index flag aligned words small outside own_only
        i schedule m below all enough in
    rw ok (
      ap (λ (l : Local). l.place) done.0,
      ap (λ (l : Local). l.report) done.0,
      ap (λ (l : Local). l.stats) done.0,
      ap (λ (l : Local). l.progress) done.0,
      done.1,
    )
