-- ===== src/Runner/Chunks.antt =====
-- What `nxmt_runner_run_pass` is made of: the phases of a mode, the stop flag, the progress and the
-- checksum, and the two loops that write a slice and read it back, chunk by chunk.
pub mod Fills
pub mod Phases
pub mod Slice
use nx_mem_test.Base.{
  ℕ, zero, suc, ◌+◌, ◌-◌, ◌*◌, ◌/◌, ◌%◌, ◌^◌, Bool, true, false, ◌&&◌, ◌||◌, not,
}
use nx_mem_test.Base.{
  Option, none, some, List, [], ◌∷◌, length, bit_xor, add64, mul64, shl64, shr64,
}
use nx_mem_test.Base.{ltb, leb, ◌==◌, ◌!=◌, if◌then◌else◌, loop_by}
use nx_mem_test.Types.{Mode, quick, memory_load, extreme, Status, pass, fail, aborted, unsupported}
use nx_mem_test.Types.{Phase, fixed_a, fixed_5, checker, address, random, walking, narrow}
use nx_mem_test.Types.{bitspread, stream, word_bytes}
use nx_mem_test.Arena.{Arena}
use nx_mem_test.Arena.Split.{split_block_start, split_block_size}
use nx_mem_test.Patterns.{mix64}
use nx_mem_test.Report.{Report}
use nx_mem_test.Runner.{RunConfig, RunStats}
use nx_mem_test.Runner.Memory.{Mem, store}
use nx_mem_test.Runner.Write.{write_chunk}
use nx_mem_test.Runner.Verify.{verify_chunk}

abbrev pub quick_phases : List Phase
quick_phases = fixed_a ∷ address ∷ random ∷ []

abbrev pub memory_load_phases : List Phase
memory_load_phases =
    fixed_a ∷ fixed_5 ∷ checker ∷ bitspread ∷ stream ∷ address ∷ random ∷ walking ∷ []

abbrev pub phase_count_for_mode : Mode → ℕ
phase_count_for_mode quick = length quick_phases
phase_count_for_mode memory_load = length memory_load_phases
phase_count_for_mode extreme = length memory_load_phases

-- The arrays are read inside their bounds only; outside of them this gives the first phase.
abbrev pub phase_at : List Phase → ℕ → Phase
phase_at [] index = fixed_a
phase_at (phase ∷ phases) index = if index == 0 then phase else phase_at phases (index - 1)

abbrev pub phase_for_mode : Mode → ℕ → Phase
phase_for_mode quick index = phase_at quick_phases index
phase_for_mode memory_load index = phase_at memory_load_phases index
phase_for_mode extreme index = phase_at memory_load_phases index

unfoldable pub extreme_cpu_pressure : ℕ → ℕ → ℕ
extreme_cpu_pressure state value = bit_xor state (
    loop_by 1 64 0
      (λ i v.
        let v1 = mix64 (add64 v i) in
        let v2 = bit_xor v1 (shl64 v1 13) in
        let v3 = bit_xor v2 (shr64 v2 7) in bit_xor v3 (shl64 v3 17))
      value)

unfoldable pub is_aligned : Arena → Bool
is_aligned arena = arena.base % 8 == 0

-- The answer of the `polls`-th read of the flag.
unfoldable pub stop_requested : RunConfig → ℕ → Bool
stop_requested config polls = elim config.stop_requested [ none ↦ false | some flag ↦ flag polls ]

unfoldable pub abort_status : Report → ℕ → Status
abort_status report initial_errors = if report.error_count != initial_errors then fail else aborted

unfoldable pub progress_add : RunConfig → ℕ → ℕ → ℕ
progress_add config delta progress =
    if config.progress_bytes && delta != 0 then add64 progress delta else progress

-- What a pass changes: the memory, by word address, the flag reads so far, the progress counter,
-- the checksum and the report.
pub record Run : Type 0 where
  pub mem : Mem
  pub polls : ℕ
  pub progress : ℕ
  pub pressure : ℕ
  pub report : Report

abbrev pub check_chunk : ℕ
check_chunk = 2 ^ 20 / word_bytes

abbrev pub is_extreme : Mode → Bool
is_extreme extreme = true
is_extreme quick = false
is_extreme memory_load = false

-- The inner loop of both phases in extreme mode.
unfoldable pub press : RunConfig → Mem → ℕ → ℕ → ℕ → ℕ
unfolding extreme_cpu_pressure
press config m chunk_p chunk pressure =
    if is_extreme config.mode
    then loop_by 1 chunk 0 (λ k state. extreme_cpu_pressure state (m (chunk_p + k))) pressure
    else pressure

-- The size of the chunk behind `processed` words of `count`.
abbrev pub chunk_at : ℕ → ℕ → ℕ
chunk_at count processed =
    if ltb count (add64 processed check_chunk) then count - processed else check_chunk

-- The end of `nxmt_write_phase`, with `slice` the word address of `write_base`.
abbrev pub inject : RunConfig → ℕ → ℕ → Mem → Mem
inject config slice count m =
    if config.inject_mismatch && ltb 0 count then store m slice (bit_xor (m slice) 0x100) else m

module _ (neon : Bool) (slice start count : ℕ) (phase : Phase) (config : RunConfig) where
  -- One round of the `while` of each phase, behind the test of the flag. `slice` is the word
  -- address of `write_base` and `read_base`.
  unfoldable pub write_round : ℕ → Run → Run
  unfolding press progress_add
  write_round processed s =
      let chunk = chunk_at count processed in
      let m =
        write_chunk neon (slice + processed) chunk (add64 start processed) phase config.seed
          config.pass s.mem in
      record s {
        mem = m;
        pressure = press config m (slice + processed) chunk s.pressure;
        progress = progress_add config (mul64 chunk word_bytes) s.progress;
      }

  unfoldable pub verify_round : ℕ → Run → Run
  unfolding press progress_add
  verify_round processed s =
      let chunk = chunk_at count processed in
      record s {
        report =
            verify_chunk s.mem (slice + processed) chunk (add64 start processed) config s.report
              neon phase;
        pressure = press config s.mem (slice + processed) chunk s.pressure;
        progress = progress_add config (mul64 chunk word_bytes) s.progress;
      }

  -- The `while` itself, with `true` where it ran to its end. Each round handles a word at least, so
  -- `count` rounds are enough.
  unfoldable pub phase_loop : (ℕ → Run → Run) → ℕ → ℕ → Run → Bool × Run
  unfolding stop_requested
  phase_loop round zero processed s = (true, s)
  phase_loop round (suc fuel) processed s =
      let polled = record s { polls = suc s.polls } in
      let rest =
        phase_loop round fuel (processed + chunk_at count processed) (round processed polled) in
      if ltb processed count
      then (if stop_requested config s.polls then (false, polled) else rest)
      else (true, s)

  unfoldable pub write_phase : Run → Bool × Run
  unfolding write_round phase_loop
  write_phase s =
      let done = phase_loop write_round count 0 s in
      if done.0 then (true, record done.1 { mem = inject config slice count done.1.mem }) else done

  unfoldable pub verify_phase : Run → Bool × Run
  unfolding verify_round phase_loop
  verify_phase s = phase_loop verify_round count 0 s
