-- ===== src/GpuPump/Tests.antt =====
-- Runs of the pump.
use nx_mem_test.Base.{
  ℕ, ◌+◌, ◌*◌, ◌%◌, ◌≤◌, ◌<◌, ◌≡◌, ◌⊎◌, refl, true, false, not, some, none, List, [], ◌∷◌, length,
  u64, u32, arith, ◌==◌,
}
use nx_mem_test.Types.{page_bytes, mib_bytes}
use nx_mem_test.Runner.Memory.{Mem, fill}
use nx_mem_test.GpuPump.{
  batch, local_x, bytes_per_invocation, num_groups, Launch, layout, pump_start, Counters, Cycle,
  add_to, pump_cycles, pump_fill_src_pattern, cmd_bytes, shader_bytes, result_bytes,
}
use nx_mem_test.GpuPump.Blocks.{pump_start-inside}
use nx_mem_test.GpuPump.Count.{cycles_run, mismatched, pump_cycles_lem}
use nx_mem_test.GpuPump.Fill.{pattern_word, pump_fill_src_pattern_lem}
use nx_mem_test.GpuPump.Session.{number, queue, Driver, Blob, pump_setup, pump_thread_entry}
use nx_mem_test.GpuPump.Session.Balance.{
  is_ordered, none_held, all_held, everything, pump_thread_entry_lem,
}

-- What `main` passes: the last 256 MiB of an arena that begins at 1 GiB, and buffers of 64 MiB.
abbrev base : ℕ
base = 1792 * mib_bytes

abbrev launched : Launch
launched = record { thread_created = true; thread_started = true; init_failed = false }

starts :
    pump_start (some base) (256 * mib_bytes) (64 * mib_bytes) true launched
    ≡ some (layout base (64 * mib_bytes))
unfolding pump_start
starts = refl

too_small : pump_start (some base) (128 * mib_bytes) (64 * mib_bytes) true launched ≡ none
unfolding pump_start
too_small = refl

pump_start-inside_example :
    let l = layout base (64 * mib_bytes) in
    (l.cmd ≡ base)
    × (l.cmd + cmd_bytes ≡ l.shader)
    × (l.shader + shader_bytes ≡ l.result)
    × (l.result + result_bytes ≡ l.src)
    × (l.src + l.buffer ≡ l.dst)
    × (l.dst + l.buffer ≤ base + 256 * mib_bytes)
    × (64 * mib_bytes ≤ l.buffer)
    × (l.buffer < 64 * mib_bytes + page_bytes)
    × (l.src % page_bytes ≡ 0)
    × (l.dst % page_bytes ≡ 0)
    × (l.buffer % page_bytes ≡ 0)
    × (u32 l.buffer ≡ l.buffer)
    × (num_groups l.buffer * local_x * bytes_per_invocation ≡ l.buffer)
pump_start-inside_example =
    pump_start-inside base (256 * mib_bytes) (64 * mib_bytes) true launched
      (layout base (64 * mib_bytes)) starts (omega arith) (omega arith)

abbrev blank : Mem
blank a = 0

pump_fill_src_pattern_lem_example :
    pump_fill_src_pattern true 512 4096 5 blank ≡ fill 512 512 (pattern_word 5) blank
pump_fill_src_pattern_lem_example = pump_fill_src_pattern_lem true 512 4096 5 blank (omega arith)

abbrev cycles : List Cycle
cycles =
    record { mismatch = false; device_error = false }
    ∷ record { mismatch = true; device_error = false }
    ∷ record { mismatch = false; device_error = true }
    ∷ record { mismatch = true; device_error = false }
    ∷ []

abbrev none_yet : Counters
none_yet = record { progress = some 0; verified = some 0; errors = some 0 }

-- The cycle behind the error is not run.
three_cycles :
    pump_cycles 4096 cycles none_yet
    ≡ record { progress = some 196608; verified = some 3; errors = some 1 }
unfolding pump_cycles
three_cycles = refl

pump_cycles_lem_example :
    let ran = cycles_run cycles in
    pump_cycles 4096 cycles none_yet ≡ record {
      progress = add_to (some 0) (u64 (length ran * (2 * batch * 4096)));
      verified = add_to (some 0) (u64 (length ran));
      errors = add_to (some 0) (u64 (mismatched ran));
    }
pump_cycles_lem_example =
    pump_cycles_lem 4096 cycles none_yet (omega arith) (omega arith) (omega arith)

-- The queue cannot be created.
abbrev no_queue : Driver
no_queue = record { creates = λ r. not (number r == number queue); reports_error = λ r. false }

abbrev blob : Blob
blob = record { total = 2048; control_sz = 512; code_sz = 1024 }

pump_thread_entry_lem_example :
    let session = pump_thread_entry no_queue blob 4096 cycles none_yet in
    let ready = pump_setup no_queue blob [] in
    (is_ordered session.past ≡ true)
    × (none_held everything session.past ≡ true)
    × (session.init_failed ≡ not ready.0)
    × (((session.init_failed ≡ true) × (session.counters ≡ none_yet))
        ⊎ ((all_held everything ready.1 ≡ true)
            × (session.counters ≡ pump_cycles 4096 cycles none_yet)))
pump_thread_entry_lem_example = pump_thread_entry_lem no_queue blob 4096 cycles none_yet
