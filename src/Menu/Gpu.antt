-- ===== src/Menu/Gpu.antt =====
-- The part of the arena that is given to the GPU.
use nx_mem_test.Base.{ℕ, suc, ◌+◌, ◌*◌, ◌≤◌, ◌<◌, ◌≡◌, ◌≢◌, ◌⊎◌, Bool, true, arith}
use nx_mem_test.Types.{Mode, quick, memory_load, extreme, mib_bytes, word_bytes}
use nx_mem_test.Arena.{Arena}
use nx_mem_test.Menu.{Division, divide_for_gpu}

-- The GPU takes part in a timed mode only, on an arena of 1 GiB or more, with a core to spare, and
-- if its thread starts.
abbrev pub GpuTakesPart : Mode → Arena → ℕ → Bool → Type 0
GpuTakesPart mode arena workers pump_starts =
    (mode ≢ quick) × (1024 * mib_bytes ≤ arena.size) × (2 ≤ workers) × (pump_starts ≡ true)

-- The last 256 MiB are those of the GPU, which takes the core of one worker.
abbrev pub IsShared : Arena → ℕ → Division → Type 0
IsShared arena workers d =
    (d.gpu_pump_region ≡ 256 * mib_bytes)
    × (d.gpu_storage ≡ arena.base + d.cpu_arena.size)
    × (suc d.workers ≡ workers)
    × (768 * mib_bytes ≤ d.cpu_arena.size)

-- For an arena of whole words and at least one worker: the CPU workers keep the start of the arena,
-- in whole words, the region of the GPU makes up the rest of it, and there is at least one worker
-- left. If the mode is timed, the arena has 1 GiB at least, there are two workers at least and the
-- pump starts, then the GPU gets the 256 MiB straight behind the workers' arena, which has 768 MiB
-- at least, and one of the workers is given up. In all other cases the workers keep the whole arena
-- and stay as many as they are.
pub divide_for_gpu_lem :
    (mode : Mode) (arena : Arena) (workers : ℕ) (pump_starts : Bool)
    → arena.words * word_bytes ≡ arena.size
    → 0 < workers
    → let d = divide_for_gpu mode arena workers pump_starts in
      (d.cpu_arena.base ≡ arena.base)
      × (d.cpu_arena.words * word_bytes ≡ d.cpu_arena.size)
      × (d.cpu_arena.size + d.gpu_pump_region ≡ arena.size)
      × (0 < d.workers)
      × ((GpuTakesPart mode arena workers pump_starts × IsShared arena workers d)
          ⊎ (¬ (GpuTakesPart mode arena workers pump_starts)
              × (d.gpu_pump_region ≡ 0)
              × (d.workers ≡ workers)))
unfolding divide_for_gpu
divide_for_gpu_lem quick arena workers pump_starts whole some_worker = ground arith
divide_for_gpu_lem memory_load arena workers pump_starts whole some_worker = ground arith
divide_for_gpu_lem extreme arena workers pump_starts whole some_worker = ground arith
