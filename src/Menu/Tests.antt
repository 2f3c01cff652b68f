-- ===== src/Menu/Tests.antt =====
-- Runs of the menus.
use nx_mem_test.Base.{◌+◌, ◌*◌, ◌<◌, ◌≡◌, ◌⊎◌, refl, true, false, List, [], ◌∷◌, arith}
use nx_mem_test.Types.{extreme, mib_bytes, word_bytes}
use nx_mem_test.Arena.{Arena}
use nx_mem_test.Menu.{Input, run, select, divide_for_gpu}
use nx_mem_test.Menu.Choice.{Sensible, select_lem}
use nx_mem_test.Menu.Gpu.{GpuTakesPart, IsShared, divide_for_gpu_lem}

abbrev nothing : Input
nothing = record {
  a = false;
  b = false;
  x = false;
  y = false;
  up = false;
  down = false;
  plus = false;
}

abbrev large : Arena
large = record { base = 4096; size = 2048 * mib_bytes; words = 256 * mib_bytes }

abbrev keys : List Input
keys =
    record nothing { x = true }
    ∷ record nothing { b = true }
    ∷ record nothing { y = true }
    ∷ record nothing { down = true }
    ∷ record nothing { a = true }
    ∷ []

-- Memory load, back, extreme, one line down, start.
ten_minutes : select 6 large keys ≡ run extreme 600
unfolding select
ten_minutes = refl

select_lem_example : Sensible large (select 6 large keys)
select_lem_example = select_lem 6 large keys (omega arith)

divide_for_gpu_lem_example :
    let d = divide_for_gpu extreme large 4 true in
    (d.cpu_arena.base ≡ 4096)
    × (d.cpu_arena.words * word_bytes ≡ d.cpu_arena.size)
    × (d.cpu_arena.size + d.gpu_pump_region ≡ 2048 * mib_bytes)
    × (0 < d.workers)
    × ((GpuTakesPart extreme large 4 true × IsShared large 4 d)
        ⊎ (¬ (GpuTakesPart extreme large 4 true) × (d.gpu_pump_region ≡ 0) × (d.workers ≡ 4)))
divide_for_gpu_lem_example = divide_for_gpu_lem extreme large 4 true refl (omega arith)
