-- ===== src/Menu.antt =====
-- source/nx/main.c, the choices before a run: the mode menu, the duration menu, and the part of the
-- arena and the core that are given to the GPU.
pub mod Choice
pub mod Gpu
mod Tests
use nx_mem_test.Base.{
  ℕ, zero, suc, ◌+◌, ◌-◌, ◌*◌, ◌/◌, Bool, true, false, not, ◌&&◌, ◌||◌, Option, none, some,
}
use nx_mem_test.Base.{List, [], ◌∷◌, ltb, leb, ◌==◌, if◌then◌else◌}
use nx_mem_test.Types.{Mode, quick, memory_load, extreme, mib_bytes, gib_bytes, word_bytes}
use nx_mem_test.Arena.{Arena}

-- `NxmtInput`
pub record Input : Type 0 where
  pub a : Bool
  pub b : Bool
  pub x : Bool
  pub y : Bool
  pub up : Bool
  pub down : Bool
  pub plus : Bool

-- The seconds of `kDurations`.
abbrev pub durations : List ℕ
durations = 180 ∷ 300 ∷ 600 ∷ 900 ∷ 1800 ∷ 3600 ∷ []

-- The array is read inside its bounds only.
abbrev pub duration_at : List ℕ → ℕ → ℕ
duration_at [] index = 0
duration_at (seconds ∷ rest) index = if index == 0 then seconds else duration_at rest (index - 1)

pub data DurationChoice : Type 0 where
  chose : ℕ → DurationChoice
  leave back : DurationChoice

-- The selected line after the tests of the up and down keys.
unfoldable pub move : Input → ℕ → ℕ
move input sel =
    let up = if input.up && ltb 0 sel then sel - 1 else sel in
    if input.down && ltb up 5 then up + 1 else up

-- One input for each round of the loop, until `appletMainLoop` is false where the list ends; the
-- inputs that are left come with the result.
unfoldable pub duration_loop : ℕ → List Input → DurationChoice × List Input
unfolding move
duration_loop sel [] = (leave, [])
duration_loop sel (input ∷ inputs) =
    let rest = duration_loop (move input sel) inputs in
    if input.plus
    then (leave, inputs)
    else if input.b
    then (back, inputs)
    else if input.a
    then (chose (duration_at durations sel), inputs)
    else rest

unfoldable pub choose_duration : List Input → DurationChoice × List Input
unfolding duration_loop
choose_duration inputs = duration_loop 1 inputs

-- `none` is false, for leaving; the benchmark screen behind `b` comes back to the menu.
unfoldable pub choose_mode : Arena → List Input → Option Mode × List Input
choose_mode arena [] = (none, [])
choose_mode arena (input ∷ inputs) =
    let has_memory_load = leb (256 * mib_bytes) arena.size in
    let has_extreme = leb (512 * mib_bytes) arena.size in
    let rest = choose_mode arena inputs in
    if input.plus
    then (none, inputs)
    else if input.a
    then (some quick, inputs)
    else if input.x && has_memory_load
    then (some memory_load, inputs)
    else if input.y && has_extreme
    then (some extreme, inputs)
    else rest

abbrev is_quick : Mode → Bool
is_quick quick = true
is_quick memory_load = false
is_quick extreme = false

-- How the two menus end: with a run of a mode for a number of seconds, or leaving the program.
pub data Selection : Type 0 where
  run : Mode → ℕ → Selection
  exit out_of_fuel : Selection

-- What follows the choice of a mode, with `again` for coming back to the mode menu.
unfoldable pub after_mode : Mode → DurationChoice → Selection → Selection
after_mode mode (chose seconds) again = if is_quick mode then run mode 0 else run mode seconds
after_mode mode leave again = if is_quick mode then run mode 0 else exit
after_mode mode back again = if is_quick mode then run mode 0 else again

-- The `while (true)` of `main` around both menus.
unfoldable pub select : ℕ → Arena → List Input → Selection
unfolding choose_duration choose_mode after_mode
select zero arena inputs = out_of_fuel
select (suc fuel) arena inputs =
    let picked = choose_mode arena inputs in
    let timed = choose_duration picked.1 in
    let again = select fuel arena timed.1 in
    elim picked.0 [ none ↦ exit | some mode ↦ after_mode mode timed.0 again ]

-- The arena of the CPU workers and their number. `pump_starts` tells whether `nxmt_gpu_pump_start`
-- succeeds.
pub record Division : Type 0 where
  pub cpu_arena : Arena
  pub gpu_storage : ℕ
  pub gpu_pump_region : ℕ
  pub workers : ℕ

unfoldable pub divide_for_gpu : Mode → Arena → ℕ → Bool → Division
divide_for_gpu mode arena workers pump_starts =
    let all : Division = record {
      cpu_arena = arena;
      gpu_storage = 0;
      gpu_pump_region = 0;
      workers = workers;
    } in
    let region = 256 * mib_bytes in
    if not (is_quick mode) && leb (1024 * mib_bytes) arena.size && leb 2 workers
    then (if pump_starts
        then (record {
          cpu_arena = record arena {
            size = arena.size - region;
            words = (arena.size - region) / word_bytes;
          };
          gpu_storage = arena.base + (arena.size - region);
          gpu_pump_region = region;
          workers = workers - 1;
        })
        else all)
    else all
