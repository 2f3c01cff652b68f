-- ===== src/Arena/Tests.antt =====
-- Runs of the arena functions.
use nx_mem_test.Base.{
  ◌+◌, ◌*◌, ◌/◌, ◌%◌, ◌≤◌, ◌<◌, ◌≡◌, ◌⊎◌, ◌↔◌, refl, arith, true, false, some, min, max,
}
use nx_mem_test.Base.{u64_max, ltb, ◌==◌, if◌then◌else◌}
use nx_mem_test.Types.{page_bytes, word_bytes, mib_bytes, gib_bytes}
use nx_mem_test.Arena.{is_large_enough}
use nx_mem_test.Arena.Range.{arena_from_range, arena_of_ends}
use nx_mem_test.Arena.Range.Pages.{arena_from_range_inside, arena_from_range_covers}
use nx_mem_test.Arena.Select.{select_system_memory_total, runtime_heap_reserve}
use nx_mem_test.Arena.Select.Largest.{offer, first_largest, select_system_memory_total_lem}
use nx_mem_test.Arena.Select.Reserve.{runtime_heap_reserve_bounds}
use nx_mem_test.Arena.Percent.{percent_milli, scaled_remainder_term, scale}
use nx_mem_test.Arena.Percent.Saturate.{percent_milli_lem}
use nx_mem_test.Arena.Split.{split_block_start, split_block_size}
use nx_mem_test.Arena.Split.Partition.{split_block_partition}

from_1001 : (arena_from_range 0x1001 0x3000).size ≡ 0x2000
unfolding arena_from_range arena_of_ends
from_1001 = refl

not_large : is_large_enough (arena_from_range 0x1001 0x3000) 0x3000 ≡ false
unfolding arena_from_range is_large_enough arena_of_ends
not_large = refl

two_thirds : percent_milli 2 3 ≡ some 66666
unfolding percent_milli scaled_remainder_term
two_thirds = refl

-- The reserve of a 63 MiB heap is almost twice that of a 64 MiB heap.
reserve_63 :
    (runtime_heap_reserve (63 * mib_bytes) ≡ 63 * mib_bytes / 2)
    × (runtime_heap_reserve (64 * mib_bytes) ≡ 16 * mib_bytes)
unfolding runtime_heap_reserve
reserve_63 = (refl, refl)

arena_from_range_inside_example :
    let a = arena_from_range 5000 20000 in
    (a.words * word_bytes ≡ a.size)
    × (a.size % page_bytes ≡ 0)
    × ((a.size ≡ 0)
        ⊎ ((a.base % page_bytes ≡ 0) × (5000 ≤ a.base) × (a.base + a.size ≤ 5000 + 20000)))
arena_from_range_inside_example = arena_from_range_inside 5000 20000 (omega arith) (omega arith)

arena_from_range_covers_example :
    let a = arena_from_range 5000 20000 in
    (a.base ≤ 3 * page_bytes) × (3 * page_bytes + page_bytes ≤ a.base + a.size)
arena_from_range_covers_example =
    arena_from_range_covers 5000 20000 3 (omega arith) (omega arith) (omega arith)

select_system_memory_total_lem_example : select_system_memory_total true 8 false 9 true 8 ≡ (
    let largest = max (offer true 8) (max (offer false 9) (offer true 8)) in
    record {
      total = largest;
      source = first_largest (offer true 8) (offer false 9) (offer true 8);
      extended_memory_detected = ltb (4 * gib_bytes) largest;
    })
select_system_memory_total_lem_example = select_system_memory_total_lem true 8 false 9 true 8

runtime_heap_reserve_bounds_example :
    (runtime_heap_reserve 10000000 % page_bytes ≡ 0)
    × (2 * runtime_heap_reserve 10000000 ≤ 10000000)
    × (runtime_heap_reserve 10000000 ≤ 32 * mib_bytes)
    × ((runtime_heap_reserve 10000000 ≡ 0) ↔ (10000000 < 4 * mib_bytes))
runtime_heap_reserve_bounds_example = runtime_heap_reserve_bounds 10000000 (omega arith)

percent_milli_lem_example :
    percent_milli 2 3 ≡ some (if 3 == 0 then 0 else min u64_max (2 * scale / 3))
percent_milli_lem_example = percent_milli_lem 2 3 (omega arith) (omega arith)

split_block_partition_example :
    (split_block_start 10 3 0 ≡ 0)
    × (split_block_start 10 3 3 ≡ 10)
    × (split_block_start 10 3 (1 + 1) ≡ split_block_start 10 3 1 + split_block_size 10 3 1)
    × (10 / 3 ≤ split_block_size 10 3 1)
    × (split_block_size 10 3 1 ≤ 10 / 3 + 1)
    × (split_block_start 10 3 1 + split_block_size 10 3 1 ≤ 10)
split_block_partition_example = split_block_partition 10 3 1 (omega arith) (omega arith)
