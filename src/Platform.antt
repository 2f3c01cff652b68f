-- ===== src/Platform.antt =====
-- source/nx/platform_nx.c: how the loader's heap is split into a runtime heap and the memory under
-- test, what memory total is reported, and the mask of usable cores.
pub mod Heap
mod Tests
use nx_mem_test.Base.{
  ℕ, ◌+◌, ◌-◌, ◌*◌, Bool, true, false, ◌&&◌, not, Option, none, some, bit_and, arith,
}
use nx_mem_test.Base.{u64_max, add64, sub64, complement, ltb, ◌==◌, ◌!=◌, if◌then◌else◌}
use nx_mem_test.Types.{page_bytes, mib_bytes}
use nx_mem_test.Arena.Select.{MemorySource, is_source_none, source_none, runtime_heap_reserve}
use nx_mem_test.Arena.Select.{select_launch_safe_memory_total}

-- The result is the `*out` of a call that returns true.
unfoldable pub align_up_uintptr : ℕ → ℕ → Option ℕ
align_up_uintptr value align =
    let mask = sub64 align 1 in
    if ltb (u64_max - mask) value then none else some (bit_and (add64 value mask) (complement mask))

-- The globals that `__libnx_initheap` sets. A null pointer is 0.
pub record Heaps : Type 0 where
  pub fake_heap_start : ℕ
  pub fake_heap_end : ℕ
  pub test_arena_addr : ℕ
  pub test_arena_size : ℕ

abbrev round_down_page : ℕ → ℕ
round_down_page size = bit_and size (complement (page_bytes - 1))

-- The split of `usable_size` bytes at `aligned_start`.
unfoldable pub split_heap : ℕ → ℕ → Heaps
split_heap aligned_start usable_size =
    let reserve = round_down_page (runtime_heap_reserve usable_size) in
    if reserve != 0 && ltb reserve usable_size
    then (record {
      fake_heap_start = aligned_start;
      fake_heap_end = add64 aligned_start reserve;
      test_arena_addr = add64 aligned_start reserve;
      test_arena_size = usable_size - reserve;
    })
    else (record {
      fake_heap_start = aligned_start;
      fake_heap_end = add64 aligned_start usable_size;
      test_arena_addr = 0;
      test_arena_size = 0;
    })

-- What follows the rounding of the start; `none` where the process is aborted.
unfoldable pub heaps_from : ℕ → ℕ → Option ℕ → Option Heaps
unfolding split_heap
heaps_from raw_start raw_size none = none
heaps_from raw_start raw_size (some aligned_start) =
    let prefix = sub64 aligned_start raw_start in
    let usable_size = round_down_page (raw_size - prefix) in
    if ltb prefix raw_size && usable_size != 0
    then some (split_heap aligned_start usable_size)
    else none

-- With an override heap.
unfoldable pub initheap_override : ℕ → ℕ → Option Heaps
unfolding align_up_uintptr heaps_from
initheap_override raw_start raw_size =
    heaps_from raw_start raw_size (align_up_uintptr raw_start page_bytes)

-- `set_heap` is `svcSetHeapSize`: the address of a heap of the size asked for, or `none` where the
-- call fails.
unfoldable pub initheap : Bool → ℕ → ℕ → (ℕ → Option ℕ) → Option Heaps
unfolding initheap_override
initheap true raw_start raw_size set_heap = initheap_override raw_start raw_size
initheap false raw_start raw_size set_heap = elim (set_heap (32 * mib_bytes)) [
  | none ↦ none
  | some heap ↦
      if heap != 0
      then some (record {
        fake_heap_start = heap;
        fake_heap_end = add64 heap (32 * mib_bytes);
        test_arena_addr = 0;
        test_arena_size = 0;
      })
      else none
]

-- `NxmtPlatformMemory`, without the totals that this platform does not query and leaves at zero.
pub record PlatformMemory : Type 0 where
  pub override_heap_addr : ℕ
  pub override_heap_size : ℕ
  pub effective_total_memory : ℕ
  pub switch_total_memory : ℕ
  pub effective_total_source : MemorySource
  pub has_heap_override : Bool
  pub has_effective_total : Bool
  pub has_switch_total : Bool
  pub extended_memory_detected : Bool

unfoldable pub get_memory : Bool → ℕ → Heaps → PlatformMemory
get_memory override_present raw_size heaps =
    let arena_usable =
      override_present && heaps.test_arena_addr != 0 && heaps.test_arena_size != 0 in
    let selected =
      select_launch_safe_memory_total override_present (if override_present then raw_size else 0) in
    let has_total = not (is_source_none selected.source) in
    record {
      override_heap_addr = if arena_usable then heaps.test_arena_addr else 0;
      override_heap_size = if arena_usable then heaps.test_arena_size else 0;
      effective_total_memory = selected.total;
      switch_total_memory = selected.total;
      effective_total_source = selected.source;
      has_heap_override = arena_usable;
      has_effective_total = has_total;
      has_switch_total = has_total;
      extended_memory_detected = selected.extended_memory_detected;
    }

-- `svcGetInfo` gives the mask, or `none` where it fails.
unfoldable pub core_mask : Option ℕ → ℕ
core_mask none = 0x7
core_mask (some mask) = if mask == 0 then 0x7 else mask
