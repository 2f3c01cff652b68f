-- ===== src/Arena/Select/Reserve.antt =====
-- The heap kept back for libnx and newlib, out of a loader heap of a given size.
use nx_mem_test.Base.{ℕ, ◌*◌, ◌/◌, ◌%◌, ◌^◌, ◌≤◌, ◌<◌, ◌≡◌, ◌↔◌, arith}
use nx_mem_test.Base.Mask.{and-page_mask}
use nx_mem_test.Types.{page_bytes, mib_bytes}
use nx_mem_test.Arena.Select.{runtime_heap_reserve}

-- For every 64-bit heap size the reserve is whole pages, at most half of the heap and at most
-- 32 MiB, and it is empty exactly below 4 MiB.
pub runtime_heap_reserve_bounds :
    (size : ℕ)
    → size < 2 ^ 64
    → (runtime_heap_reserve size % page_bytes ≡ 0)
      × (2 * runtime_heap_reserve size ≤ size)
      × (runtime_heap_reserve size ≤ 32 * mib_bytes)
      × ((runtime_heap_reserve size ≡ 0) ↔ (size < 4 * mib_bytes))
unfolding runtime_heap_reserve
runtime_heap_reserve_bounds size h = ground (arith, and-page_mask (size / 2))

-- From 4 MiB on it is not small.
pub runtime_heap_reserve_least :
    (size : ℕ) → size < 2 ^ 64 → 4 * mib_bytes ≤ size → 2 * mib_bytes ≤ runtime_heap_reserve size
unfolding runtime_heap_reserve
runtime_heap_reserve_least size h large = ground (arith, and-page_mask (size / 2))
