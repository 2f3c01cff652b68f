-- ===== src/Platform/Heap.antt =====
-- The runtime heap and the memory under test share the loader's heap.
use nx_mem_test.Base.{
  ℕ, ◌+◌, ◌-◌, ◌*◌, ◌/◌, ◌%◌, ◌^◌, ◌≤◌, ◌<◌, ◌≡◌, ◌⊎◌, none, some, arith, refl, ap, ◌∙◌,
}
use nx_mem_test.Base.{sub64, ltb, ◌&&◌, true, ◌!=◌, if◌then◌else◌}
use nx_mem_test.Base.Mask.{and-page_mask}
use nx_mem_test.Types.{page_bytes, mib_bytes}
use nx_mem_test.Arena.Select.{runtime_heap_reserve}
use nx_mem_test.Arena.Select.Reserve.{runtime_heap_reserve_bounds, runtime_heap_reserve_least}
use nx_mem_test.Platform.{Heaps, initheap_override, heaps_from, align_up_uintptr, split_heap}

-- What is handed on of the loader's heap, and the runtime's part of it.
abbrev pub runtime_size : Heaps → ℕ
runtime_size h = h.fake_heap_end - h.fake_heap_start

abbrev pub used_size : Heaps → ℕ
used_size h = runtime_size h + h.test_arena_size

-- Below 4 MiB nothing is left to test. From there on the memory under test lies straight behind the
-- runtime heap, which has 2 MiB at least and 32 MiB at most, and is at least as large as that.
abbrev pub Shares : Heaps → Type 0
Shares h =
    ((used_size h < 4 * mib_bytes) × (h.test_arena_size ≡ 0) × (h.test_arena_addr ≡ 0))
    ⊎ ((4 * mib_bytes ≤ used_size h)
        × (h.test_arena_addr ≡ h.fake_heap_end)
        × (2 * mib_bytes ≤ runtime_size h)
        × (runtime_size h ≤ 32 * mib_bytes)
        × (runtime_size h ≤ h.test_arena_size))

-- A split of the bytes from `raw` on, `size` of them, into whole pages, with less than two pages
-- unused.
abbrev pub Splits : ℕ → ℕ → Heaps → Type 0
Splits raw size h =
    (h.fake_heap_start % page_bytes ≡ 0)
    × (h.fake_heap_end % page_bytes ≡ 0)
    × (raw ≤ h.fake_heap_start)
    × (h.fake_heap_start < h.fake_heap_end)
    × (h.fake_heap_end + h.test_arena_size ≤ raw + size)
    × (raw + size < h.fake_heap_end + h.test_arena_size + 2 * page_bytes)
    × Shares h
    × (h.test_arena_size % page_bytes ≡ 0)

split_heap-Splits :
    (start usable : ℕ)
    → start + usable < 2 ^ 64
    → start % page_bytes ≡ 0
    → usable % page_bytes ≡ 0
    → 0 < usable
    → Splits start usable (split_heap start usable)
unfolding split_heap
split_heap-Splits start usable h s u pos =
    let bounds = runtime_heap_reserve_bounds usable (omega arith) in
    let least = runtime_heap_reserve_least usable (omega arith) in
    let page = and-page_mask (runtime_heap_reserve usable) (omega (arith, bounds.1)) in
    ground (arith, bounds, least, page)

-- The loader's heap, rounded to whole pages inwards.
abbrev inner_start : ℕ → ℕ
inner_start raw = (raw + 4095) / 4096 * 4096

abbrev inner_size : ℕ → ℕ → ℕ
inner_size raw size = (size - (inner_start raw - raw)) / 4096 * 4096

align_up_uintptr-inner :
    (raw : ℕ) → raw + 4095 < 2 ^ 64 → align_up_uintptr raw page_bytes ≡ some (inner_start raw)
unfolding align_up_uintptr
align_up_uintptr-inner raw h = ground (arith, and-page_mask ((raw + 4095) % 2 ^ 64))

initheap_override-inner :
    (raw size : ℕ)
    → 2 * page_bytes ≤ size
    → raw + size < 2 ^ 64
    → initheap_override raw size ≡ some (split_heap (inner_start raw) (inner_size raw size))
unfolding initheap_override heaps_from
initheap_override-inner raw size big fits =
    let prefix : sub64 (inner_start raw) raw ≡ inner_start raw - raw = omega arith in
    let down = and-page_mask (size - (inner_start raw - raw)) (omega arith) in
    ap (heaps_from raw size) (align_up_uintptr-inner raw (omega arith))
    ∙ rw (prefix, down) (inner (inner_start raw) (inner_size raw size) (ground arith))
  where
    inner :
        (start usable : ℕ)
        → ltb (start - raw) size && usable != 0 ≡ true
        → (if ltb (start - raw) size && usable != 0 then some (split_heap start usable) else none)
          ≡ some (split_heap start usable)
    inner start usable e = rw e refl

-- If the loader's heap has two pages at least and ends below 2 ^ 64, then it is split into whole
-- pages with less than two pages of it unused. If these are less than 4 MiB, all of them are the
-- runtime heap and there is no memory under test. Otherwise the memory under test lies straight
-- behind the runtime heap, and is not smaller; the runtime heap has from 2 to 32 MiB.
pub initheap_override_lem :
    (raw size : ℕ)
    → 2 * page_bytes ≤ size
    → raw + size < 2 ^ 64
    → (h : Heaps) × (initheap_override raw size ≡ some h) × Splits raw size h
initheap_override_lem raw size big fits =
    let start = inner_start raw in
    let usable = inner_size raw size in
    let split =
      split_heap-Splits start usable (omega arith) (omega arith) (omega arith) (omega arith) in
    (
      split_heap start usable,
      initheap_override-inner raw size big fits,
      (
        split.0,
        split.1,
        omega (arith, split.2),
        split.3,
        omega (arith, split.4),
        omega (arith, split.5),
        split.6,
        split.7,
      ),
    )
