-- ===== src/Arena/Range/Pages.antt =====
-- The arena is the largest run of whole pages inside the range.
use nx_mem_test.Base.{ℕ, ◌+◌, ◌-◌, ◌*◌, ◌/◌, ◌%◌, ◌^◌, ◌≤◌, ◌<◌, ◌≡◌, ◌⊎◌, arith}
use nx_mem_test.Base.{u64_max, ltb, if◌then◌else◌}
use nx_mem_test.Base.Mask.{and-page_mask}
use nx_mem_test.Types.{page_bytes, word_bytes}
use nx_mem_test.Arena.{Arena}
use nx_mem_test.Arena.Range.{zero_arena, arena_of_ends, arena_from_range}

-- The whole computation, with the masks read as roundings.
abbrev rounded : ℕ → ℕ → Arena
rounded base size =
    if ltb (2 ^ 64 - 4096) base
    then zero_arena base
    else if ltb (u64_max - base) size
    then zero_arena ((base + 4095) / 4096 * 4096)
    else arena_of_ends ((base + 4095) / 4096 * 4096) ((base + size) / 4096 * 4096)

arena_from_range-rounded :
    (base size : ℕ) → base < 2 ^ 64 → size < 2 ^ 64 → arena_from_range base size ≡ rounded base size
unfolding arena_from_range
arena_from_range-rounded base size hb hs =
    ground (arith, and-page_mask ((base + 4095) % 2 ^ 64), and-page_mask ((base + size) % 2 ^ 64))

module _ (base size : ℕ) (hb : base < 2 ^ 64) where
  rounded_whole : (rounded base size).words * word_bytes ≡ (rounded base size).size
  unfolding arena_of_ends zero_arena
  rounded_whole = ground arith

  rounded_pages : (rounded base size).size % page_bytes ≡ 0
  unfolding arena_of_ends zero_arena
  rounded_pages = ground arith

  rounded_inside :
      ((rounded base size).size ≡ 0)
      ⊎ (((rounded base size).base % page_bytes ≡ 0)
          × (base ≤ (rounded base size).base)
          × ((rounded base size).base + (rounded base size).size ≤ base + size))
  unfolding arena_of_ends zero_arena
  rounded_inside = ground arith

  rounded_covers :
      (n : ℕ)
      → base ≤ n * page_bytes
      → n * page_bytes + page_bytes ≤ base + size
      → base + size < 2 ^ 64
      → ((rounded base size).base ≤ n * page_bytes)
        × (n * page_bytes + page_bytes ≤ (rounded base size).base + (rounded base size).size)
  unfolding arena_of_ends zero_arena
  rounded_covers n lo hi end = ground arith

-- For every 64-bit base and size, the arena consists of whole words and whole pages, and it is
-- empty or it starts on a page boundary and lies inside the range.
pub arena_from_range_inside :
    (base size : ℕ)
    → base < 2 ^ 64
    → size < 2 ^ 64
    → let a = arena_from_range base size in
      (a.words * word_bytes ≡ a.size)
      × (a.size % page_bytes ≡ 0)
      × ((a.size ≡ 0)
          ⊎ ((a.base % page_bytes ≡ 0) × (base ≤ a.base) × (a.base + a.size ≤ base + size)))
arena_from_range_inside base size hb hs =
    rw (arena_from_range-rounded base size hb hs)
      (rounded_whole base size hb, rounded_pages base size hb, rounded_inside base size hb)

-- If the range ends below 2 ^ 64, every page inside the range lies inside the arena.
pub arena_from_range_covers :
    (base size n : ℕ)
    → base + size < 2 ^ 64
    → base ≤ n * page_bytes
    → n * page_bytes + page_bytes ≤ base + size
    → let a = arena_from_range base size in
      (a.base ≤ n * page_bytes) × (n * page_bytes + page_bytes ≤ a.base + a.size)
arena_from_range_covers base size n end lo hi =
    rw (arena_from_range-rounded base size (omega arith) (omega arith))
      (rounded_covers base size (omega arith) n lo hi end)
