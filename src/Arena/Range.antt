-- ===== src/Arena/Range.antt =====
-- `nxmt_arena_from_range`: the whole pages of a byte range.
pub mod Pages
use nx_mem_test.Base.{ℕ, ◌-◌, ◌/◌, Option, none, some, bit_and}
use nx_mem_test.Base.{u64_max, add64, sub64, complement, ltb, leb, if◌then◌else◌}
use nx_mem_test.Types.{page_bytes, word_bytes}
use nx_mem_test.Arena.{Arena}

-- The result is the `*out` of a call that returns true.
unfoldable pub align_up_u64 : ℕ → ℕ → Option ℕ
align_up_u64 value align =
    let mask = sub64 align 1 in
    if ltb (u64_max - mask) value then none else some (bit_and (add64 value mask) (complement mask))

unfoldable pub align_down_u64 : ℕ → ℕ → ℕ
align_down_u64 value align = bit_and value (complement (sub64 align 1))

unfoldable pub zero_arena : ℕ → Arena
zero_arena base = record { base = base; size = 0; words = 0 }

-- The part after the range is known to end below 2 ^ 64.
unfoldable pub arena_of_ends : ℕ → ℕ → Arena
arena_of_ends aligned_base aligned_end =
    if leb aligned_end aligned_base then zero_arena aligned_base else (record {
      base = aligned_base;
      size = aligned_end - aligned_base;
      words = (aligned_end - aligned_base) / word_bytes;
    })

unfoldable pub arena_from_range : ℕ → ℕ → Arena
unfolding align_up_u64 align_down_u64
arena_from_range raw_base size = elim (align_up_u64 raw_base page_bytes) [
  | none ↦ zero_arena raw_base
  | some aligned_base ↦
      if ltb (u64_max - raw_base) size
      then zero_arena aligned_base
      else arena_of_ends aligned_base (align_down_u64 (add64 raw_base size) page_bytes)
]
