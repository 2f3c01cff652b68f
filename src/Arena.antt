-- ===== src/Arena.antt =====
-- source/core/arena.c: the memory range under test, and the sizes computed from it.
pub mod Range
pub mod Select
pub mod Percent
pub mod Split
mod Tests
use nx_mem_test.Base.{ℕ, Bool, leb}

-- `NxmtArena`. The base is an address; a C pointer is the number of its first byte.
pub record Arena : Type 0 where
  pub base : ℕ
  pub size : ℕ
  pub words : ℕ

-- The `arena != 0` of `nxmt_arena_is_large_enough` is met by every value of the record.
unfoldable pub is_large_enough : Arena → ℕ → Bool
is_large_enough arena minimum_bytes = leb minimum_bytes arena.size
