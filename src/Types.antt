-- ===== src/Types.antt =====
-- include/nxmt/types.h: sizes in bytes, and the enumerations that the components share.
use nx_mem_test.Base.{ℕ, ◌*◌}

abbrev pub word_bytes : ℕ
word_bytes = 8

abbrev pub page_bytes : ℕ
page_bytes = 4096

abbrev pub mib_bytes : ℕ
mib_bytes = 1024 * 1024

abbrev pub gib_bytes : ℕ
gib_bytes = 1024 * 1024 * 1024

pub data Mode : Type 0 where
  quick memory_load extreme : Mode

pub data Phase : Type 0 where
  fixed_a fixed_5 checker address random walking narrow bitspread stream : Phase

pub data Status : Type 0 where
  pass fail aborted unsupported : Status
