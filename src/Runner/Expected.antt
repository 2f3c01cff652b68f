-- ===== src/Runner/Expected.antt =====
-- The specification that writing and verifying share: the words that a phase expects in a chunk.
use nx_mem_test.Base.{ℕ, ◌+◌, ◌*◌}
use nx_mem_test.Types.{Phase, word_bytes}
use nx_mem_test.Patterns.{expected_value}

-- Word `k` of a chunk that starts at word `start` of the arena.
abbrev pub expected_from : ℕ → Phase → ℕ → ℕ → ℕ → ℕ
expected_from seed phase pass start k = expected_value seed phase pass ((start + k) * word_bytes)
