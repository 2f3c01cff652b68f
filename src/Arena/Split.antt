-- ===== src/Arena/Split.antt =====
-- `nxmt_split_block_start` and `nxmt_split_block_size`: the words of the arena, shared out.
pub mod Partition
use nx_mem_test.Base.{ℕ, ◌+◌, ◌/◌, ◌%◌, Bool, ◌||◌}
use nx_mem_test.Base.{add64, mul64, ltb, leb, ◌==◌, if◌then◌else◌}

unfoldable pub split_block_start : ℕ → ℕ → ℕ → ℕ
split_block_start total_words worker_count worker_index =
    if worker_count == 0 || ltb worker_count worker_index
    then 0
    else let base = total_words / worker_count in
      let remainder = total_words % worker_count in
      let extra = if ltb worker_index remainder then worker_index else remainder in
      add64 (mul64 base worker_index) extra

unfoldable pub split_block_size : ℕ → ℕ → ℕ → ℕ
split_block_size total_words worker_count worker_index =
    if worker_count == 0 || leb worker_count worker_index
    then 0
    else let base = total_words / worker_count in
      let remainder = total_words % worker_count in
      add64 base (if ltb worker_index remainder then 1 else 0)
