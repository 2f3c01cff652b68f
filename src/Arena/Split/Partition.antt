-- ===== src/Arena/Split/Partition.antt =====
-- The blocks of the workers follow one another and make up the arena.
use nx_mem_test.Base.{ℕ, ◌+◌, ◌*◌, ◌/◌, ◌%◌, ◌^◌, ◌≤◌, ◌<◌, ◌≡◌, arith, min}
use native.Mathlib.Nat.{div-add-mod', mod-lt}
use nx_mem_test.Arena.Split.{split_block_start, split_block_size}

module _ (total count : ℕ) (pos : 0 < count) (small : total < 2 ^ 64) where
  -- The start without wrap-around.
  split_block_start-sum :
      (i : ℕ)
      → i ≤ count
      → (split_block_start total count i ≡ total / count * i + min i (total % count))
        × (total / count * i + min i (total % count) ≤ total)
  unfolding split_block_start
  split_block_start-sum i h =
      let parts = div-add-mod' total count in
      let below : total / count * i ≤ total / count * count = grind arith in
      let bound : total / count * i + min i (total % count) ≤ total = omega (arith, parts, below) in
      (ground (arith, bound), bound)

  split_block_size-sum :
      (i : ℕ)
      → i < count
      → split_block_size total count i + (total / count * i + min i (total % count))
        ≡ total / count * (i + 1) + min (i + 1) (total % count)
  unfolding split_block_size
  split_block_size-sum i h = ground (arith, split_block_start-sum (i + 1) (omega arith))

-- For a 64-bit number of words and at least one worker: the first block starts at word 0 and the
-- last one ends at the last word; each worker's block starts where the one before it ends, has the
-- even share or one word more, and lies inside the arena.
pub split_block_partition :
    (total count i : ℕ)
    → total < 2 ^ 64
    → i < count
    → (split_block_start total count 0 ≡ 0)
      × (split_block_start total count count ≡ total)
      × (split_block_start total count (i + 1)
          ≡ split_block_start total count i + split_block_size total count i)
      × (total / count ≤ split_block_size total count i)
      × (split_block_size total count i ≤ total / count + 1)
      × (split_block_start total count i + split_block_size total count i ≤ total)
unfolding split_block_size
split_block_partition total count i small h =
    let pos : 0 < count = omega arith in
    let start = split_block_start-sum total count pos small in
    let rest = mod-lt total pos in
    let size = split_block_size-sum total count pos small i h in
    let here = start i (omega arith) in
    let next = start (i + 1) (omega arith) in
    (
      omega (arith, start 0 (omega arith), rest),
      omega (arith, start count (omega arith), rest, div-add-mod' total count),
      omega (arith, here, next, size),
      ground (arith, next),
      ground (arith, next),
      omega (arith, here, next, size),
    )

-- Two different workers share no word: the block of the lower one ends before the other starts.
pub split_block_disjoint :
    (total count i j : ℕ)
    → total < 2 ^ 64
    → j < count
    → i < j
    → split_block_start total count i + split_block_size total count i
      ≤ split_block_start total count j
split_block_disjoint total count i j small hj hi =
    let pos : 0 < count = omega arith in
    let start = split_block_start-sum total count pos small in
    let size = split_block_size-sum total count pos small i (omega arith) in
    let below : total / count * (i + 1) ≤ total / count * j = grind arith in
    omega (arith, start i (omega arith), start j (omega arith), size, below)
