-- ===== src/GpuPump/Blocks.antt =====
-- Where the memory blocks of the pump lie.
use nx_mem_test.Base.{ℕ, ◌+◌, ◌*◌, ◌%◌, ◌^◌, ◌≤◌, ◌<◌, ◌≡◌, ap, ◌∙◌, Bool}
use nx_mem_test.Base.{some, u32, arith, add64, mul64}
use nx_mem_test.Base.Mask.{and-page_mask}
use nx_mem_test.Types.{page_bytes}
use nx_mem_test.GpuPump.{
  cmd_bytes, shader_bytes, result_bytes, preamble_bytes, local_x, bytes_per_invocation,
  page_aligned, Layout, layout, num_groups, Launch, pump_start,
}

page_aligned_lem :
    (bytes : ℕ)
    → bytes + 4095 < 2 ^ 64
    → (page_aligned bytes % page_bytes ≡ 0)
      × (bytes ≤ page_aligned bytes)
      × (page_aligned bytes < bytes + page_bytes)
unfolding page_aligned
page_aligned_lem bytes small =
    let masked = and-page_mask (add64 bytes 4095) (omega arith) in rw masked (omega arith)

page_aligned-page_aligned :
    (bytes : ℕ) → bytes + 4095 < 2 ^ 63 → page_aligned (page_aligned bytes) ≡ page_aligned bytes
page_aligned-page_aligned bytes small =
    let once = page_aligned_lem bytes (omega arith) in
    let twice = page_aligned_lem (page_aligned bytes) (omega (arith, once.2)) in
    omega (arith, once.0, once.2, twice.0, twice.1, twice.2)

start_guards :
    (base storage_size buffer_size : ℕ) (has_stop_flag : Bool) (launch : Launch) (l : Layout)
    → pump_start (some base) storage_size buffer_size has_stop_flag launch ≡ some l
    → (add64 preamble_bytes (mul64 2 (page_aligned buffer_size)) ≤ storage_size)
      × (l ≡ layout base (page_aligned (page_aligned buffer_size)))
unfolding pump_start
start_guards base storage_size buffer_size has_stop_flag launch l e = ground arith

-- A buffer of whole pages and less than 2 ^ 32 bytes: the workgroups of the verification read all
-- of it and nothing beyond.
num_groups_lem :
    (buffer : ℕ)
    → buffer < 2 ^ 32
    → buffer % page_bytes ≡ 0
    → num_groups buffer * local_x * bytes_per_invocation ≡ buffer
unfolding num_groups
num_groups_lem buffer small pages = omega arith

-- If the pump starts, with a buffer of less than 2 ^ 31 bytes, in a storage that begins a page, then
-- its memory blocks follow one another in the storage and do not reach beyond it; the source and
-- the destination consist of whole pages, begin pages, and are as large as the buffer asked for and
-- less than a page larger; their size is not changed by its conversion to 32 bits; and the
-- workgroups of the verification read all of a buffer and nothing beyond.
pub pump_start-inside :
    (base storage_size buffer_size : ℕ) (has_stop_flag : Bool) (launch : Launch) (l : Layout)
    → pump_start (some base) storage_size buffer_size has_stop_flag launch ≡ some l
    → buffer_size < 2 ^ 31
    → base % page_bytes ≡ 0
    → (l.cmd ≡ base)
      × (l.cmd + cmd_bytes ≡ l.shader)
      × (l.shader + shader_bytes ≡ l.result)
      × (l.result + result_bytes ≡ l.src)
      × (l.src + l.buffer ≡ l.dst)
      × (l.dst + l.buffer ≤ base + storage_size)
      × (buffer_size ≤ l.buffer)
      × (l.buffer < buffer_size + page_bytes)
      × (l.src % page_bytes ≡ 0)
      × (l.dst % page_bytes ≡ 0)
      × (l.buffer % page_bytes ≡ 0)
      × (u32 l.buffer ≡ l.buffer)
      × (num_groups l.buffer * local_x * bytes_per_invocation ≡ l.buffer)
unfolding layout
pump_start-inside base storage_size buffer_size has_stop_flag launch l e small page =
    let guards = start_guards base storage_size buffer_size has_stop_flag launch l e in
    let once = page_aligned_lem buffer_size (omega arith) in
    let same = guards.1 ∙ ap (layout base) (page_aligned-page_aligned buffer_size (omega arith)) in
    let groups = num_groups_lem (page_aligned buffer_size) (omega (arith, once.2)) once.0 in
    rw same (omega (arith, once.0, once.1, once.2, guards.0, groups))
