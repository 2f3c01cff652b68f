-- ===== src/Arena/Select.antt =====
-- The choice of the memory total to report, and the heap kept for the C runtime.
pub mod Largest
pub mod Reserve
use nx_mem_test.Base.{ℕ, ◌*◌, ◌/◌, Bool, true, false, not, ◌||◌}
use nx_mem_test.Base.{ltb, ◌==◌, if◌then◌else◌}
use nx_mem_test.Types.{page_bytes, mib_bytes, gib_bytes}
use nx_mem_test.Arena.Range.{align_down_u64}

-- `NxmtMemorySource`
pub data MemorySource : Type 0 where
  source_none physical_pools process_total override_heap : MemorySource

-- `NxmtMemorySelection`
pub record MemorySelection : Type 0 where
  pub total : ℕ
  pub source : MemorySource
  pub extended_memory_detected : Bool

-- `source == NXMT_MEMORY_SOURCE_NONE`
abbrev pub is_source_none : MemorySource → Bool
is_source_none source_none = true
is_source_none _ = false

-- The last `if` of `select_memory_source`.
unfoldable pub take_larger : MemorySelection → ℕ → MemorySource → MemorySelection
take_larger selection total source =
    if is_source_none selection.source || ltb selection.total total
    then (record selection { total = total; source = source })
    else selection

unfoldable pub select_memory_source : MemorySelection → Bool → ℕ → MemorySource → MemorySelection
unfolding take_larger
select_memory_source selection available total source =
    if not available || total == 0
    then selection
    else take_larger
        (if ltb (4 * gib_bytes) total
          then (record selection { extended_memory_detected = true })
          else selection)
        total source

abbrev pub no_selection : MemorySelection
no_selection = record { total = 0; source = source_none; extended_memory_detected = false }

unfoldable pub select_system_memory_total : Bool → ℕ → Bool → ℕ → Bool → ℕ → MemorySelection
unfolding select_memory_source
select_system_memory_total has_pools pools has_process process has_override override =
    let s1 = select_memory_source no_selection has_pools pools physical_pools in
    let s2 = select_memory_source s1 has_process process process_total in
    select_memory_source s2 has_override override override_heap

unfoldable pub select_launch_safe_memory_total : Bool → ℕ → MemorySelection
unfolding select_system_memory_total
select_launch_safe_memory_total has_override override =
    select_system_memory_total false 0 false 0 has_override override

unfoldable pub runtime_heap_reserve : ℕ → ℕ
unfolding align_down_u64
runtime_heap_reserve size =
    if ltb size (4 * mib_bytes)
    then 0
    else if ltb size (64 * mib_bytes)
    then align_down_u64 (size / 2) page_bytes
    else if ltb size (512 * mib_bytes)
    then 16 * mib_bytes
    else 32 * mib_bytes
