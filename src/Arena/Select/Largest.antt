-- ===== src/Arena/Select/Largest.antt =====
-- The selected total is the largest that was reported.
use nx_mem_test.Base.{ℕ, ◌*◌, ◌≡◌, Bool, ◌&&◌, max, arith, ltb, leb, ◌==◌, if◌then◌else◌}
use nx_mem_test.Types.{gib_bytes}
use nx_mem_test.Arena.Select.{MemorySource, source_none, physical_pools, process_total}
use nx_mem_test.Arena.Select.{override_heap, select_system_memory_total}

-- What a source offers: a source that is absent, or reports zero, offers nothing.
abbrev pub offer : Bool → ℕ → ℕ
offer has total = if has then total else 0

-- The first source that offers the most, and none if nothing is offered.
abbrev pub first_largest : ℕ → ℕ → ℕ → MemorySource
first_largest p q r =
    if max p (max q r) == 0
    then source_none
    else if leb q p && leb r p
    then physical_pools
    else if leb r q
    then process_total
    else override_heap

-- Whatever the three sources report, the selection holds the largest total offered and the first
-- source that offers it, in the order physical pools, process, override heap (no source if nothing
-- is offered), and flags extended memory exactly if that total is above 4 GiB.
pub select_system_memory_total_lem :
    (hp : Bool) (p : ℕ) (hq : Bool) (q : ℕ) (hr : Bool) (r : ℕ)
    → select_system_memory_total hp p hq q hr r ≡ (
        let largest = max (offer hp p) (max (offer hq q) (offer hr r)) in
        record {
          total = largest;
          source = first_largest (offer hp p) (offer hq q) (offer hr r);
          extended_memory_detected = ltb (4 * gib_bytes) largest;
        })
unfolding select_system_memory_total
select_system_memory_total_lem hp p hq q hr r = ground arith
