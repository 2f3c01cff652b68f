-- ===== src/Platform/Tests.antt =====
-- Runs of the platform functions.
use nx_mem_test.Base.{◌*◌, ◌≡◌, refl, some, arith}
use nx_mem_test.Types.{mib_bytes}
use nx_mem_test.Platform.{Heaps, initheap_override, core_mask}
use nx_mem_test.Platform.Heap.{Splits, initheap_override_lem}

no_mask : core_mask (some 0) ≡ 7
unfolding core_mask
no_mask = refl

initheap_override_lem_example :
    (h : Heaps) × (initheap_override 0x1001 (600 * mib_bytes) ≡ some h)
    × Splits 0x1001 (600 * mib_bytes) h
initheap_override_lem_example =
    initheap_override_lem 0x1001 (600 * mib_bytes) (omega arith) (omega arith)
