-- ===== src/GpuPump.antt =====
-- source/nx/gpu_pump.c: the memory that the GPU is given, the pattern in it, the copies that are
-- counted, and the life of the pump's thread. The deko3d library is a parameter.
pub mod Session
pub mod Blocks
pub mod Count
pub mod Fill
mod Tests
use nx_mem_test.Base.{ℕ, ◌+◌, ◌-◌, ◌*◌, ◌/◌, Bool, true, false, not, ◌||◌, Option, none, some}
use nx_mem_test.Base.{List, [], ◌∷◌, bit_and, bit_xor, add64, mul64, u32, complement, ltb, ◌==◌}
use nx_mem_test.Base.{if◌then◌else◌, loop_by, stop_at}
use nx_mem_test.Types.{page_bytes, word_bytes}
use nx_mem_test.Runner.Memory.{Mem, store, U64x2, vdupq, vset_lane1, veorq, vaddq, vst1q}

abbrev pub cmd_bytes : ℕ
cmd_bytes = 64 * 1024

abbrev pub shader_bytes : ℕ
shader_bytes = 16 * 1024

abbrev pub result_bytes : ℕ
result_bytes = 4 * 1024

abbrev pub preamble_bytes : ℕ
preamble_bytes = cmd_bytes + shader_bytes + result_bytes

abbrev pub batch : ℕ
batch = 8

abbrev pub local_x : ℕ
local_x = 256

abbrev pub bytes_per_invocation : ℕ
bytes_per_invocation = 16

-- `(bytes + NXMT_PAGE_BYTES - 1u) & ~(uint64_t)(NXMT_PAGE_BYTES - 1u)`
unfoldable pub page_aligned : ℕ → ℕ
page_aligned bytes = bit_and (add64 bytes (page_bytes - 1)) (complement (page_bytes - 1))

-- The addresses of the memory blocks in the storage, and the size of the source and of the
-- destination.
pub record Layout : Type 0 where
  pub cmd : ℕ
  pub shader : ℕ
  pub result : ℕ
  pub src : ℕ
  pub dst : ℕ
  pub buffer : ℕ

unfoldable pub layout : ℕ → ℕ → Layout
layout base buffer = record {
  cmd = base;
  shader = base + cmd_bytes;
  result = base + cmd_bytes + shader_bytes;
  src = base + preamble_bytes;
  dst = base + preamble_bytes + buffer;
  buffer = buffer;
}

-- The workgroups of the verification.
unfoldable pub num_groups : ℕ → ℕ
num_groups buffer = u32 (buffer / bytes_per_invocation) / local_x

-- How `threadCreate` and `threadStart` end, and whether `g_pump_init_failed` is set after the wait.
pub record Launch : Type 0 where
  pub thread_created : Bool
  pub thread_started : Bool
  pub init_failed : Bool

-- `none` is false; otherwise the blocks that the thread works with. A null pointer is `none`. The
-- thread aligns the size that it is given once more.
unfoldable pub pump_start : Option ℕ → ℕ → ℕ → Bool → Launch → Option Layout
unfolding page_aligned layout
pump_start none storage_size buffer_size has_stop_flag launch = none
pump_start (some base) storage_size buffer_size has_stop_flag launch =
    let buffer_aligned = page_aligned buffer_size in
    let required = add64 preamble_bytes (mul64 2 buffer_aligned) in
    if not has_stop_flag || buffer_size == 0
    then none
    else if ltb storage_size required
    then none
    else if not launch.thread_created || not launch.thread_started
    then none
    else if launch.init_failed
    then none
    else some (layout base (page_aligned buffer_aligned))

-- The memory and the vectors that the NEON loop of the pattern carries.
pub record Offsets : Type 0 where
  pub mem : Mem
  pub off01 : U64x2
  pub off23 : U64x2

unfoldable pub fill_four : ℕ → U64x2 → ℕ → Offsets → Offsets
fill_four p seed2 k s = record {
  mem = vst1q (vst1q s.mem (p + k) (veorq s.off01 seed2)) (p + k + 2) (veorq s.off23 seed2);
  off01 = vaddq s.off01 (vdupq 32);
  off23 = vaddq s.off23 (vdupq 32);
}

unfoldable pub pump_fill_src_pattern : Bool → ℕ → ℕ → ℕ → Mem → Mem
unfolding fill_four
pump_fill_src_pattern neon p bytes seed m =
    let words = bytes / 8 in
    let start : Offsets = record {
      mem = m;
      off01 = vset_lane1 8 (vdupq 0);
      off23 = vset_lane1 24 (vdupq 16);
    } in
    let m1 = if neon then (loop_by 4 words 0 (fill_four p (vdupq seed)) start).mem else m in
    let k1 = if neon then stop_at 4 words 0 else 0 in
    loop_by 1 words k1 (λ k m'. store m' (p + k) (bit_xor (mul64 k 8) seed)) m1

-- The counters that the pump adds to; a null pointer is `none`.
pub record Counters : Type 0 where
  pub progress : Option ℕ
  pub verified : Option ℕ
  pub errors : Option ℕ

abbrev pub add_to : Option ℕ → ℕ → Option ℕ
add_to none n = none
add_to (some c) n = some (add64 c n)

-- What the GPU leaves after one cycle: whether the result word is not 0, and whether the debug
-- callback was called.
pub record Cycle : Type 0 where
  pub mismatch : Bool
  pub device_error : Bool

-- The counting of one cycle of the pump's loop.
unfoldable pub count_cycle : ℕ → Cycle → Counters → Counters
count_cycle buffer cycle counters = record {
  progress = add_to counters.progress (mul64 (mul64 buffer 2) batch);
  verified = add_to counters.verified 1;
  errors = if cycle.mismatch then add_to counters.errors 1 else counters.errors;
}

-- The loop of the pump: one cycle for each time that the stop flag is found clear.
unfoldable pub pump_cycles : ℕ → List Cycle → Counters → Counters
unfolding count_cycle
pump_cycles buffer [] counters = counters
pump_cycles buffer (cycle ∷ cycles) counters =
    let counted = count_cycle buffer cycle counters in
    let rest = pump_cycles buffer cycles counted in if cycle.device_error then counted else rest
