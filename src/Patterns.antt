-- ===== src/Patterns.antt =====
-- source/core/patterns.c: the seed, the mixing function, and the word expected at each offset.
pub mod Mix
pub mod Distinct
pub mod Shape
mod Tests
use nx_mem_test.Base.{ℕ, ◌+◌, ◌*◌, ◌/◌, ◌%◌, ◌^◌, bit_and, bit_or, bit_xor}
use nx_mem_test.Base.{add64, mul64, shl64, shr64, ◌==◌, if◌then◌else◌}
use nx_mem_test.Types.{Phase, fixed_a, fixed_5, checker, address, random, walking, narrow}
use nx_mem_test.Types.{bitspread, stream, word_bytes}

unfoldable pub make_seed : ℕ → ℕ → ℕ
make_seed high low = bit_or (shl64 high 32) low

-- `value ^ (value >> k)`
abbrev pub xor_shift : ℕ → ℕ → ℕ
xor_shift value k = bit_xor value (shr64 value k)

unfoldable pub mix64 : ℕ → ℕ
mix64 value =
    let v0 = add64 value 0x9e3779b97f4a7c15 in
    let v1 = mul64 (xor_shift v0 30) 0xbf58476d1ce4e5b9 in
    let v2 = mul64 (xor_shift v1 27) 0x94d049bb133111eb in xor_shift v2 31

-- `__builtin_bswap64`: the eight bytes in the opposite order.
unfoldable pub bswap64 : ℕ → ℕ
bswap64 x =
    x % 256 * 2 ^ 56
    + x / 2 ^ 8 % 256 * 2 ^ 48
    + x / 2 ^ 16 % 256 * 2 ^ 40
    + x / 2 ^ 24 % 256 * 2 ^ 32
    + x / 2 ^ 32 % 256 * 2 ^ 24
    + x / 2 ^ 40 % 256 * 2 ^ 16
    + x / 2 ^ 48 % 256 * 2 ^ 8
    + x / 2 ^ 56 % 256

unfoldable pub expected_value : ℕ → Phase → ℕ → ℕ → ℕ
unfolding bswap64
expected_value seed fixed_a pass offset = 0xaaaaaaaaaaaaaaaa
expected_value seed fixed_5 pass offset = 0x5555555555555555
expected_value seed checker pass offset =
    if bit_and (offset / word_bytes) 1 == 0 then 0xaaaaaaaaaaaaaaaa else 0x5555555555555555
expected_value seed address pass offset = bit_xor (bit_xor offset seed) (mul64 pass 0x100000001b3)
expected_value seed random pass offset =
    bit_xor (bit_xor (bswap64 (offset / word_bytes)) seed) (mul64 pass 0x9e3779b97f4a7c15)
expected_value seed walking pass offset = shl64 1 (bit_and (add64 (offset / word_bytes) pass) 63)
expected_value seed narrow pass offset =
    let x = bit_and (add64 offset (mul64 pass 8)) 0xff in
    bit_xor (bit_xor (mul64 x 0x0101010101010101) 0x0706050403020100) seed
expected_value seed bitspread pass offset =
    if bit_and (add64 (offset / word_bytes) pass) 1 == 0
    then 0x4924924924924924
    else 0xb6db6db6db6db6db
expected_value seed stream pass offset =
    bit_xor (bit_xor (bit_and offset 0x1fff) seed) (mul64 pass 0xbf58476d1ce4e5b9)

unfoldable pub next_offset : ℕ → ℕ → ℕ → ℕ → ℕ
next_offset seed pass index arena_words =
    if arena_words == 0
    then 0
    else let mixed = mix64 (bit_xor (bit_xor seed (mix64 pass)) (mul64 index 0xd6e8feb86659fd93)) in
      mul64 (mixed % arena_words) word_bytes
