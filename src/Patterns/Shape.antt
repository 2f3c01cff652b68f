-- ===== src/Patterns/Shape.antt =====
-- The bit patterns that the phases write.
use nx_mem_test.Base.{ℕ, ◌+◌, ◌-◌, ◌/◌, ◌%◌, ◌^◌, ◌≤◌, ◌<◌, ◌≡◌, ◌⊎◌, inl, inr}
use nx_mem_test.Base.{arith, bit_and, bit_xor, add64, mul64}
use nx_mem_test.Base.Mask.{and-low_mask}
use nx_mem_test.Base.Xor.{xor-lt_pow}
use native.Mathlib.Nat.{pow-le-pow_right}
use nx_mem_test.Types.{Phase, fixed_a, fixed_5, checker, address, random, walking, narrow}
use nx_mem_test.Types.{bitspread, stream, word_bytes}
use nx_mem_test.Patterns.{bswap64, expected_value}

-- In the checker phase and in the bitspread phase, neighbouring words at 64-bit offsets hold
-- opposite bits.
pub expected_value_opposite :
    (phase : Phase) (seed pass o : ℕ)
    → (phase ≡ checker) ⊎ (phase ≡ bitspread)
    → o + word_bytes < 2 ^ 64
    → expected_value seed phase pass o + expected_value seed phase pass (o + word_bytes)
      ≡ 2 ^ 64 - 1
expected_value_opposite phase seed pass o (inl e) h =
    rw e (
      unfold expected_value in ground (arith, and-low_mask 1 (o / 8), and-low_mask 1 ((o + 8) / 8)))
expected_value_opposite phase seed pass o (inr e) h = rw e (
    unfold expected_value in
    ground (arith, and-low_mask 1 (add64 (o / 8) pass), and-low_mask 1 (add64 ((o + 8) / 8) pass)))

-- In the walking phase exactly one bit of a word is set: the one whose number is the sum of the
-- word's index and the pass, modulo 64.
pub expected_value_one_bit :
    (seed pass o : ℕ) → expected_value seed walking pass o ≡ 2 ^ ((o / word_bytes + pass) % 64)
unfolding expected_value
expected_value_one_bit seed pass o =
    let bit : bit_and (add64 (o / 8) pass) 63 ≡ (o / 8 + pass) % 64 =
      omega (arith, and-low_mask 6 (add64 (o / 8) pass)) in
    let fits : 2 ^ ((o / 8 + pass) % 64) ≤ 2 ^ 63 =
      pow-le-pow_right (omega arith) {i = (o / 8 + pass) % 64} {j = 63} (omega arith) in
    rw bit (omega (arith, fits))

-- For a 64-bit seed and offset, every expected word fits into 64 bits.
pub expected_value-lt :
    (seed : ℕ) (phase : Phase) (pass o : ℕ)
    → seed < 2 ^ 64
    → o < 2 ^ 64
    → expected_value seed phase pass o < 2 ^ 64
unfolding expected_value
expected_value-lt seed fixed_a pass o hs ho = omega arith
expected_value-lt seed fixed_5 pass o hs ho = omega arith
expected_value-lt seed checker pass o hs ho = ground arith
expected_value-lt seed address pass o hs ho =
    xor-lt_pow 64 (bit_xor o seed) _ (xor-lt_pow 64 o seed ho hs) (omega arith)
expected_value-lt seed random pass o hs ho =
    xor-lt_pow 64 (bit_xor (bswap64 (o / 8)) seed) _
      (xor-lt_pow 64 (bswap64 (o / 8)) seed (omega arith) hs) (omega arith)
expected_value-lt seed walking pass o hs ho = omega arith
expected_value-lt seed narrow pass o hs ho =
    xor-lt_pow 64
      (bit_xor (mul64 (bit_and (add64 o (mul64 pass 8)) 0xff) 0x0101010101010101)
        0x0706050403020100)
      seed (xor-lt_pow 64 _ 0x0706050403020100 (omega arith) (omega arith)) hs
expected_value-lt seed bitspread pass o hs ho = ground arith
expected_value-lt seed stream pass o hs ho =
    let low : bit_and o 0x1fff < 2 ^ 64 = omega (arith, and-low_mask 13 o) in
    xor-lt_pow 64 (bit_xor (bit_and o 0x1fff) seed) _ (xor-lt_pow 64 _ seed low hs) (omega arith)
