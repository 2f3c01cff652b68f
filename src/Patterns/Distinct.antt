-- ===== src/Patterns/Distinct.antt =====
-- The address and random phases give each word of the arena a value of its own.
use nx_mem_test.Base.{ℕ, ◌/◌, ◌%◌, ◌^◌, ◌<◌, ◌≡◌, ◌⊎◌, sym, ap, ◌∙◌, inl, inr, arith}
use nx_mem_test.Base.{bit_xor, mul64}
use nx_mem_test.Base.Xor.{xor_assoc, xor_self, xor-zero}
use nx_mem_test.Types.{Phase, address, random, word_bytes}
use nx_mem_test.Patterns.{bswap64, expected_value}

xor_undo : (a c : ℕ) → bit_xor (bit_xor a c) c ≡ a
xor_undo a c = xor_assoc a c c ∙ ap (bit_xor a) (xor_self c) ∙ xor-zero a

xor_cancel : (a b c : ℕ) → bit_xor a c ≡ bit_xor b c → a ≡ b
xor_cancel a b c e = sym (xor_undo a c) ∙ ap (λ t. bit_xor t c) e ∙ xor_undo b c

-- Reversing the bytes twice gives the word back.
pub bswap64_involutive : (x : ℕ) → x < 2 ^ 64 → bswap64 (bswap64 x) ≡ x
unfolding bswap64
bswap64_involutive x h = omega arith

bswap64_injective : (x y : ℕ) → x < 2 ^ 64 → y < 2 ^ 64 → bswap64 x ≡ bswap64 y → x ≡ y
bswap64_injective x y hx hy e =
    sym (bswap64_involutive x hx) ∙ ap bswap64 e ∙ bswap64_involutive y hy

address_distinct :
    (seed pass o o' : ℕ)
    → expected_value seed address pass o ≡ expected_value seed address pass o'
    → o ≡ o'
unfolding expected_value
address_distinct seed pass o o' e =
    xor_cancel o o' seed
      (xor_cancel (bit_xor o seed) (bit_xor o' seed) (mul64 pass 0x100000001b3) e)

random_distinct :
    (seed pass o o' : ℕ)
    → o < 2 ^ 64
    → o' < 2 ^ 64
    → o % word_bytes ≡ 0
    → o' % word_bytes ≡ 0
    → expected_value seed random pass o ≡ expected_value seed random pass o'
    → o ≡ o'
unfolding expected_value
random_distinct seed pass o o' ho ho' wo wo' e =
    let swapped =
      xor_cancel (bswap64 (o / 8)) (bswap64 (o' / 8)) seed
        (xor_cancel _ _ (mul64 pass 0x9e3779b97f4a7c15) e) in
    let same = bswap64_injective (o / 8) (o' / 8) (omega arith) (omega arith) swapped in
    omega (arith, same)

-- In the address phase and in the random phase, two words of the arena, given by their 64-bit
-- byte offsets, are expected to hold the same value only if they are the same word.
pub expected_value_distinct :
    (phase : Phase) (seed pass o o' : ℕ)
    → (phase ≡ address) ⊎ (phase ≡ random)
    → o < 2 ^ 64
    → o' < 2 ^ 64
    → o % word_bytes ≡ 0
    → o' % word_bytes ≡ 0
    → expected_value seed phase pass o ≡ expected_value seed phase pass o'
    → o ≡ o'
expected_value_distinct phase seed pass o o' (inl is_address) ho ho' wo wo' e =
    address_distinct seed pass o o' (rw is_address at e)
expected_value_distinct phase seed pass o o' (inr is_random) ho ho' wo wo' e =
    random_distinct seed pass o o' ho ho' wo wo' (rw is_random at e)
