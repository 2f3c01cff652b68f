-- ===== src/Patterns/Mix.antt =====
-- `nxmt_mix64` loses nothing: no two 64-bit values are mixed to the same one.
use nx_mem_test.Base.{ℕ, zero, suc, ◌+◌, ◌*◌, ◌/◌, ◌%◌, ◌^◌, ◌≤◌, ◌<◌, ◌≡◌, ◌⊎◌, refl, sym, ap, ◌∙◌}
use nx_mem_test.Base.{arith, bit_xor, add64, mul64, shl64, inl, inr, Bool-cases, ◌==◌}
use nx_mem_test.Base.Or.{or-high_field}
use nx_mem_test.Base.Xor.{xor_comm, xor_assoc, xor_self, eq_of_xor-zero, xor-lt_pow}
use nx_mem_test.Base.Xor.{xor-shr}
use native.Mathlib.Nat.{pow-suc, one-le-pow, div-lt_self}
use native.Mathlib.Nat.{div-le_self, mod-lt}
use nx_mem_test.Types.{word_bytes}
use nx_mem_test.Patterns.{xor_shift, mix64, make_seed, next_offset}

-- (a ^ c) ^ (b ^ d) with the operands of each shift together
xor_swap : (a b c d : ℕ) → bit_xor (bit_xor a b) (bit_xor c d) ≡ bit_xor (bit_xor a c) (bit_xor b d)
xor_swap a b c d =
    xor_assoc a b (bit_xor c d)
    ∙ ap (bit_xor a)
        (sym (xor_assoc b c d) ∙ ap (λ t. bit_xor t d) (xor_comm b c) ∙ xor_assoc c b d)
    ∙ sym (xor_assoc a c (bit_xor b d))

-- A word that equals its own shift is zero.
zero_of_shift : (d k : ℕ) → d ≡ d / 2 ^ suc k → d ≡ 0
zero_of_shift zero k e = refl
zero_of_shift (suc d) k e =
    let more : 1 < 2 ^ suc k = omega (arith, pow-suc 2 k, one-le-pow k 2) in
    absurd (omega (arith, div-lt_self {n = suc d} {k = 2 ^ suc k} (omega arith) more))

-- `x ^ (x >> k)` is injective for every k > 0.
xor_shift_injective : (k a b : ℕ) → xor_shift a (suc k) ≡ xor_shift b (suc k) → a ≡ b
xor_shift_injective k a b e = eq_of_xor-zero a b (zero_of_shift (bit_xor a b) k same)
  where
    together : bit_xor (bit_xor a b) (bit_xor a b / 2 ^ suc k) ≡ 0
    together =
        ap (bit_xor (bit_xor a b)) (xor-shr (suc k) a b)
        ∙ xor_swap a b (a / 2 ^ suc k) (b / 2 ^ suc k)
        ∙ ap (λ t. bit_xor t (xor_shift b (suc k))) e
        ∙ xor_self (xor_shift b (suc k))

    same : bit_xor a b ≡ bit_xor a b / 2 ^ suc k
    same = eq_of_xor-zero (bit_xor a b) (bit_xor a b / 2 ^ suc k) together

xor_shift-lt : (k a : ℕ) → a < 2 ^ 64 → xor_shift a k < 2 ^ 64
xor_shift-lt k a h = xor-lt_pow 64 a (a / 2 ^ k) h (omega (arith, div-le_self a (2 ^ k)))

-- The multipliers are odd, so each has an inverse modulo 2 ^ 64.
first_inverse : (a : ℕ) → a < 2 ^ 64 → mul64 (mul64 a 0xbf58476d1ce4e5b9) 0x96de1b173f119089 ≡ a
first_inverse a h = omega arith

second_inverse : (a : ℕ) → a < 2 ^ 64 → mul64 (mul64 a 0x94d049bb133111eb) 0x319642b2d24d8ec3 ≡ a
second_inverse a h = omega arith

cancel : (f g : ℕ → ℕ) (a b : ℕ) → g (f a) ≡ a → g (f b) ≡ b → f a ≡ f b → a ≡ b
cancel f g a b ga gb e = sym ga ∙ ap g e ∙ gb

-- Two 64-bit values that are mixed to the same word are equal.
pub mix64_injective : (a b : ℕ) → a < 2 ^ 64 → b < 2 ^ 64 → mix64 a ≡ mix64 b → a ≡ b
unfolding mix64
mix64_injective a b ha hb e =
    let a0 = add64 a 0x9e3779b97f4a7c15 in
    let b0 = add64 b 0x9e3779b97f4a7c15 in
    let a1 = mul64 (xor_shift a0 30) 0xbf58476d1ce4e5b9 in
    let b1 = mul64 (xor_shift b0 30) 0xbf58476d1ce4e5b9 in
    let a0_lt : a0 < 2 ^ 64 = omega arith in
    let b0_lt : b0 < 2 ^ 64 = omega arith in
    let a1_lt : a1 < 2 ^ 64 = omega arith in
    let b1_lt : b1 < 2 ^ 64 = omega arith in
    let e2 = xor_shift_injective 30 _ _ e in
    let e1 =
      cancel (λ v. mul64 v 0x94d049bb133111eb) (λ v. mul64 v 0x319642b2d24d8ec3) (xor_shift a1 27)
        (xor_shift b1 27) (second_inverse _ (xor_shift-lt 27 a1 a1_lt))
        (second_inverse _ (xor_shift-lt 27 b1 b1_lt)) e2 in
    let e1' = xor_shift_injective 26 a1 b1 e1 in
    let e0 =
      cancel (λ v. mul64 v 0xbf58476d1ce4e5b9) (λ v. mul64 v 0x96de1b173f119089) (xor_shift a0 30)
        (xor_shift b0 30) (first_inverse _ (xor_shift-lt 30 a0 a0_lt))
        (first_inverse _ (xor_shift-lt 30 b0 b0_lt)) e1' in
    let e0' = xor_shift_injective 29 a0 b0 e0 in omega arith

-- The two 32-bit halves of a seed can be read back.
pub make_seed_halves :
    (high low : ℕ)
    → high < 2 ^ 32
    → low < 2 ^ 32
    → (make_seed high low / 2 ^ 32 ≡ high) × (make_seed high low % 2 ^ 32 ≡ low)
unfolding make_seed
make_seed_halves high low hh hl =
    let fits : shl64 high 32 ≡ high * 2 ^ 32 = omega arith in
    rw (fits, or-high_field 32 high low hl) (omega arith)

-- In an arena whose bytes are counted in 64 bits, the offset is that of a whole word inside it;
-- in an empty arena it is zero.
pub next_offset_inside :
    (seed pass index words : ℕ)
    → words * word_bytes < 2 ^ 64
    → let offset = next_offset seed pass index words in
      (offset % word_bytes ≡ 0)
      × ((words ≡ 0) × (offset ≡ 0) ⊎ (offset + word_bytes ≤ words * word_bytes))
unfolding next_offset
next_offset_inside seed pass index words fits = elim (Bool-cases (words == 0)) [
  | inl empty ↦ rw empty (refl, inl (ground arith, refl))
  | inr some_words ↦
      let mixed = mix64 (bit_xor (bit_xor seed (mix64 pass)) (mul64 index 0xd6e8feb86659fd93)) in
      let below = mod-lt mixed {m = words} (ground arith) in rw some_words (omega (arith, below))
]
