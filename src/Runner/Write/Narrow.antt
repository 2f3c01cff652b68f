-- ===== src/Runner/Write/Narrow.antt =====
-- The narrow phase: eight byte stores make up the closed form of the expected word.
use nx_mem_test.Base.{ℕ, zero, suc, ◌+◌, ◌*◌, ◌/◌, ◌%◌, ◌^◌, ◌≤◌, ◌<◌, ◌≡◌, refl, sym, ap, ◌∙◌}
use nx_mem_test.Base.{inl, inr, Bool-cases, ltb, loop_by, loop_by-at, stop_at}
use nx_mem_test.Base.{arith, bit_and, bit_xor, u8, u64, add64, mul64, shr64}
use mathlib.Core.Path.{ap₂, fun_ext}
use nx_mem_test.Base.Mask.{and-low_mask}
use nx_mem_test.Base.Xor.{xor_fields, xor-byte, xor-shr, xor-zero, zero-xor}
use nx_mem_test.Types.{narrow, word_bytes}
use nx_mem_test.Patterns.{expected_value}
use nx_mem_test.Patterns.Shape.{expected_value-lt}
use nx_mem_test.Runner.Expected.{expected_from}
use nx_mem_test.Runner.Memory.{Mem, store, fill, fill-zero, fill-outside, store-fill}
use nx_mem_test.Runner.Write.{set_byte, store_byte, write_narrow}

abbrev byte_of : ℕ → ℕ → ℕ
byte_of w j = w / 256 ^ j % 256

-- To prove a statement for the eight bytes of a word.
eight_cases :
    (P : ℕ → Type 0) → P 0 → P 1 → P 2 → P 3 → P 4 → P 5 → P 6 → P 7 → (j : ℕ) → j < 8 → P j
eight_cases P p0 p1 p2 p3 p4 p5 p6 p7 zero h = p0
eight_cases P p0 p1 p2 p3 p4 p5 p6 p7 (suc zero) h = p1
eight_cases P p0 p1 p2 p3 p4 p5 p6 p7 (suc (suc zero)) h = p2
eight_cases P p0 p1 p2 p3 p4 p5 p6 p7 (suc (suc (suc zero))) h = p3
eight_cases P p0 p1 p2 p3 p4 p5 p6 p7 (suc (suc (suc (suc zero)))) h = p4
eight_cases P p0 p1 p2 p3 p4 p5 p6 p7 (suc (suc (suc (suc (suc zero))))) h = p5
eight_cases P p0 p1 p2 p3 p4 p5 p6 p7 (suc (suc (suc (suc (suc (suc zero)))))) h = p6
eight_cases P p0 p1 p2 p3 p4 p5 p6 p7 (suc (suc (suc (suc (suc (suc (suc zero))))))) h = p7
eight_cases P p0 p1 p2 p3 p4 p5 p6 p7 (suc (suc (suc (suc (suc (suc (suc (suc j)))))))) h =
    absurd (omega arith)

byte_of-xor : (a b j : ℕ) → j < 8 → byte_of (bit_xor a b) j ≡ bit_xor (byte_of a j) (byte_of b j)
byte_of-xor a b =
    eight_cases (λ j. byte_of (bit_xor a b) j ≡ bit_xor (byte_of a j) (byte_of b j)) (at 0) (at 8)
      (at 16) (at 24) (at 32) (at 40) (at 48) (at 56)
  where
    at : (k : ℕ) → bit_xor a b / 2 ^ k % 256 ≡ bit_xor (a / 2 ^ k % 256) (b / 2 ^ k % 256)
    at k = ap (λ t. t % 256) (xor-shr k a b) ∙ xor-byte (a / 2 ^ k) (b / 2 ^ k)

-- The word after `j` byte stores over `old`, on the way to `new`.
abbrev partly : ℕ → ℕ → ℕ → ℕ
partly old new zero = old
partly old new (suc j) = u64 (old / 256 ^ suc j * 256 ^ suc j) + new % 256 ^ suc j

set_byte-partly :
    (old new j : ℕ) → j < 8 → set_byte (partly old new j) j (byte_of new j) ≡ partly old new (suc j)
unfolding set_byte
set_byte-partly old new =
    eight_cases (λ j. set_byte (partly old new j) j (byte_of new j) ≡ partly old new (suc j))
      (omega arith) (omega arith) (omega arith) (omega arith) (omega arith) (omega arith)
      (omega arith) (omega arith)

store_same : (m : Mem) (a : ℕ) → store m a (m a) ≡ m
unfolding store
store_same m a = fun_ext (λ b. ground arith)

store_hit : (m : Mem) (a v : ℕ) → store m a v a ≡ v
unfolding store
store_hit m a v = ground arith

store_twice : (m : Mem) (a v w : ℕ) → store (store m a v) a w ≡ store m a w
unfolding store
store_twice m a v w = fun_ext (λ b. ground arith)

module _ (p n start seed pass : ℕ) (m : Mem) (hs : seed < 2 ^ 64) (hn : n * word_bytes < 2 ^ 64)
    (fits : (start + n) * word_bytes ≤ 2 ^ 64) where
  abbrev value : ℕ → ℕ
  value k = expected_from seed narrow pass start k

  abbrev base : ℕ
  base = add64 (mul64 start word_bytes) (mul64 pass word_bytes)

  -- The byte that the loop stores at `i`.
  abbrev stored : ℕ → ℕ
  stored i = bit_xor (u8 (add64 base i)) (u8 (shr64 seed (mul64 (bit_and i 7) 8)))

  -- The low byte of the offset of word `k`, a multiple of eight.
  abbrev low : ℕ → ℕ
  low k = bit_and (add64 ((start + k) * word_bytes) (mul64 pass 8)) 0xff

  low-eighth : (k : ℕ) → low k ≡ (start + k + pass) % 32 * 8
  low-eighth k = omega (arith, and-low_mask 8 (add64 ((start + k) * word_bytes) (mul64 pass 8)))

  xor_index : (x j : ℕ) → j < 8 → bit_xor (x * 8) j ≡ x * 8 + j
  xor_index x j h =
      let left : x * 8 + 0 ≡ x * 8 = omega arith in
      let right : 0 * 8 + j ≡ j = omega arith in
      sym (ap₂ bit_xor left right)
      ∙ xor_fields 3 x 0 0 j (omega arith) h
      ∙ ap₂ (λ a b. a * 8 + b) (xor-zero x) (zero-xor j)

  seed_byte : (j : ℕ) → j < 8 → u8 (shr64 seed (j * 8)) ≡ byte_of seed j
  seed_byte =
      eight_cases (λ j. u8 (shr64 seed (j * 8)) ≡ byte_of seed j) refl refl refl refl refl refl refl
        refl

  spread_byte : (x : ℕ) → x < 256 → (j : ℕ) → j < 8 → byte_of (mul64 x 0x0101010101010101) j ≡ x
  spread_byte x h =
      eight_cases (λ j. byte_of (mul64 x 0x0101010101010101) j ≡ x) (omega arith) (omega arith)
        (omega arith) (omega arith) (omega arith) (omega arith) (omega arith) (omega arith)

  index_byte : (j : ℕ) → j < 8 → byte_of 0x0706050403020100 j ≡ j
  index_byte =
      eight_cases (λ j. byte_of 0x0706050403020100 j ≡ j) refl refl refl refl refl refl refl refl

  value_byte :
      (k j : ℕ) → j < 8 → byte_of (value k) j ≡ bit_xor (low k + j) (u8 (shr64 seed (j * 8)))
  unfolding expected_value
  value_byte k j h =
      let spread = mul64 (low k) 0x0101010101010101 in
      let x = (start + k + pass) % 32 in
      let sum : bit_xor (low k) j ≡ low k + j = rw low-eighth (xor_index x j h) in
      byte_of-xor (bit_xor spread 0x0706050403020100) seed j h
      ∙ ap (λ t. bit_xor t (byte_of seed j))
          (byte_of-xor spread 0x0706050403020100 j h
            ∙ ap₂ bit_xor (spread_byte (low k) (omega (arith, low-eighth k)) j h) (index_byte j h)
            ∙ sum)
      ∙ ap (bit_xor (low k + j)) (sym (seed_byte j h))

  stored_byte : (k j : ℕ) → k < n → j < 8 → stored (k * 8 + j) ≡ byte_of (value k) j
  stored_byte k j hk hj =
      let index : mul64 (bit_and (k * 8 + j) 7) 8 ≡ j * 8 =
        omega (arith, and-low_mask 3 (k * 8 + j)) in
      let offset : u8 (add64 base (k * 8 + j)) ≡ low k + j = omega (arith, low-eighth k) in
      ap₂ (λ a b. bit_xor a (u8 (shr64 seed b))) offset index ∙ sym (value_byte k j hj)

  -- The memory after `k` words and `j` bytes of the next one.
  abbrev between : ℕ → ℕ → Mem
  between k j = store (fill p k value m) (p + k) (partly (m (p + k)) (value k) j)

  between-zero : (k : ℕ) → between k 0 ≡ fill p k value m
  between-zero k =
      ap (store (fill p k value m) (p + k))
        (sym (fill-outside p k value m (p + k) (inr (omega arith))))
      ∙ store_same (fill p k value m) (p + k)

  between-eight : (k : ℕ) → k < n → between k 8 ≡ fill p (k + 1) value m
  between-eight k h =
      let small : value k < 2 ^ 64 =
        expected_value-lt seed narrow pass ((start + k) * word_bytes) hs (omega arith) in
      store-fill p k value m refl refl (omega arith)

  store_byte-between :
      (k j : ℕ)
      → k < n
      → j < 8
      → store_byte (between k j) p (k * 8 + j) (stored (k * 8 + j)) ≡ between k (suc j)
  unfolding store_byte
  store_byte-between k j hk hj =
      let word : (k * 8 + j) / 8 ≡ k = omega arith in
      let byte : (k * 8 + j) % 8 ≡ j = omega arith in
      rw (word, byte, stored_byte k j hk hj, store_hit, store_twice)
        (ap (store (fill p k value m) (p + k)) (set_byte-partly (m (p + k)) (value k) j hj))

  -- The memory after `i` bytes.
  abbrev at_byte : ℕ → Mem
  at_byte i = between (i / 8) (i % 8)

  store_byte-at : (i : ℕ) → i + 1 ≤ n * 8 → store_byte (at_byte i) p i (stored i) ≡ at_byte (i + 1)
  store_byte-at i h =
      let split : i / 8 * 8 + i % 8 ≡ i = omega arith in
      let step = store_byte-between (i / 8) (i % 8) (omega arith) (omega arith) in
      ap (λ t. store_byte (at_byte i) p t (stored t)) (sym split)
      ∙ step
      ∙ elim (Bool-cases (ltb (i % 8) 7)) [
        | inl more ↦ ap₂ between {x = i / 8} {u = suc (i % 8)} (ground arith) (ground arith)
        | inr last ↦
            let full : suc (i % 8) ≡ 8 = ground arith in
            let next : i / 8 + 1 ≡ (i + 1) / 8 = ground arith in
            let none : 0 ≡ (i + 1) % 8 = ground arith in
            ap (between (i / 8)) full
            ∙ between-eight (i / 8) (omega arith)
            ∙ sym (between-zero (i / 8 + 1))
            ∙ ap₂ between next none
      ]

  pub write_narrow-fill :
      write_narrow p n start seed pass m ≡ fill p n (expected_from seed narrow pass start) m
  unfolding write_narrow
  write_narrow-fill =
      let bytes = mul64 n word_bytes in
      let words : stop_at 1 bytes 0 / 8 ≡ n = omega arith in
      let none : stop_at 1 bytes 0 % 8 ≡ 0 = omega arith in
      ap (loop_by 1 bytes 0 (λ i m'. store_byte m' p i (stored i)))
        (sym (fill-zero p value m) ∙ sym (between-zero 0))
      ∙ loop_by-at 1 bytes (λ i m'. store_byte m' p i (stored i)) at_byte
          (λ i _ lt. store_byte-at i (omega arith)) 0 refl (omega arith)
      ∙ ap₂ between words none
      ∙ between-zero n
