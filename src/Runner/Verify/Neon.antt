-- ===== src/Runner/Verify/Neon.antt =====
-- The NEON scans of the address and random phases see the words that the scalar ones do.
use nx_mem_test.Base.{ℕ, ◌+◌, ◌*◌, ◌^◌, ◌<◌, ◌≡◌, refl, sym, ap, ◌∙◌}
use nx_mem_test.Base.{Bool, true, false, arith, bit_or, bit_xor, add64, mul64, if◌then◌else◌}
use nx_mem_test.Base.{loop_by-inv, stop_at}
use nx_mem_test.Base.Xor.{eq_of_xor-zero, zero_of_or-zero}
use native.Mathlib.Nat.{div-mul-le_self}
use nx_mem_test.Types.{word_bytes}
use nx_mem_test.Patterns.{bswap64}
use nx_mem_test.Runner.Memory.{Mem, U64x2, vdupq, veorq, vorrq, vrev64q, vld1q}
use nx_mem_test.Runner.Verify.{Scan, scan_words, scan_address, scan_random}
use nx_mem_test.Runner.Verify.Agree.{Agree, Agree-zero, Agree-suc, Seen, scan_words-Agree}

module _ (m : Mem) (p n : ℕ) (f : ℕ → ℕ) where
  -- What two accumulators of differences say.
  abbrev SeenLanes : ℕ → U64x2 → Type 0
  SeenLanes k l = l.lane0 ≡ 0 → l.lane1 ≡ 0 → Agree m p f k

  lanes_round :
      (k k' a : ℕ) (l x : U64x2)
      → a ≡ p + k
      → k' ≡ k + 2
      → SeenLanes k l
      → x.lane0 ≡ f k
      → x.lane1 ≡ f (k + 1)
      → SeenLanes k' (vorrq l (veorq x (vld1q m a)))
  lanes_round k k' a l x ea ek seen e0 e1 z0 z1 =
      let w0 = zero_of_or-zero l.lane0 (bit_xor x.lane0 (m a)) z0 in
      let w1 = zero_of_or-zero l.lane1 (bit_xor x.lane1 (m (a + 1))) z1 in
      let first : m (p + k) ≡ f k = ap m (sym ea) ∙ sym (eq_of_xor-zero x.lane0 (m a) w0.1) ∙ e0 in
      let second : m (p + (k + 1)) ≡ f (k + 1) =
        ap m (omega arith) ∙ sym (eq_of_xor-zero x.lane1 (m (a + 1)) w1.1) ∙ e1 in
      λ j lt.
        Agree-suc m p f (k + 1) (Agree-suc m p f k (seen w0.0 w1.0) first) second j (omega arith)

  combined : (k : ℕ) (l : U64x2) → SeenLanes k l → Seen m p f k (bit_or 0 (bit_or l.lane0 l.lane1))
  combined k l seen z =
      let outer = zero_of_or-zero 0 (bit_or l.lane0 l.lane1) z in
      let both = zero_of_or-zero l.lane0 l.lane1 outer.1 in seen both.0 both.1

  abbrev Counts : (ℕ → ℕ) → ℕ → U64x2 → Type 0
  Counts count k v = (v.lane0 ≡ count k) × (v.lane1 ≡ count (k + 1))

  -- The rest of the words, behind the vectors' part.
  finish :
      (neon : Bool) (w : ℕ) (l : U64x2) (expected : ℕ → ℕ)
      → 0 < w
      → ((k : ℕ) → k < n → expected k ≡ f k)
      → SeenLanes (stop_at w n 0) l
      → Seen m p f n (
          scan_words m p n
            (if neon then stop_at w n 0 else 0)
            expected
            (if neon then bit_or 0 (bit_or l.lane0 l.lane1) else 0))
  finish true w l expected pos same seen =
      scan_words-Agree m p f n (stop_at w n 0) _ expected (omega (arith, div-mul-le_self n w)) same
        (combined (stop_at w n 0) l seen)
  finish false w l expected pos same seen =
      scan_words-Agree m p f n 0 0 expected (omega arith) same (λ _. Agree-zero m p f)

  pub scan_random-Agree :
      (neon : Bool) (start mask : ℕ)
      → start < 2 ^ 64
      → ((k : ℕ) → k < n → bit_xor (bswap64 (add64 start k)) mask ≡ f k)
      → Seen m p f n (scan_random m p n neon start mask)
  unfolding scan_random
  scan_random-Agree neon start mask small same =
      finish neon 2 _ (λ j. bit_xor (bswap64 (add64 start j)) mask) (omega arith) same
        (loop_by-inv 2 n _ (λ k (s : Scan). Counts (λ j. add64 start j) k s.v01 × SeenLanes k s.acc)
          (λ k s _ lt inv. (
            (omega (arith, inv.0.0), omega (arith, inv.0.1)),
            lanes_round k (k + 2) (p + k) s.acc (veorq (vrev64q s.v01) (vdupq mask)) refl refl inv.1
                (ap (λ t. bit_xor (bswap64 t) mask) inv.0.0 ∙ same k (omega arith))
                (ap (λ t. bit_xor (bswap64 t) mask) inv.0.1 ∙ same (k + 1) (omega arith)),
          ))
          0 _ refl (omega arith) ((omega arith, refl), λ _ _. Agree-zero m p f)).1

  pub scan_address-Agree :
      (neon : Bool) (base mask : ℕ)
      → base < 2 ^ 64
      → ((k : ℕ) → k < n → bit_xor (add64 base (mul64 k word_bytes)) mask ≡ f k)
      → Seen m p f n (scan_address m p n neon base mask)
  unfolding scan_address
  scan_address-Agree neon base mask small same =
      finish neon 4 _ (λ j. bit_xor (add64 base (mul64 j word_bytes)) mask) (omega arith) same
        (loop_by-inv 4 n _
          (λ k (s : Scan).
            Counts (λ j. add64 base (8 * j)) k s.v01
            × Counts (λ j. add64 base (8 * j)) (k + 2) s.v23
            × SeenLanes k s.acc)
          (λ k s _ lt inv. (
            (omega (arith, inv.0.0), omega (arith, inv.0.1)),
            (omega (arith, inv.1.0), omega (arith, inv.1.1)),
            lanes_round (k + 2) (k + 4) (p + k + 2) _ (veorq s.v23 (vdupq mask)) (omega arith)
                (omega arith)
                (lanes_round k (k + 2) (p + k) s.acc (veorq s.v01 (vdupq mask)) refl refl inv.2
                  (at k s.v01.lane0 (omega arith) inv.0.0)
                  (at (k + 1) s.v01.lane1 (omega arith) inv.0.1))
                (at (k + 2) s.v23.lane0 (omega arith) inv.1.0)
                (at (k + 2 + 1) s.v23.lane1 (omega arith) inv.1.1),
          ))
          0 _ refl (omega arith)
          ((omega arith, omega arith), (omega arith, omega arith), λ _ _. Agree-zero m p f)).2
    where
      at : (j t : ℕ) → j < n → t ≡ add64 base (8 * j) → bit_xor t mask ≡ f j
      at j t below e =
          ap (λ o. bit_xor o mask) {y = add64 base (mul64 j word_bytes)} (omega (arith, e))
          ∙ same j below
