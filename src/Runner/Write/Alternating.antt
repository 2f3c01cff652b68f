-- ===== src/Runner/Write/Alternating.antt =====
-- The checker and bitspread phases write the expected words.
use nx_mem_test.Base.{ℕ, ◌+◌, ◌*◌, ◌/◌, ◌%◌, ◌≤◌, ◌≡◌, refl, sym, ap, ◌∙◌, inl, inr}
use nx_mem_test.Base.{Bool, true, false, arith, Bool-cases, ltb, if◌then◌else◌, loop_by, loop_by-at}
use nx_mem_test.Base.{stop_at, bit_and, bit_xor, add64, ◌==◌}
use nx_mem_test.Base.Mask.{and-low_mask}
use nx_mem_test.Types.{checker, bitspread}
use nx_mem_test.Patterns.{expected_value}
use nx_mem_test.Runner.{k_fixed_a, k_fixed_5, k_bit_spread0, k_bit_spread1}
use nx_mem_test.Runner.Expected.{expected_from}
use nx_mem_test.Runner.Memory.{Mem, store, fill, vst1q, vdupq, vset_lane1, fill-zero, store-fill}
use nx_mem_test.Runner.Memory.{vst1q-fill, fill-ext}
use nx_mem_test.Runner.Write.{write_alternating, write_checker, write_bitspread}

abbrev alternate : ℕ → ℕ → ℕ → ℕ
alternate a b k = if k % 2 == 0 then a else b

module _ (p n a b : ℕ) (m : Mem) where
  abbrev filled : ℕ → Mem
  filled k = fill p k (alternate a b) m

  pair_round :
      (k : ℕ)
      → k % 2 ≡ 0
      → k + 2 ≤ n
      → store (store (filled k) (p + k) a) (p + k + 1) b ≡ filled (k + 2)
  pair_round k e h =
      ap (λ t. store t (p + k + 1) b)
        (store-fill p k (alternate a b) m {k' = k + 1} refl refl (ground arith))
      ∙ store-fill p (k + 1) (alternate a b) m (omega arith) (omega arith) (ground arith)

  neon_round :
      (k : ℕ)
      → k % 4 ≡ 0
      → k + 4 ≤ n
      → vst1q
          (vst1q (filled k) (p + k) (vset_lane1 b (vdupq a)))
          (p + k + 2)
          (vset_lane1 b (vdupq a))
        ≡ filled (k + 4)
  neon_round k e h =
      ap (λ t. vst1q t (p + k + 2) (vset_lane1 b (vdupq a)))
        (vst1q-fill p k (alternate a b) m {k' = k + 2} refl refl (ground arith) (ground arith))
      ∙ vst1q-fill p (k + 2) (alternate a b) m (omega arith) (omega arith) (ground arith)
          (ground arith)

  -- From `k` on, the pairs and the last single word.
  abbrev rest : ℕ → Mem → Mem
  rest k t =
      let m2 = loop_by 2 n k (λ j m'. store (store m' (p + j) a) (p + j + 1) b) t in
      if ltb (stop_at 2 n k) n then store m2 (p + stop_at 2 n k) a else m2

  rest-filled : (k : ℕ) → k % 2 ≡ 0 → k ≤ n → rest k (filled k) ≡ filled n
  rest-filled k e h =
      let pairs =
        loop_by-at 2 n (λ j m'. store (store m' (p + j) a) (p + j + 1) b) filled pair_round k e h in
      rw pairs (elim (Bool-cases (ltb (stop_at 2 n k) n)) [
        | inl odd ↦
            rw odd
              (store-fill p (stop_at 2 n k) (alternate a b) m refl (ground arith) (ground arith))
        | inr even ↦ rw even (ap filled (ground arith))
      ])

  neon_part :
      loop_by 4 n 0
        (λ k m'.
          vst1q (vst1q m' (p + k) (vset_lane1 b (vdupq a))) (p + k + 2) (vset_lane1 b (vdupq a)))
        m
      ≡ filled (stop_at 4 n 0)
  neon_part =
      ap
        (loop_by 4 n 0 (λ k m'.
          vst1q (vst1q m' (p + k) (vset_lane1 b (vdupq a))) (p + k + 2) (vset_lane1 b (vdupq a))))
        (sym (fill-zero p (alternate a b) m))
      ∙ loop_by-at 4 n _ filled neon_round 0 refl (omega arith)

  write_alternating-fill : (neon : Bool) → write_alternating neon p n a b m ≡ filled n
  unfolding write_alternating
  write_alternating-fill true =
      ap (rest (stop_at 4 n 0)) neon_part ∙ rest-filled (stop_at 4 n 0) (omega arith) (omega arith)
  write_alternating-fill false =
      ap (rest 0) (sym (fill-zero p (alternate a b) m)) ∙ rest-filled 0 refl (omega arith)

checker_value :
    (seed pass start k : ℕ)
    → let first = if bit_and start 1 == 0 then k_fixed_a else k_fixed_5 in
      alternate first (bit_xor first (bit_xor k_fixed_a k_fixed_5)) k
      ≡ expected_from seed checker pass start k
unfolding expected_value
checker_value seed pass start k =
    let here = and-low_mask 1 start in
    let there = and-low_mask 1 ((start + k) * 8 / 8) in
    elim (Bool-cases (bit_and start 1 == 0)) [
      | inl even ↦ rw even (ground arith)
      | inr odd ↦ rw odd (ground arith)
    ]

bitspread_value :
    (seed pass start k : ℕ)
    → let first = if bit_and (add64 start pass) 1 == 0 then k_bit_spread0 else k_bit_spread1 in
      alternate first (bit_xor first (bit_xor k_bit_spread0 k_bit_spread1)) k
      ≡ expected_from seed bitspread pass start k
unfolding expected_value
bitspread_value seed pass start k =
    let here = and-low_mask 1 (add64 start pass) in
    let there = and-low_mask 1 (add64 ((start + k) * 8 / 8) pass) in
    elim (Bool-cases (bit_and (add64 start pass) 1 == 0)) [
      | inl even ↦ rw even (ground arith)
      | inr odd ↦ rw odd (ground arith)
    ]

module _ (neon : Bool) (p n start seed pass : ℕ) (m : Mem) where
  pub write_checker-fill :
      write_checker neon p n start m ≡ fill p n (expected_from seed checker pass start) m
  unfolding write_checker
  write_checker-fill =
      let first = if bit_and start 1 == 0 then k_fixed_a else k_fixed_5 in
      write_alternating-fill p n first (bit_xor first (bit_xor k_fixed_a k_fixed_5)) m neon
      ∙ fill-ext p n _ (expected_from seed checker pass start) m
          (λ k _. checker_value seed pass start k)

  pub write_bitspread-fill :
      write_bitspread neon p n start pass m ≡ fill p n (expected_from seed bitspread pass start) m
  unfolding write_bitspread
  write_bitspread-fill =
      let first = if bit_and (add64 start pass) 1 == 0 then k_bit_spread0 else k_bit_spread1 in
      write_alternating-fill p n first (bit_xor first (bit_xor k_bit_spread0 k_bit_spread1)) m neon
      ∙ fill-ext p n _ (expected_from seed bitspread pass start) m
          (λ k _. bitspread_value seed pass start k)
