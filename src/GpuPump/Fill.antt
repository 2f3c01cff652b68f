-- ===== src/GpuPump/Fill.antt =====
-- The pattern in the source of the copies.
use nx_mem_test.Base.{ℕ, ◌+◌, ◌*◌, ◌/◌, ◌%◌, ◌^◌, ◌≤◌, ◌<◌, ◌≡◌, refl, sym, ap, ◌∙◌}
use nx_mem_test.Base.{Bool, true, false, arith, loop_by, loop_by-at, stop_at, bit_xor, add64, mul64}
use nx_mem_test.Runner.Memory.{Mem, U64x2, vdupq, veorq, vaddq, vset_lane1, store, vst1q, fill}
use nx_mem_test.Runner.Memory.{fill-zero, vst1q-fill, fill-ext, store_loop}
use nx_mem_test.GpuPump.{Offsets, fill_four, pump_fill_src_pattern}

-- Word `k` of the pattern.
abbrev pub pattern_word : ℕ → ℕ → ℕ
pattern_word seed k = bit_xor (k * 8) seed

module _ (p words seed : ℕ) (m : Mem) (small : words * 8 ≤ 2 ^ 64) where
  abbrev offsets : ℕ → U64x2
  offsets k = record { lane0 = mul64 k 8; lane1 = mul64 (k + 1) 8 }

  -- A stored word while its offset may wrap around.
  abbrev wrapped : ℕ → ℕ
  wrapped k = bit_xor (mul64 k 8) seed

  abbrev four_at : ℕ → Offsets
  four_at k = record { mem = fill p k wrapped m; off01 = offsets k; off23 = offsets (k + 2) }

  offsets-step : (k j : ℕ) → j ≡ k + 4 → vaddq (offsets k) (vdupq 32) ≡ offsets j
  offsets-step k j e =
      let first : add64 (mul64 k 8) 32 ≡ mul64 j 8 = omega arith in
      let second : add64 (mul64 (k + 1) 8) 32 ≡ mul64 (j + 1) 8 = omega arith in
      λ i. record { lane0 = first i; lane1 = second i }

  stored-pair :
      (a j j' : ℕ)
      → a ≡ p + j
      → j' ≡ j + 2
      → vst1q (fill p j wrapped m) a (veorq (offsets j) (vdupq seed)) ≡ fill p j' wrapped m
  stored-pair a j j' ea ej = vst1q-fill p j wrapped m ea ej refl refl

  four_round :
      (k : ℕ) → k % 4 ≡ 0 → k + 4 ≤ words → fill_four p (vdupq seed) k (four_at k) ≡ four_at (k + 4)
  unfolding fill_four
  four_round k e h = λ i. record {
    mem =
        (ap (λ t. vst1q t (p + k + 2) (veorq (offsets (k + 2)) (vdupq seed)))
              (stored-pair (p + k) k (k + 2) refl refl)
            ∙ stored-pair (p + k + 2) (k + 2) (k + 4) (omega arith) (omega arith))
          i;
    off01 = offsets-step k (k + 4) refl i;
    off23 = offsets-step (k + 2) (k + 4 + 2) (omega arith) i;
  }

  unwrapped : (k : ℕ) → k < words → wrapped k ≡ pattern_word seed k
  unwrapped k lt = ap (λ o. bit_xor o seed) (omega arith)

  vector_part :
      (loop_by 4 words 0
        (fill_four p (vdupq seed))
        (record { mem = m; off01 = vset_lane1 8 (vdupq 0); off23 = vset_lane1 24 (vdupq 16) })).mem
      ≡ fill p (stop_at 4 words 0) (pattern_word seed) m
  vector_part =
      let stop : stop_at 4 words 0 ≤ words = omega arith in
      ap
        (λ t.
          (loop_by 4 words 0 (fill_four p (vdupq seed))
            (record { mem = t; off01 = offsets 0; off23 = offsets 2 })).mem)
        (sym (fill-zero p wrapped m))
      ∙ ap (λ (s : Offsets). s.mem) (loop_by-at 4 words _ four_at four_round 0 refl (omega arith))
      ∙ fill-ext p (stop_at 4 words 0) wrapped (pattern_word seed) m
          (λ k lt. unwrapped k (omega (arith, stop)))

-- With NEON and without: for a buffer of less than 2 ^ 64 bytes, each of its whole words becomes
-- its offset in bytes, xor the seed, and nothing else changes.
pub pump_fill_src_pattern_lem :
    (neon : Bool) (p bytes seed : ℕ) (m : Mem)
    → bytes < 2 ^ 64
    → pump_fill_src_pattern neon p bytes seed m ≡ fill p (bytes / 8) (pattern_word seed) m
unfolding pump_fill_src_pattern
pump_fill_src_pattern_lem true p bytes seed m small =
    ap
      (loop_by 1 (bytes / 8) (stop_at 4 (bytes / 8) 0)
        (λ k t. store t (p + k) (bit_xor (mul64 k 8) seed)))
      (vector_part p (bytes / 8) seed m (omega arith))
    ∙ store_loop p (bytes / 8) (stop_at 4 (bytes / 8) 0) (λ k. bit_xor (mul64 k 8) seed)
        (pattern_word seed) m (omega arith) (unwrapped p (bytes / 8) seed m (omega arith))
pump_fill_src_pattern_lem false p bytes seed m small =
    ap (loop_by 1 (bytes / 8) 0 (λ k t. store t (p + k) (bit_xor (mul64 k 8) seed)))
      (sym (fill-zero p (pattern_word seed) m))
    ∙ store_loop p (bytes / 8) 0 (λ k. bit_xor (mul64 k 8) seed) (pattern_word seed) m (omega arith)
        (unwrapped p (bytes / 8) seed m (omega arith))
