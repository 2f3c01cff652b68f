-- ===== src/Runner/Write/Stream.antt =====
-- The stream phase: the stamp, and the chunk copied together from it.
use nx_mem_test.Base.{ℕ, zero, suc, ◌+◌, ◌-◌, ◌*◌, ◌%◌, ◌^◌, ◌≤◌, ◌<◌, ◌≡◌, refl, sym, ap, ◌∙◌}
use nx_mem_test.Base.{Bool, true, false, inl, inr, arith, Bool-cases, loop_by, loop_by-at}
use nx_mem_test.Base.{bit_and, bit_xor, add64, mul64, ltb, if◌then◌else◌}
use nx_mem_test.Base.Mask.{and-low_mask}
use nx_mem_test.Base.Xor.{xor_assoc}
use nx_mem_test.Types.{stream, word_bytes}
use nx_mem_test.Patterns.{expected_value}
use nx_mem_test.Runner.{k_stream_pass_mul, stream_stamp_words}
use nx_mem_test.Runner.Expected.{expected_from}
use nx_mem_test.Runner.Memory.{Mem, U64x2, vdupq, veorq, vaddq, store, vst1q, fill}
use nx_mem_test.Runner.Memory.{fill-zero, store-fill, vst1q-fill, fill-inside}
use nx_mem_test.Runner.Write.{Lanes, fill_stream_stamp, write_stream_loop}
use nx_mem_test.Runner.Write.{write_stream}
use nx_mem_test.Runner.Write.Copy.{neon_copy_words-fill}

module _ (seed pass : ℕ) where
  abbrev mask : ℕ
  mask = bit_xor seed (mul64 pass k_stream_pass_mul)

  abbrev stamp_word : ℕ → ℕ
  stamp_word k = bit_xor (mul64 k word_bytes) mask

  abbrev stamped : ℕ → Mem
  stamped k = fill 0 k stamp_word (λ _. 0)

  abbrev offsets : ℕ → U64x2
  offsets k = record { lane0 = mul64 k word_bytes; lane1 = mul64 (k + 1) word_bytes }

  abbrev stamp_at : ℕ → Lanes
  stamp_at k = record {
    mem = stamped k;
    v01 = offsets k;
    v23 = offsets (k + 2);
    v45 = vdupq 0;
    v67 = vdupq 0;
  }

  offsets-step : (k j : ℕ) → j ≡ k + 4 → vaddq (offsets k) (vdupq 32) ≡ offsets j
  offsets-step k j e =
      let e0 : add64 (mul64 k word_bytes) 32 ≡ mul64 j word_bytes = omega arith in
      let e1 : add64 (mul64 (k + 1) word_bytes) 32 ≡ mul64 (j + 1) word_bytes = omega arith in
      λ i. record { lane0 = e0 i; lane1 = e1 i }

  stamp_memory :
      (k : ℕ)
      → vst1q
          (vst1q (stamped k) k (veorq (offsets k) (vdupq mask)))
          (k + 2)
          (veorq (offsets (k + 2)) (vdupq mask))
        ≡ stamped (k + 4)
  stamp_memory k =
      ap (λ t. vst1q t (k + 2) (veorq (offsets (k + 2)) (vdupq mask)))
        (vst1q-fill 0 k stamp_word (λ _. 0) {k' = k + 2} (omega arith) refl refl refl)
      ∙ vst1q-fill 0 (k + 2) stamp_word (λ _. 0) (omega arith) (omega arith) refl refl

  abbrev stamp_round : ℕ → Lanes → Lanes
  stamp_round k s = record s {
    mem = vst1q (vst1q s.mem k (veorq s.v01 (vdupq mask))) (k + 2) (veorq s.v23 (vdupq mask));
    v01 = vaddq s.v01 (vdupq 32);
    v23 = vaddq s.v23 (vdupq 32);
  }

  stamp_round-at : (k : ℕ) → stamp_round k (stamp_at k) ≡ stamp_at (k + 4)
  stamp_round-at k =
      let e : k + 4 + 2 ≡ k + 2 + 4 = omega arith in
      λ i. record {
        mem = stamp_memory k i;
        v01 = offsets-step k (k + 4) refl i;
        v23 = offsets-step (k + 2) (k + 4 + 2) e i;
        v45 = vdupq 0;
        v67 = vdupq 0;
      }

  stamp_rest :
      (k : ℕ)
      → k ≤ stream_stamp_words
      → loop_by 1 stream_stamp_words k (λ j t. store t j (stamp_word j)) (stamped k)
        ≡ stamped stream_stamp_words
  stamp_rest k h =
      loop_by-at 1 stream_stamp_words (λ j t. store t j (stamp_word j)) stamped
        (λ j _ lt. store-fill 0 j stamp_word (λ _. 0) (omega arith) refl refl) k (omega arith) h
      ∙ ap stamped (omega arith)

  fill_stream_stamp-fill :
      (neon : Bool) → fill_stream_stamp neon seed pass ≡ stamped stream_stamp_words
  unfolding fill_stream_stamp
  fill_stream_stamp-fill true =
      ap
        (λ (s : Lanes).
          loop_by 1 stream_stamp_words stream_stamp_words (λ j t. store t j (stamp_word j))
            (loop_by 4 stream_stamp_words 0 stamp_round s).mem)
        (λ i. record (stamp_at 0) { mem = sym (fill-zero 0 stamp_word (λ _. 0)) i })
      ∙ ap
          (λ (s : Lanes).
            loop_by 1 stream_stamp_words stream_stamp_words (λ j t. store t j (stamp_word j)) s.mem)
          (loop_by-at 4 stream_stamp_words stamp_round stamp_at (λ k _ _. stamp_round-at k) 0 refl
            (omega arith))
      ∙ stamp_rest stream_stamp_words (omega arith)
  fill_stream_stamp-fill false =
      ap (loop_by 1 stream_stamp_words 0 (λ j t. store t j (stamp_word j)))
        (sym (fill-zero 0 stamp_word (λ _. 0)))
      ∙ stamp_rest 0 (omega arith)

  stamp_lem :
      (neon : Bool) (j : ℕ)
      → j < stream_stamp_words
      → fill_stream_stamp neon seed pass j ≡ bit_xor (j * word_bytes) mask
  stamp_lem neon j h =
      ap (λ (t : Mem). t j) (fill_stream_stamp-fill neon)
      ∙ fill-inside 0 stream_stamp_words stamp_word (λ _. 0) j (omega arith) (omega arith)
      ∙ ap (λ o. bit_xor o mask) (omega arith)

module _ (neon : Bool) (p n start seed pass : ℕ) (m : Mem)
    (fits : (start + n) * word_bytes ≤ 2 ^ 64) where
  abbrev stamp : Mem
  stamp = fill_stream_stamp neon seed pass

  -- The stamp repeats every 1024 words, as the low 13 bits of the offset do.
  pub stamp_expected :
      (k pos j : ℕ)
      → pos ≡ (start + k) % stream_stamp_words
      → pos + j < stream_stamp_words
      → stamp (pos + j) ≡ expected_from seed stream pass start (k + j)
  unfolding expected_value
  stamp_expected k pos j e h =
      let low : (pos + j) * word_bytes ≡ bit_and ((start + (k + j)) * word_bytes) 0x1fff =
        omega (arith, and-low_mask 13 ((start + (k + j)) * word_bytes)) in
      stamp_lem seed pass neon (pos + j) h
      ∙ ap (λ o. bit_xor o (mask seed pass)) low
      ∙ sym (
          xor_assoc (bit_and ((start + (k + j)) * word_bytes) 0x1fff) seed
            (mul64 pass k_stream_pass_mul))

  abbrev streamed : ℕ → Mem
  streamed k = fill p k (expected_from seed stream pass start) m

  write_stream_loop-fill :
      (fuel k pos : ℕ)
      → pos ≡ (start + k) % stream_stamp_words
      → k ≤ n
      → n - k ≤ fuel
      → write_stream_loop neon fuel stamp p n k pos (streamed k) ≡ streamed n
  unfolding write_stream_loop
  write_stream_loop-fill zero k pos e h f = ap streamed (omega arith)
  write_stream_loop-fill (suc fuel) k pos e h f = elim (Bool-cases (ltb k n)) [
    | inl more ↦
        let avail = stream_stamp_words - pos in
        let copy = if ltb (n - k) avail then n - k else avail in
        let copied =
          neon_copy_words-fill p k (expected_from seed stream pass start) m stamp pos copy
            (λ j lt. stamp_expected k pos j e (ground arith)) neon in
        let wrapped : bit_and (add64 pos copy) 1023 ≡ (start + (k + copy)) % stream_stamp_words =
          ground (arith, and-low_mask 10 (add64 pos copy)) in
        rw (more, copied)
          (write_stream_loop-fill fuel (k + copy) (bit_and (add64 pos copy) 1023) wrapped
            (ground arith) (ground arith))
    | inr done ↦ rw done (ap streamed (ground arith))
  ]

  pub write_stream-fill :
      write_stream neon p n start seed pass m ≡ fill p n (expected_from seed stream pass start) m
  unfolding write_stream
  write_stream-fill =
      ap (write_stream_loop neon n stamp p n 0 (bit_and start 1023))
        (sym (fill-zero p (expected_from seed stream pass start) m))
      ∙ write_stream_loop-fill n 0 (bit_and start 1023) (omega (arith, and-low_mask 10 start))
          (omega arith) (omega arith)
