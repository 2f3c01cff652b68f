-- ===== src/Runner/Write/Eight.antt =====
-- The phases that write eight words a round: address, random and walking.
use nx_mem_test.Base.{ℕ, ◌+◌, ◌*◌, ◌/◌, ◌%◌, ◌^◌, ◌≤◌, ◌<◌, ◌≡◌, refl, sym, ap, ◌∙◌}
use nx_mem_test.Base.{Bool, true, false, arith, loop_by, loop_by-at, stop_at, bit_and, bit_xor}
use nx_mem_test.Base.{add64, mul64, shl64, if◌then◌else◌}
use nx_mem_test.Base.Xor.{xor_assoc}
use nx_mem_test.Types.{address, random, walking, word_bytes}
use nx_mem_test.Patterns.{bswap64, expected_value}
use nx_mem_test.Runner.{k_addr_pass_mul, k_rand_pass_mul}
use nx_mem_test.Runner.Expected.{expected_from}
use nx_mem_test.Runner.Memory.{Mem, U64x2, vdupq, veorq, vandq, vaddq, vshlq, vrev64q, vset_lane1}
use nx_mem_test.Runner.Memory.{store, vst1q, fill, fill-zero, vst1q-fill, fill-ext, store_loop}
use nx_mem_test.Runner.Write.{Lanes, write_eight, write_address, write_random, write_walking}

abbrev pair : (ℕ → ℕ) → ℕ → U64x2
pair g k = record { lane0 = g k; lane1 = g (k + 1) }

-- Each lane counts by `count`; the word stored for a counter is `word` of it.
module _ (p n : ℕ) (count word : ℕ → ℕ) (encode : U64x2 → U64x2) (step : ℕ) (m : Mem)
    (lanes : (u : U64x2) → encode u ≡ record { lane0 = word u.lane0; lane1 = word u.lane1 })
    (stepped : (k : ℕ) → add64 (count k) step ≡ count (k + 8)) where
  abbrev stored : ℕ → ℕ
  stored k = word (count k)

  -- The loop state at word `k`.
  abbrev eight_at : ℕ → Lanes
  eight_at k = record {
    mem = fill p k stored m;
    v01 = pair count k;
    v23 = pair count (k + 2);
    v45 = pair count (k + 4);
    v67 = pair count (k + 6);
  }

  pair-step : (k j : ℕ) → j ≡ k + 8 → vaddq (pair count k) (vdupq step) ≡ pair count j
  pair-step k j e =
      let e' : k + 1 + 8 ≡ j + 1 = omega arith in
      λ i. record {
        lane0 = (stepped k ∙ ap count (sym e)) i;
        lane1 = (stepped (k + 1) ∙ ap count e') i;
      }

  stored-pair :
      (a j j' : ℕ)
      → a ≡ p + j
      → j' ≡ j + 2
      → vst1q (fill p j stored m) a (encode (pair count j)) ≡ fill p j' stored m
  stored-pair a j j' ea ej = rw lanes (vst1q-fill p j stored m ea ej refl refl)

  eight_round :
      (k : ℕ)
      → k % 8 ≡ 0
      → k + 8 ≤ n
      → write_eight p encode (vdupq step) k (eight_at k) ≡ eight_at (k + 8)
  unfolding write_eight
  eight_round k e h = λ i. record {
    mem = memory i;
    v01 = pair-step k (k + 8) refl i;
    v23 = pair-step (k + 2) (k + 8 + 2) (omega arith) i;
    v45 = pair-step (k + 4) (k + 8 + 4) (omega arith) i;
    v67 = pair-step (k + 6) (k + 8 + 6) (omega arith) i;
  }
    where
      memory :
          vst1q
            (vst1q
              (vst1q
                (vst1q (fill p k stored m) (p + k) (encode (pair count k)))
                (p + k + 2)
                (encode (pair count (k + 2))))
              (p + k + 4)
              (encode (pair count (k + 4))))
            (p + k + 6)
            (encode (pair count (k + 6)))
          ≡ fill p (k + 8) stored m
      memory =
          ap
            (λ t.
              vst1q
                (vst1q (vst1q t (p + k + 2) (encode (pair count (k + 2)))) (p + k + 4)
                  (encode (pair count (k + 4))))
                (p + k + 6) (encode (pair count (k + 6))))
            (stored-pair (p + k) k (k + 2) refl refl)
          ∙ ap
              (λ t.
                vst1q (vst1q t (p + k + 4) (encode (pair count (k + 4)))) (p + k + 6)
                  (encode (pair count (k + 6))))
              (stored-pair (p + k + 2) (k + 2) (k + 4) (omega arith) (omega arith))
          ∙ ap (λ t. vst1q t (p + k + 6) (encode (pair count (k + 6))))
              (stored-pair (p + k + 4) (k + 4) (k + 6) (omega arith) (omega arith))
          ∙ stored-pair (p + k + 6) (k + 6) (k + 8) (omega arith) (omega arith)

  -- The NEON loop, from a start that holds the first eight counters, and then the scalar one.
  pub eight_then_scalar :
      (neon : Bool) (start : Lanes) (scalar f : ℕ → ℕ)
      → start ≡ record (eight_at 0) { mem = m }
      → ((k : ℕ) → k < n → scalar k ≡ f k)
      → ((k : ℕ) → k < n → stored k ≡ f k)
      → loop_by 1 n
          (if neon then stop_at 8 n 0 else 0)
          (λ k t. store t (p + k) (scalar k))
          (if neon then (loop_by 8 n 0 (write_eight p encode (vdupq step)) start).mem else m)
        ≡ fill p n f m
  eight_then_scalar true start scalar f es e e' =
      let stop : stop_at 8 n 0 ≤ n = omega arith in
      ap (loop_by 1 n (stop_at 8 n 0) (λ k t. store t (p + k) (scalar k))) (
        ap (λ (s : Lanes). (loop_by 8 n 0 (write_eight p encode (vdupq step)) s).mem)
          (es ∙ λ i. record (eight_at 0) { mem = sym (fill-zero p stored m) i })
        ∙ ap (λ (s : Lanes). s.mem) (loop_by-at 8 n _ eight_at eight_round 0 refl (omega arith))
        ∙ fill-ext p (stop_at 8 n 0) stored f m (λ k lt. e' k (omega (arith, stop))))
      ∙ store_loop p n (stop_at 8 n 0) scalar f m (omega arith) e
  eight_then_scalar false start scalar f es e e' =
      ap (loop_by 1 n 0 (λ k t. store t (p + k) (scalar k))) (sym (fill-zero p f m))
      ∙ store_loop p n 0 scalar f m (omega arith) e

counters_start :
    (count : ℕ → ℕ) (c c1 c2 c3 c4 c5 c6 c7 : ℕ) (m : Mem)
    → (c ≡ count 0)
      × (c1 ≡ count 1)
      × (c2 ≡ count 2)
      × (c3 ≡ count 3)
      × (c4 ≡ count 4)
      × (c5 ≡ count 5)
      × (c6 ≡ count 6)
      × (c7 ≡ count 7)
    → ◌≡◌ {A = Lanes}
        (record {
          mem = m;
          v01 = vset_lane1 c1 (vdupq c);
          v23 = vset_lane1 c3 (vdupq c2);
          v45 = vset_lane1 c5 (vdupq c4);
          v67 = vset_lane1 c7 (vdupq c6);
        })
        (record {
          mem = m;
          v01 = pair count 0;
          v23 = pair count 2;
          v45 = pair count 4;
          v67 = pair count 6;
        })
counters_start count c c1 c2 c3 c4 c5 c6 c7 m e = λ i. record {
  mem = m;
  v01 = record { lane0 = e.0 i; lane1 = e.1 i };
  v23 = record { lane0 = e.2 i; lane1 = e.3 i };
  v45 = record { lane0 = e.4 i; lane1 = e.5 i };
  v67 = record { lane0 = e.6 i; lane1 = e.7 i };
}

module _ (neon : Bool) (p n start seed pass : ℕ) (m : Mem)
    (fits : (start + n) * word_bytes ≤ 2 ^ 64) where
  pub write_address-fill :
      write_address neon p n start seed pass m ≡ fill p n (expected_from seed address pass start) m
  unfolding write_address expected_value
  write_address-fill =
      let base_off = mul64 start word_bytes in
      let mask = bit_xor seed (mul64 pass k_addr_pass_mul) in
      let count = λ (k : ℕ). add64 base_off (8 * k) in
      eight_then_scalar p n count (λ c. bit_xor c mask) (λ v. veorq v (vdupq mask)) 64 m (λ u. refl)
        (λ k. omega arith) neon _ (λ k. bit_xor (add64 base_off (mul64 k word_bytes)) mask)
        (expected_from seed address pass start)
        (counters_start count _ _ _ _ _ _ _ _ m (omega arith))
        (λ k lt. at_offset (add64 base_off (mul64 k word_bytes)) k (omega arith))
        (λ k lt. at_offset (count k) k (omega arith))
    where
      at_offset :
          (o k : ℕ)
          → o ≡ (start + k) * word_bytes
          → bit_xor o (bit_xor seed (mul64 pass k_addr_pass_mul))
            ≡ expected_from seed address pass start k
      at_offset o k e =
          ap (λ t. bit_xor t (bit_xor seed (mul64 pass k_addr_pass_mul))) e
          ∙ sym (xor_assoc ((start + k) * word_bytes) seed (mul64 pass k_addr_pass_mul))

  pub write_random-fill :
      write_random neon p n start seed pass m ≡ fill p n (expected_from seed random pass start) m
  unfolding write_random expected_value
  write_random-fill =
      let mask = bit_xor seed (mul64 pass k_rand_pass_mul) in
      let count = λ (k : ℕ). add64 start k in
      eight_then_scalar p n count (λ c. bit_xor (bswap64 c) mask)
        (λ v. veorq (vrev64q v) (vdupq mask)) 8 m (λ u. refl) (λ k. omega arith) neon _
        (λ k. bit_xor (bswap64 (add64 start k)) mask) (expected_from seed random pass start)
        (counters_start count _ _ _ _ _ _ _ _ m (omega arith)) (λ k lt. at_word k lt)
        (λ k lt. at_word k lt)
    where
      at_word :
          (k : ℕ)
          → k < n
          → bit_xor (bswap64 (add64 start k)) (bit_xor seed (mul64 pass k_rand_pass_mul))
            ≡ expected_from seed random pass start k
      at_word k lt =
          let word : add64 start k ≡ (start + k) * 8 / 8 = omega arith in
          ap (λ t. bit_xor (bswap64 t) (bit_xor seed (mul64 pass k_rand_pass_mul))) word
          ∙ sym (xor_assoc (bswap64 ((start + k) * 8 / 8)) seed (mul64 pass k_rand_pass_mul))

  pub write_walking-fill :
      write_walking neon p n start pass m ≡ fill p n (expected_from seed walking pass start) m
  unfolding write_walking expected_value
  write_walking-fill =
      let pos_base = add64 start pass in
      let count = λ (k : ℕ). add64 pos_base k in
      eight_then_scalar p n count (λ c. shl64 1 (bit_and c 63))
        (λ v. vshlq (vdupq 1) (vandq v (vdupq 63))) 8 m (λ u. refl) (λ k. omega arith) neon _
        (λ k. shl64 1 (bit_and (add64 pos_base k) 63)) (expected_from seed walking pass start)
        (counters_start count _ _ _ _ _ _ _ _ m (omega arith)) (λ k lt. at_word k)
        (λ k lt. at_word k)
    where
      at_word :
          (k : ℕ)
          → shl64 1 (bit_and (add64 (add64 start pass) k) 63)
            ≡ expected_from seed walking pass start k
      at_word k =
          let word : add64 (add64 start pass) k ≡ add64 ((start + k) * 8 / 8) pass = omega arith in
          ap (λ t. shl64 1 (bit_and t 63)) word
