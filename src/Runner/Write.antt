-- ===== src/Runner/Write.antt =====
-- `nxmt_write_chunk`, a function for each phase. `p` is the word address of the chunk, `n` its
-- number of words, and `neon` tells which side of `#if NXMT_HAS_NEON` is compiled.
pub mod Alternating
pub mod Eight
pub mod Copy
pub mod Narrow
pub mod Stream
pub mod Chunk
use nx_mem_test.Base.{ℕ, zero, suc, ◌+◌, ◌-◌, ◌*◌, ◌/◌, ◌%◌, ◌^◌, Bool, bit_and, bit_xor}
use nx_mem_test.Base.{
  u8, u64, add64, mul64, shl64, shr64, ltb, ◌==◌, if◌then◌else◌, loop_by, stop_at,
}
use nx_mem_test.Types.{Phase, fixed_a, fixed_5, checker, address, random, walking, narrow}
use nx_mem_test.Types.{bitspread, stream, word_bytes}
use nx_mem_test.Patterns.{bswap64}
use nx_mem_test.Runner.{k_fixed_a, k_fixed_5, k_addr_pass_mul, k_rand_pass_mul, k_bit_spread0}
use nx_mem_test.Runner.{k_bit_spread1, k_stream_pass_mul, stream_stamp_words}
use nx_mem_test.Runner.Memory.{Mem, store, U64x2, vdupq, vset_lane1, veorq, vandq, vaddq, vshlq}
use nx_mem_test.Runner.Memory.{vrev64q, vld1q, vst1q}

-- The memory and the vectors that a NEON loop carries.
pub record Lanes : Type 0 where
  pub mem : Mem
  pub v01 : U64x2
  pub v23 : U64x2
  pub v45 : U64x2
  pub v67 : U64x2

-- `memset` of whole words
unfoldable pub memset : Mem → ℕ → ℕ → ℕ → Mem
memset m p byte bytes =
    loop_by 1 (bytes / word_bytes) 0 (λ k m'. store m' (p + k) (byte * 0x0101010101010101)) m

-- A store of byte `i` of the memory from word `p` on; the lowest byte of a word comes first.
unfoldable pub set_byte : ℕ → ℕ → ℕ → ℕ
set_byte w j b = u64 (w / 256 ^ suc j * 256 ^ suc j) + b * 256 ^ j + w % 256 ^ j

unfoldable pub store_byte : Mem → ℕ → ℕ → ℕ → Mem
unfolding set_byte
store_byte m p i b = store m (p + i / 8) (set_byte (m (p + i / 8)) (i % 8) b)

-- One round of eight words: `encode` makes the stored vectors, and the carried ones step by `step`.
unfoldable pub write_eight : ℕ → (U64x2 → U64x2) → U64x2 → ℕ → Lanes → Lanes
write_eight p encode step k s =
    let m1 = vst1q s.mem (p + k) (encode s.v01) in
    let m2 = vst1q m1 (p + k + 2) (encode s.v23) in
    let m3 = vst1q m2 (p + k + 4) (encode s.v45) in
    let m4 = vst1q m3 (p + k + 6) (encode s.v67) in
    record {
      mem = m4;
      v01 = vaddq s.v01 step;
      v23 = vaddq s.v23 step;
      v45 = vaddq s.v45 step;
      v67 = vaddq s.v67 step;
    }

module _ (neon : Bool) where
  -- The alternating stores of the checker and bitspread phases.
  unfoldable pub write_alternating : ℕ → ℕ → ℕ → ℕ → Mem → Mem
  write_alternating p n a_first b_first m =
      let pat = vset_lane1 b_first (vdupq a_first) in
      let m1 =
        if neon
        then loop_by 4 n 0 (λ k m'. vst1q (vst1q m' (p + k) pat) (p + k + 2) pat) m
        else m in
      let k1 = if neon then stop_at 4 n 0 else 0 in
      let m2 = loop_by 2 n k1 (λ k m'. store (store m' (p + k) a_first) (p + k + 1) b_first) m1 in
      let k2 = stop_at 2 n k1 in if ltb k2 n then store m2 (p + k2) a_first else m2

  unfoldable pub write_checker : ℕ → ℕ → ℕ → Mem → Mem
  unfolding write_alternating
  write_checker p n start_word =
      let a_first = if bit_and start_word 1 == 0 then k_fixed_a else k_fixed_5 in
      write_alternating p n a_first (bit_xor a_first (bit_xor k_fixed_a k_fixed_5))

  unfoldable pub write_bitspread : ℕ → ℕ → ℕ → ℕ → Mem → Mem
  unfolding write_alternating
  write_bitspread p n start_word pass =
      let a_first =
        if bit_and (add64 start_word pass) 1 == 0 then k_bit_spread0 else k_bit_spread1 in
      write_alternating p n a_first (bit_xor a_first (bit_xor k_bit_spread0 k_bit_spread1))

  unfoldable pub write_address : ℕ → ℕ → ℕ → ℕ → ℕ → Mem → Mem
  unfolding write_eight
  write_address p n start_word seed pass m =
      let base_off = mul64 start_word word_bytes in
      let mask = bit_xor seed (mul64 pass k_addr_pass_mul) in
      let start : Lanes = record {
        mem = m;
        v01 = vset_lane1 (add64 base_off 8) (vdupq base_off);
        v23 = vset_lane1 (add64 base_off 24) (vdupq (add64 base_off 16));
        v45 = vset_lane1 (add64 base_off 40) (vdupq (add64 base_off 32));
        v67 = vset_lane1 (add64 base_off 56) (vdupq (add64 base_off 48));
      } in
      let encode = λ (v : U64x2). veorq v (vdupq mask) in
      let m1 = if neon then (loop_by 8 n 0 (write_eight p encode (vdupq 64)) start).mem else m in
      let k1 = if neon then stop_at 8 n 0 else 0 in
      loop_by 1 n k1 (λ k m'. store m' (p + k) (bit_xor (add64 base_off (mul64 k word_bytes)) mask))
        m1

  unfoldable pub write_random : ℕ → ℕ → ℕ → ℕ → ℕ → Mem → Mem
  unfolding write_eight
  write_random p n start_word seed pass m =
      let mask = bit_xor seed (mul64 pass k_rand_pass_mul) in
      let start : Lanes = record {
        mem = m;
        v01 = vset_lane1 (add64 start_word 1) (vdupq start_word);
        v23 = vset_lane1 (add64 start_word 3) (vdupq (add64 start_word 2));
        v45 = vset_lane1 (add64 start_word 5) (vdupq (add64 start_word 4));
        v67 = vset_lane1 (add64 start_word 7) (vdupq (add64 start_word 6));
      } in
      let encode = λ (v : U64x2). veorq (vrev64q v) (vdupq mask) in
      let m1 = if neon then (loop_by 8 n 0 (write_eight p encode (vdupq 8)) start).mem else m in
      let k1 = if neon then stop_at 8 n 0 else 0 in
      loop_by 1 n k1 (λ k m'. store m' (p + k) (bit_xor (bswap64 (add64 start_word k)) mask)) m1

  unfoldable pub write_walking : ℕ → ℕ → ℕ → ℕ → Mem → Mem
  unfolding write_eight
  write_walking p n start_word pass m =
      let pos_base = add64 start_word pass in
      let start : Lanes = record {
        mem = m;
        v01 = vset_lane1 (add64 pos_base 1) (vdupq pos_base);
        v23 = vset_lane1 (add64 pos_base 3) (vdupq (add64 pos_base 2));
        v45 = vset_lane1 (add64 pos_base 5) (vdupq (add64 pos_base 4));
        v67 = vset_lane1 (add64 pos_base 7) (vdupq (add64 pos_base 6));
      } in
      let encode = λ (v : U64x2). vshlq (vdupq 1) (vandq v (vdupq 63)) in
      let m1 = if neon then (loop_by 8 n 0 (write_eight p encode (vdupq 8)) start).mem else m in
      let k1 = if neon then stop_at 8 n 0 else 0 in
      loop_by 1 n k1 (λ k m'. store m' (p + k) (shl64 1 (bit_and (add64 pos_base k) 63))) m1

unfoldable pub write_narrow : ℕ → ℕ → ℕ → ℕ → ℕ → Mem → Mem
unfolding store_byte
write_narrow p n start_word seed pass m =
    let byte_count = mul64 n word_bytes in
    let byte_base = add64 (mul64 start_word word_bytes) (mul64 pass word_bytes) in
    loop_by 1 byte_count 0
      (λ i m'.
        store_byte m' p i
          (bit_xor (u8 (add64 byte_base i)) (u8 (shr64 seed (mul64 (bit_and i 7) 8)))))
      m

-- `nxmt_fill_stream_stamp`: an array of its own, at word address 0.
unfoldable pub fill_stream_stamp : Bool → ℕ → ℕ → Mem
fill_stream_stamp neon seed pass =
    let mask = bit_xor seed (mul64 pass k_stream_pass_mul) in
    let start : Lanes = record {
      mem = λ _. 0;
      v01 = vset_lane1 8 (vdupq 0);
      v23 = vset_lane1 24 (vdupq 16);
      v45 = vdupq 0;
      v67 = vdupq 0;
    } in
    let round = λ (k : ℕ) (s : Lanes). record s {
      mem = vst1q (vst1q s.mem k (veorq s.v01 (vdupq mask))) (k + 2) (veorq s.v23 (vdupq mask));
      v01 = vaddq s.v01 (vdupq 32);
      v23 = vaddq s.v23 (vdupq 32);
    } in
    let m1 = if neon then (loop_by 4 stream_stamp_words 0 round start).mem else start.mem in
    let k1 = if neon then stop_at 4 stream_stamp_words 0 else 0 in
    loop_by 1 stream_stamp_words k1 (λ k m'. store m' k (bit_xor (mul64 k word_bytes) mask)) m1

-- `nxmt_neon_copy_words`, from the array `src` at index `from` to the memory `m` at `dst`.
unfoldable pub neon_copy_words : Bool → Mem → ℕ → Mem → ℕ → ℕ → Mem
neon_copy_words neon m dst src from words =
    let round = λ (k : ℕ) (m' : Mem).
      let two = λ (i : ℕ) (t : Mem). vst1q t (dst + k + i) (vld1q src (from + k + i)) in
      two 14 (two 12 (two 10 (two 8 (two 6 (two 4 (two 2 (two 0 m'))))))) in
    let m1 = if neon then loop_by 16 words 0 round m else m in
    let k1 = if neon then stop_at 16 words 0 else 0 in
    loop_by 1 words k1 (λ k m'. store m' (dst + k) (src (from + k))) m1

-- The `while` of the stream phase; a round copies at least one word, so `n` rounds are enough.
unfoldable pub write_stream_loop : Bool → ℕ → Mem → ℕ → ℕ → ℕ → ℕ → Mem → Mem
unfolding neon_copy_words
write_stream_loop neon zero stamp p n k pos m = m
write_stream_loop neon (suc fuel) stamp p n k pos m =
    let need = n - k in
    let avail = stream_stamp_words - pos in
    let copy = if ltb need avail then need else avail in
    let rest =
      write_stream_loop neon fuel stamp p n (k + copy)
        (bit_and (add64 pos copy) (stream_stamp_words - 1))
        (neon_copy_words neon m (p + k) stamp pos copy) in
    if ltb k n then rest else m

unfoldable pub write_stream : Bool → ℕ → ℕ → ℕ → ℕ → ℕ → Mem → Mem
unfolding fill_stream_stamp write_stream_loop
write_stream neon p n start_word seed pass m =
    write_stream_loop neon n (fill_stream_stamp neon seed pass) p n 0
      (bit_and start_word (stream_stamp_words - 1)) m

unfoldable pub write_chunk : Bool → ℕ → ℕ → ℕ → Phase → ℕ → ℕ → Mem → Mem
write_chunk neon p n start_word fixed_a seed pass m = memset m p 0xaa (mul64 n word_bytes)
write_chunk neon p n start_word fixed_5 seed pass m = memset m p 0x55 (mul64 n word_bytes)
write_chunk neon p n start_word checker seed pass m = write_checker neon p n start_word m
write_chunk neon p n start_word address seed pass m = write_address neon p n start_word seed pass m
write_chunk neon p n start_word random seed pass m = write_random neon p n start_word seed pass m
write_chunk neon p n start_word walking seed pass m = write_walking neon p n start_word pass m
write_chunk neon p n start_word narrow seed pass m = write_narrow p n start_word seed pass m
write_chunk neon p n start_word bitspread seed pass m = write_bitspread neon p n start_word pass m
write_chunk neon p n start_word stream seed pass m = write_stream neon p n start_word seed pass m
