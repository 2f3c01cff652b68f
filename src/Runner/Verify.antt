-- ===== src/Runner/Verify.antt =====
-- `nxmt_verify_chunk`, a function for each phase: a quick scan that ORs all differences, and only
-- if it finds one, the loop that records the words that differ.
pub mod Spec
pub mod Agree
pub mod Neon
pub mod Compare
pub mod Chunk
use nx_mem_test.Base.{ℕ, zero, suc, ◌+◌, ◌-◌, Bool, true, false, ◌&&◌, not}
use nx_mem_test.Base.{bit_and, bit_or, bit_xor, add64, mul64, shl64, ltb, ◌==◌, ◌!=◌, if◌then◌else◌}
use nx_mem_test.Base.{loop_by, stop_at}
use nx_mem_test.Types.{Phase, fixed_a, fixed_5, checker, address, random, walking, narrow}
use nx_mem_test.Types.{bitspread, stream, word_bytes}
use nx_mem_test.Patterns.{bswap64}
use nx_mem_test.Report.{Report, report_record_error}
use nx_mem_test.Runner.{RunConfig, k_fixed_a, k_fixed_5, k_addr_pass_mul, k_rand_pass_mul}
use nx_mem_test.Runner.{k_bit_spread0, k_bit_spread1, k_stream_pass_mul, stream_stamp_words}
use nx_mem_test.Runner.Memory.{Mem, U64x2, vdupq, vset_lane1, veorq, vorrq, vaddq, vrev64q, vld1q}
use nx_mem_test.Runner.Write.{fill_stream_stamp}

-- The vectors that a NEON scan carries: two of counters, and the differences.
pub record Scan : Type 0 where
  pub v01 : U64x2
  pub v23 : U64x2
  pub acc : U64x2

module _ (m : Mem) (p n : ℕ) where
  unfoldable pub chunk_has_mismatch_fixed : ℕ → Bool
  chunk_has_mismatch_fixed target =
      loop_by 1 n 0 (λ k acc. bit_or acc (bit_xor (m (p + k)) target)) 0 != 0

  -- The scan of the checker and bitspread phases.
  unfoldable pub scan_alternating : ℕ → ℕ → ℕ
  scan_alternating a_first b_first =
      let acc =
        loop_by 2 n 0
          (λ k acc.
            bit_or (bit_or acc (bit_xor (m (p + k)) a_first)) (bit_xor (m (p + k + 1)) b_first))
          0 in
      if bit_and n 1 != 0 then bit_or acc (bit_xor (m (p + (n - 1))) a_first) else acc

  -- A scan word by word, from `k` on.
  unfoldable pub scan_words : ℕ → (ℕ → ℕ) → ℕ → ℕ
  scan_words k expected acc =
      loop_by 1 n k (λ j acc'. bit_or acc' (bit_xor (m (p + j)) (expected j))) acc

  unfoldable pub scan_address : Bool → ℕ → ℕ → ℕ
  unfolding scan_words
  scan_address neon base_off mask =
      let start : Scan = record {
        v01 = vset_lane1 (add64 base_off 8) (vdupq base_off);
        v23 = vset_lane1 (add64 base_off 24) (vdupq (add64 base_off 16));
        acc = vdupq 0;
      } in
      let round : ℕ → Scan → Scan = λ k s. record {
        v01 = vaddq s.v01 (vdupq 32);
        v23 = vaddq s.v23 (vdupq 32);
        acc =
            vorrq (vorrq s.acc (veorq (veorq s.v01 (vdupq mask)) (vld1q m (p + k))))
              (veorq (veorq s.v23 (vdupq mask)) (vld1q m (p + k + 2)));
      } in
      let lanes = (loop_by 4 n 0 round start).acc in
      let acc = if neon then bit_or 0 (bit_or lanes.lane0 lanes.lane1) else 0 in
      let k = if neon then stop_at 4 n 0 else 0 in
      scan_words k (λ j. bit_xor (add64 base_off (mul64 j word_bytes)) mask) acc

  unfoldable pub scan_random : Bool → ℕ → ℕ → ℕ
  unfolding scan_words
  scan_random neon start_word mask =
      let start : Scan = record {
        v01 = vset_lane1 (add64 start_word 1) (vdupq start_word);
        v23 = vdupq 0;
        acc = vdupq 0;
      } in
      let round : ℕ → Scan → Scan = λ k s. record s {
        v01 = vaddq s.v01 (vdupq 2);
        acc = vorrq s.acc (veorq (veorq (vrev64q s.v01) (vdupq mask)) (vld1q m (p + k)));
      } in
      let lanes = (loop_by 2 n 0 round start).acc in
      let acc = if neon then bit_or 0 (bit_or lanes.lane0 lanes.lane1) else 0 in
      let k = if neon then stop_at 2 n 0 else 0 in
      scan_words k (λ j. bit_xor (bswap64 (add64 start_word j)) mask) acc

  -- `memcmp` of `cmp` words, equal or not
  unfoldable pub words_equal : Mem → ℕ → ℕ → ℕ → Bool
  words_equal stamp from k zero = true
  words_equal stamp from k (suc cmp) =
      m (p + k) == stamp from && words_equal stamp (suc from) (suc k) cmp

  -- The `while` of the stream phase; a round compares at least one word.
  unfoldable pub stream_has_mismatch : ℕ → Mem → ℕ → ℕ → Bool
  unfolding words_equal
  stream_has_mismatch zero stamp k pos = false
  stream_has_mismatch (suc fuel) stamp k pos =
      let need = n - k in
      let avail = stream_stamp_words - pos in
      let cmp = if ltb need avail then need else avail in
      let rest =
        stream_has_mismatch fuel stamp (k + cmp)
          (bit_and (add64 pos cmp) (stream_stamp_words - 1)) in
      if ltb k n then (if words_equal stamp pos k cmp then rest else true) else false

  module _ (start_word : ℕ) (config : RunConfig) (report : Report) where
    -- The loop that records the words that differ from what is expected.
    unfoldable pub record_differing : Phase → (ℕ → ℕ) → Report
    record_differing phase expected =
        let base_off = mul64 start_word word_bytes in
        loop_by 1 n 0
          (λ k (r : Report).
            let actual = m (p + k) in
            if actual != expected k
            then report_record_error r config.mode phase config.seed config.pass config.worker_id
                (add64 base_off (mul64 k word_bytes)) (expected k) actual
            else r)
          report

    unfoldable pub verify_fixed : Phase → ℕ → Report
    unfolding chunk_has_mismatch_fixed record_differing
    verify_fixed phase target =
        if not (chunk_has_mismatch_fixed target)
        then report
        else record_differing phase (λ _. target)

    unfoldable pub verify_checker : Report
    unfolding scan_alternating record_differing
    verify_checker =
        let a_first = if bit_and start_word 1 != 0 then k_fixed_5 else k_fixed_a in
        let b_first = bit_xor a_first (bit_xor k_fixed_a k_fixed_5) in
        if scan_alternating a_first b_first == 0
        then report
        else record_differing checker
            (λ k. if bit_and (add64 start_word k) 1 != 0 then k_fixed_5 else k_fixed_a)

    unfoldable pub verify_bitspread : Report
    unfolding scan_alternating record_differing
    verify_bitspread =
        let a_first =
          if bit_and (add64 start_word config.pass) 1 != 0 then k_bit_spread1 else k_bit_spread0 in
        let b_first = bit_xor a_first (bit_xor k_bit_spread0 k_bit_spread1) in
        if scan_alternating a_first b_first == 0
        then report
        else record_differing bitspread (λ k.
          if bit_and (add64 (add64 start_word k) config.pass) 1 != 0
          then k_bit_spread1
          else k_bit_spread0)

    unfoldable pub verify_address : Bool → Report
    unfolding scan_address record_differing
    verify_address neon =
        let base_off = mul64 start_word word_bytes in
        let mask = bit_xor config.seed (mul64 config.pass k_addr_pass_mul) in
        if scan_address neon base_off mask == 0
        then report
        else record_differing address (λ k. bit_xor (add64 base_off (mul64 k word_bytes)) mask)

    unfoldable pub verify_random : Bool → Report
    unfolding scan_random record_differing
    verify_random neon =
        let mask = bit_xor config.seed (mul64 config.pass k_rand_pass_mul) in
        if scan_random neon start_word mask == 0
        then report
        else record_differing random (λ k. bit_xor (bswap64 (add64 start_word k)) mask)

    unfoldable pub verify_walking : Report
    unfolding record_differing
    verify_walking =
        let pos_base = add64 start_word config.pass in
        record_differing walking (λ k. shl64 1 (bit_and (add64 pos_base k) 63))

    -- The word of the narrow phase, in its closed form.
    unfoldable pub narrow_word : ℕ → ℕ
    narrow_word k =
        let base_off = mul64 start_word word_bytes in
        let pass_off = mul64 config.pass word_bytes in
        let x = bit_and (add64 (add64 base_off (mul64 k word_bytes)) pass_off) 0xff in
        bit_xor (bit_xor (mul64 x 0x0101010101010101) 0x0706050403020100) config.seed

    unfoldable pub verify_narrow : Report
    unfolding narrow_word scan_words record_differing
    verify_narrow =
        if scan_words 0 narrow_word 0 == 0 then report else record_differing narrow narrow_word

    unfoldable pub verify_stream : Bool → Report
    unfolding fill_stream_stamp stream_has_mismatch record_differing
    verify_stream neon =
        let base_off = mul64 start_word word_bytes in
        let stamp = fill_stream_stamp neon config.seed config.pass in
        let pos = bit_and start_word (stream_stamp_words - 1) in
        let mask = bit_xor config.seed (mul64 config.pass k_stream_pass_mul) in
        if not (stream_has_mismatch n stamp 0 pos)
        then report
        else record_differing stream
            (λ k. bit_xor (bit_and (add64 base_off (mul64 k word_bytes)) 0x1fff) mask)

    unfoldable pub verify_chunk : Bool → Phase → Report
    verify_chunk neon fixed_a = verify_fixed fixed_a k_fixed_a
    verify_chunk neon fixed_5 = verify_fixed fixed_5 k_fixed_5
    verify_chunk neon checker = verify_checker
    verify_chunk neon address = verify_address neon
    verify_chunk neon random = verify_random neon
    verify_chunk neon walking = verify_walking
    verify_chunk neon narrow = verify_narrow
    verify_chunk neon bitspread = verify_bitspread
    verify_chunk neon stream = verify_stream neon
