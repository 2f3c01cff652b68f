-- ===== src/Runner/Verify/Chunk.antt =====
-- Verifying a chunk reports the words that differ.
use nx_mem_test.Base.{ℕ, ◌+◌, ◌*◌, ◌/◌, ◌^◌, ◌≤◌, ◌<◌, ◌≡◌, refl, sym, ap, ◌∙◌}
use nx_mem_test.Base.{
  inl, inr, Bool, true, false, arith, Bool-cases, bit_and, bit_xor, add64, mul64,
}
use nx_mem_test.Base.{shl64, ◌==◌, ◌!=◌, if◌then◌else◌}
use nx_mem_test.Base.Mask.{and-low_mask}
use nx_mem_test.Base.Xor.{xor_assoc}
use nx_mem_test.Types.{Phase, fixed_a, fixed_5, checker, address, random, walking, narrow}
use nx_mem_test.Types.{bitspread, stream, word_bytes}
use nx_mem_test.Patterns.{bswap64, expected_value}
use nx_mem_test.Report.{Report}
use nx_mem_test.Report.Summary.{record_all}
use nx_mem_test.Runner.{RunConfig, k_fixed_a, k_fixed_5, k_addr_pass_mul, k_rand_pass_mul}
use nx_mem_test.Runner.{k_bit_spread0, k_bit_spread1, k_stream_pass_mul}
use nx_mem_test.Runner.Memory.{Mem}
use nx_mem_test.Runner.Expected.{expected_from}
use nx_mem_test.Runner.Verify.{record_differing, verify_chunk}
use nx_mem_test.Runner.Verify.{verify_fixed, verify_checker, verify_bitspread, verify_address}
use nx_mem_test.Runner.Verify.{verify_random, verify_walking, verify_narrow, verify_stream}
use nx_mem_test.Runner.Verify.Spec.{mismatches, mismatches-none, record_differing-record_all}
use nx_mem_test.Runner.Verify.Agree.{Agree, Agree-zero, scan_words-Agree, scan_alternating-Agree}
use nx_mem_test.Runner.Verify.Agree.{chunk_has_mismatch_fixed-Agree}
use nx_mem_test.Runner.Verify.Neon.{scan_address-Agree, scan_random-Agree}
use nx_mem_test.Runner.Verify.Compare.{stream_has_mismatch-Agree}

module _ (m : Mem) (p n start : ℕ) (config : RunConfig) (report : Report)
    (fits : (start + n) * word_bytes ≤ 2 ^ 64) where
  abbrev value : Phase → ℕ → ℕ
  value phase = expected_from config.seed phase config.pass start

  abbrev wanted : Phase → Report
  wanted phase = record_all report (mismatches config phase m p start n)

  -- A quick scan that is right to find nothing, before the recording loop.
  scanned :
      (phase : Phase) (clean : Bool) (expected : ℕ → ℕ)
      → ((k : ℕ) → k < n → expected k ≡ value phase k)
      → (clean ≡ true → Agree m p (value phase) n)
      → (if clean then report else record_differing m p n start config report phase expected)
        ≡ wanted phase
  scanned phase true expected same agree =
      ap (record_all report) (sym (mismatches-none config phase m p start n (agree refl)))
  scanned phase false expected same agree =
      record_differing-record_all config phase m p start n expected fits same report

  verify_fixed_a-record_all :
      verify_fixed m p n start config report fixed_a k_fixed_a ≡ wanted fixed_a
  unfolding verify_fixed expected_value
  verify_fixed_a-record_all =
      scanned fixed_a _ (λ _. k_fixed_a) (λ k lt. refl)
        (λ e.
          chunk_has_mismatch_fixed-Agree m p (value fixed_a) n k_fixed_a (λ k lt. refl)
            (ground arith))

  verify_fixed_5-record_all :
      verify_fixed m p n start config report fixed_5 k_fixed_5 ≡ wanted fixed_5
  unfolding verify_fixed expected_value
  verify_fixed_5-record_all =
      scanned fixed_5 _ (λ _. k_fixed_5) (λ k lt. refl)
        (λ e.
          chunk_has_mismatch_fixed-Agree m p (value fixed_5) n k_fixed_5 (λ k lt. refl)
            (ground arith))

  is_zero : (x : ℕ) → x == 0 ≡ true → x ≡ 0
  is_zero x e = ground arith

  verify_checker-record_all : verify_checker m p n start config report ≡ wanted checker
  unfolding verify_checker expected_value
  verify_checker-record_all =
      scanned checker _ (λ k. if bit_and (add64 start k) 1 != 0 then k_fixed_5 else k_fixed_a)
        (λ k lt.
          ground (arith, and-low_mask 1 (add64 start k), and-low_mask 1 ((start + k) * 8 / 8)))
        (λ e.
          scan_alternating-Agree m p (value checker) n _ _
            (λ k lt.
              let here = and-low_mask 1 start in
              let there = and-low_mask 1 ((start + k) * 8 / 8) in
              elim (Bool-cases (bit_and start 1 != 0)) [
                | inl odd ↦ rw odd (ground arith)
                | inr even ↦ rw even (ground arith)
              ])
            (is_zero _ e))

  verify_bitspread-record_all : verify_bitspread m p n start config report ≡ wanted bitspread
  unfolding verify_bitspread expected_value
  verify_bitspread-record_all =
      scanned bitspread _
        (λ k.
          if bit_and (add64 (add64 start k) config.pass) 1 != 0
          then k_bit_spread1
          else k_bit_spread0)
        (λ k lt. ground (
          arith,
          and-low_mask 1 (add64 (add64 start k) config.pass),
          and-low_mask 1 (add64 ((start + k) * 8 / 8) config.pass),
        ))
        (λ e.
          scan_alternating-Agree m p (value bitspread) n _ _
            (λ k lt.
              let here = and-low_mask 1 (add64 start config.pass) in
              let there = and-low_mask 1 (add64 ((start + k) * 8 / 8) config.pass) in
              elim (Bool-cases (bit_and (add64 start config.pass) 1 != 0)) [
                | inl odd ↦ rw odd (ground arith)
                | inr even ↦ rw even (ground arith)
              ])
            (is_zero _ e))

  -- Both ways to write the mask of a phase.
  masked :
      (o o' seed mask : ℕ) → o ≡ o' → bit_xor o (bit_xor seed mask) ≡ bit_xor (bit_xor o' seed) mask
  masked o o' seed mask e = ap (λ t. bit_xor t (bit_xor seed mask)) e ∙ sym (xor_assoc o' seed mask)

  module _ (small : start < 2 ^ 64) (neon : Bool) where
    verify_address-record_all : verify_address m p n start config report neon ≡ wanted address
    unfolding verify_address expected_value
    verify_address-record_all =
        let same = λ (k : ℕ) (lt : k < n).
          masked (add64 (mul64 start word_bytes) (mul64 k word_bytes)) ((start + k) * word_bytes)
            config.seed (mul64 config.pass k_addr_pass_mul) (omega arith) in
        scanned address _ _ same
          (λ e. scan_address-Agree m p n (value address) neon _ _ (omega arith) same (is_zero _ e))

    verify_random-record_all : verify_random m p n start config report neon ≡ wanted random
    unfolding verify_random expected_value
    verify_random-record_all =
        let same = λ (k : ℕ) (lt : k < n).
          let word : add64 start k ≡ (start + k) * word_bytes / word_bytes = omega arith in
          masked (bswap64 (add64 start k)) (bswap64 ((start + k) * word_bytes / word_bytes))
            config.seed (mul64 config.pass k_rand_pass_mul) (ap bswap64 word) in
        scanned random _ _ same
          (λ e. scan_random-Agree m p n (value random) neon start _ small same (is_zero _ e))

  verify_walking-record_all : verify_walking m p n start config report ≡ wanted walking
  unfolding verify_walking expected_value
  verify_walking-record_all =
      record_differing-record_all config walking m p start n _ fits
        (λ k lt. ap (λ t. shl64 1 (bit_and t 63)) (omega arith)) report

  verify_narrow-record_all : verify_narrow m p n start config report ≡ wanted narrow
  unfolding verify_narrow expected_value
  verify_narrow-record_all =
      let same = λ (k : ℕ) (lt : k < n).
        let x : add64 (add64 (mul64 start word_bytes) (mul64 k word_bytes))
              (mul64 config.pass word_bytes)
            ≡ add64 ((start + k) * word_bytes) (mul64 config.pass word_bytes) =
          omega arith in
        ap
          (λ t.
            bit_xor (bit_xor (mul64 (bit_and t 0xff) 0x0101010101010101) 0x0706050403020100)
              config.seed)
          x in
      scanned narrow _ _ same (λ e.
        scan_words-Agree m p (value narrow) n 0 0 _ (omega arith) same (λ _. Agree-zero m p _)
          (is_zero _ e))

  verify_stream-record_all :
      (neon : Bool) → verify_stream m p n start config report neon ≡ wanted stream
  unfolding verify_stream expected_value
  verify_stream-record_all neon =
      scanned stream _ _
        (λ k lt.
          masked (bit_and (add64 (mul64 start word_bytes) (mul64 k word_bytes)) 0x1fff)
            (bit_and ((start + k) * word_bytes) 0x1fff) config.seed
            (mul64 config.pass k_stream_pass_mul) (ap (λ t. bit_and t 0x1fff) (omega arith)))
        (λ e.
          stream_has_mismatch-Agree neon m p n start config.seed config.pass fits n 0
            (bit_and start 1023) (omega (arith, and-low_mask 10 start)) (omega arith) (omega arith)
            (ground arith) (Agree-zero m p _))

-- Verifying a chunk, whichever way it is compiled, records exactly the words of the chunk that
-- differ from what the phase expects, in the order of their addresses; if none differs, the report
-- stays as it is.
pub verify_chunk_lem :
    (m : Mem) (p n start : ℕ) (config : RunConfig) (report : Report) (neon : Bool) (phase : Phase)
    → (start + n) * word_bytes ≤ 2 ^ 64
    → start < 2 ^ 64
    → verify_chunk m p n start config report neon phase
      ≡ record_all report (mismatches config phase m p start n)
unfolding verify_chunk
verify_chunk_lem m p n start config report neon fixed_a fits small =
    verify_fixed_a-record_all m p n start config report fits
verify_chunk_lem m p n start config report neon fixed_5 fits small =
    verify_fixed_5-record_all m p n start config report fits
verify_chunk_lem m p n start config report neon checker fits small =
    verify_checker-record_all m p n start config report fits
verify_chunk_lem m p n start config report neon address fits small =
    verify_address-record_all m p n start config report fits small neon
verify_chunk_lem m p n start config report neon random fits small =
    verify_random-record_all m p n start config report fits small neon
verify_chunk_lem m p n start config report neon walking fits small =
    verify_walking-record_all m p n start config report fits
verify_chunk_lem m p n start config report neon narrow fits small =
    verify_narrow-record_all m p n start config report fits
verify_chunk_lem m p n start config report neon bitspread fits small =
    verify_bitspread-record_all m p n start config report fits
verify_chunk_lem m p n start config report neon stream fits small =
    verify_stream-record_all m p n start config report fits neon
