-- ===== src/Runner/Verify/Compare.antt =====
-- The comparison with the stamp finds every word that differs.
use nx_mem_test.Base.{ℕ, zero, suc, ◌+◌, ◌-◌, ◌*◌, ◌%◌, ◌^◌, ◌≤◌, ◌<◌, ◌≡◌, sym, ap, ◌∙◌}
use nx_mem_test.Base.{inl, inr, Bool, true, false, arith, Bool-cases, bit_and, add64, ltb, ◌==◌}
use nx_mem_test.Base.{ltb→lt, if◌then◌else◌}
use nx_mem_test.Base.Mask.{and-low_mask}
use nx_mem_test.Types.{stream, word_bytes}
use nx_mem_test.Runner.{stream_stamp_words}
use nx_mem_test.Runner.Memory.{Mem}
use nx_mem_test.Runner.Expected.{expected_from}
use nx_mem_test.Runner.Write.{fill_stream_stamp}
use nx_mem_test.Runner.Write.Stream.{stamp_expected}
use nx_mem_test.Runner.Verify.{words_equal, stream_has_mismatch}
use nx_mem_test.Runner.Verify.Agree.{Agree}

words_equal-true :
    (m : Mem) (p n : ℕ) (stamp : Mem) (from k cmp j : ℕ)
    → words_equal m p n stamp from k cmp ≡ true
    → j < cmp
    → m (p + (k + j)) ≡ stamp (from + j)
unfolding words_equal
words_equal-true m p n stamp from k zero j e lt = absurd (omega arith)
words_equal-true m p n stamp from k (suc cmp) j e lt = elim (Bool-cases (j == 0)) [
  | inl here ↦
      let ek : p + (k + j) ≡ p + k = ground arith in
      let ef : from + j ≡ from = ground arith in
      let head : m (p + k) ≡ stamp from = ground arith in rw (ek, ef) head
  | inr later ↦
      let ek : p + (k + j) ≡ p + (suc k + (j - 1)) = ground arith in
      let ef : from + j ≡ suc from + (j - 1) = ground arith in
      let tail : words_equal m p n stamp (suc from) (suc k) cmp ≡ true = ground arith in
      rw (ek, ef) (words_equal-true m p n stamp (suc from) (suc k) cmp (j - 1) tail (ground arith))
]

module _ (neon : Bool) (m : Mem) (p n start seed pass : ℕ)
    (fits : (start + n) * word_bytes ≤ 2 ^ 64) where
  pub stream_has_mismatch-Agree :
      (fuel k pos : ℕ)
      → pos ≡ (start + k) % stream_stamp_words
      → k ≤ n
      → n - k ≤ fuel
      → stream_has_mismatch m p n fuel (fill_stream_stamp neon seed pass) k pos ≡ false
      → Agree m p (expected_from seed stream pass start) k
      → Agree m p (expected_from seed stream pass start) n
  unfolding stream_has_mismatch
  stream_has_mismatch-Agree zero k pos e h f none agree = λ j lt. agree j (omega arith)
  stream_has_mismatch-Agree (suc fuel) k pos e h f none agree = elim (Bool-cases (ltb k n)) [
    | inr done ↦ λ j lt. agree j (ground arith)
    | inl more ↦
        let avail = stream_stamp_words - pos in
        let cmp = if ltb (n - k) avail then n - k else avail in
        let stamp = fill_stream_stamp neon seed pass in
        let equal : words_equal m p n stamp pos k cmp ≡ true = ground arith in
        let wrapped : bit_and (add64 pos cmp) 1023 ≡ (start + (k + cmp)) % stream_stamp_words =
          ground (arith, and-low_mask 10 (add64 pos cmp)) in
        stream_has_mismatch-Agree fuel (k + cmp) (bit_and (add64 pos cmp) 1023) wrapped
          (ground arith) (ground arith) (ground arith)
          (λ j lt. elim (Bool-cases (ltb j k)) [
            | inl before ↦ agree j (ltb→lt j k before)
            | inr after ↦
                let at : j ≡ k + (j - k) = ground arith in
                ap (λ i. m (p + i)) at
                ∙ words_equal-true m p n stamp pos k cmp (j - k) equal (ground arith)
                ∙ stamp_expected neon p n start seed pass m fits k pos (j - k) e (ground arith)
                ∙ ap (expected_from seed stream pass start) (sym at)
          ])
  ]
