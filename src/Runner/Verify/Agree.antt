-- ===== src/Runner/Verify/Agree.antt =====
-- A scan that finds no difference has seen only words as expected.
use nx_mem_test.Base.{ℕ, ◌+◌, ◌-◌, ◌%◌, ◌≤◌, ◌<◌, ◌≡◌, ◌⊎◌, refl, sym, ◌∙◌}
use nx_mem_test.Base.{inl, inr, false, arith, Bool-cases, bit_and, bit_or, bit_xor}
use nx_mem_test.Base.{◌==◌, ◌!=◌, if◌then◌else◌, loop_by, loop_by-inv, stop_at}
use mathlib.Core.Path.{subst}
use nx_mem_test.Base.Mask.{and-low_mask}
use nx_mem_test.Base.Xor.{eq_of_xor-zero, zero_of_or-zero}
use nx_mem_test.Runner.Memory.{Mem}
use nx_mem_test.Runner.Verify.{scan_words, scan_alternating, chunk_has_mismatch_fixed}

module _ (m : Mem) (p : ℕ) (f : ℕ → ℕ) where
  abbrev pub Agree : ℕ → Type 0
  Agree k = (j : ℕ) → j < k → m (p + j) ≡ f j

  pub Agree-zero : Agree 0
  Agree-zero j lt = absurd (omega arith)

  pub Agree-suc : (k : ℕ) → Agree k → m (p + k) ≡ f k → Agree (k + 1)
  Agree-suc k a e j lt =
      let cases : (j < k) ⊎ (j ≡ k) = ground arith in
      elim cases [ inl below ↦ a j below | inr here ↦ subst (λ i. m (p + i) ≡ f i) (sym here) e ]

  -- What an accumulator of differences says.
  abbrev pub Seen : ℕ → ℕ → Type 0
  Seen k acc = acc ≡ 0 → Agree k

  Seen-word :
      (k acc x : ℕ) → Seen k acc → x ≡ f k → Seen (k + 1) (bit_or acc (bit_xor (m (p + k)) x))
  Seen-word k acc x s e z =
      let both = zero_of_or-zero acc (bit_xor (m (p + k)) x) z in
      Agree-suc k (s both.0) (eq_of_xor-zero (m (p + k)) x both.1 ∙ e)

  Seen-at :
      (k j a acc x : ℕ)
      → a ≡ p + k
      → j ≡ k + 1
      → Seen k acc
      → x ≡ f k
      → Seen j (bit_or acc (bit_xor (m a) x))
  Seen-at k j a acc x ea ej s e =
      subst (λ i. Seen i (bit_or acc (bit_xor (m a) x))) (sym ej)
        (subst (λ b. Seen (k + 1) (bit_or acc (bit_xor (m b) x))) (sym ea) (Seen-word k acc x s e))

  pub scan_words-Agree :
      (n k acc : ℕ) (expected : ℕ → ℕ)
      → k ≤ n
      → ((j : ℕ) → j < n → expected j ≡ f j)
      → Seen k acc
      → Seen n (scan_words m p n k expected acc)
  unfolding scan_words
  scan_words-Agree n k acc expected h same seen =
      let done : stop_at 1 n k ≡ n = omega arith in
      subst (λ i. Seen i (scan_words m p n k expected acc)) done
        (loop_by-inv 1 n (λ j acc'. bit_or acc' (bit_xor (m (p + j)) (expected j))) Seen
          (λ j acc' _ lt s. Seen-word j acc' (expected j) s (same j (omega arith))) k acc
          (omega arith) h seen)

  module _ (n a b : ℕ) (same : (k : ℕ) → k < n → (if k % 2 == 0 then a else b) ≡ f k) where
    abbrev two : ℕ → ℕ → ℕ
    two k acc = bit_or (bit_or acc (bit_xor (m (p + k)) a)) (bit_xor (m (p + k + 1)) b)

    abbrev pairs : ℕ
    pairs = loop_by 2 n 0 two 0

    first : (k : ℕ) → k % 2 ≡ 0 → k < n → a ≡ f k
    first k e lt = ground arith ∙ same k lt

    second : (k : ℕ) → k % 2 ≡ 0 → k + 1 < n → b ≡ f (k + 1)
    second k e lt = ground arith ∙ same (k + 1) lt

    two-Seen : (k acc : ℕ) → k % 2 ≡ 0 → k + 2 ≤ n → Seen k acc → Seen (k + 2) (two k acc)
    two-Seen k acc e lt s =
        Seen-at (k + 1) (k + 2) (p + k + 1) (bit_or acc (bit_xor (m (p + k)) a)) b (omega arith)
          (omega arith) (Seen-word k acc a s (first k e (omega arith))) (second k e (omega arith))

    pairs-Seen : (k : ℕ) → stop_at 2 n 0 ≡ k → Seen k pairs
    pairs-Seen k e =
        subst (λ i. Seen i pairs) e
          (loop_by-inv 2 n two Seen two-Seen 0 0 refl (omega arith) (λ _. Agree-zero))

    pub scan_alternating-Agree : Seen n (scan_alternating m p n a b)
    unfolding scan_alternating
    scan_alternating-Agree =
        let parity = and-low_mask 1 n in
        elim (Bool-cases (bit_and n 1 != 0)) [
          | inl odd ↦
              let one : n % 2 ≡ 1 = ground (arith, parity) in
              rw odd (
                Seen-at (n - 1) n (p + (n - 1)) pairs a refl (omega arith)
                  (pairs-Seen (n - 1) (omega arith)) (first (n - 1) (omega arith) (omega arith)))
          | inr even ↦
              let none : n % 2 ≡ 0 = ground (arith, parity) in rw even (pairs-Seen n (omega arith))
        ]

  pub chunk_has_mismatch_fixed-Agree :
      (n target : ℕ)
      → ((k : ℕ) → k < n → target ≡ f k)
      → chunk_has_mismatch_fixed m p n target ≡ false
      → Agree n
  unfolding chunk_has_mismatch_fixed scan_words
  chunk_has_mismatch_fixed-Agree n target same e =
      scan_words-Agree n 0 0 (λ _. target) (omega arith) same (λ _. Agree-zero) zero_scan
    where
      zero_scan : scan_words m p n 0 (λ _. target) 0 ≡ 0
      zero_scan = ground arith
