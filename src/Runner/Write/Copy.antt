-- ===== src/Runner/Write/Copy.antt =====
-- Copying words out of the stamp, and the stamp itself.
use nx_mem_test.Base.{ℕ, ◌+◌, ◌≤◌, ◌<◌, ◌≡◌, refl, sym, ap, ◌∙◌}
use nx_mem_test.Base.{Bool, true, false, arith, loop_by, loop_by-at, stop_at}
use nx_mem_test.Runner.Memory.{Mem, vld1q, store, vst1q}
use nx_mem_test.Runner.Memory.{fill, store-fill, vst1q-fill}
use nx_mem_test.Runner.Write.{neon_copy_words}

-- Copying `words` words behind the `k` words that are filled already.
module _ (p k : ℕ) (f : ℕ → ℕ) (m src : Mem) (from words : ℕ)
    (same : (j : ℕ) → j < words → src (from + j) ≡ f (k + j)) where
  abbrev two : ℕ → ℕ → Mem → Mem
  two j i t = vst1q t (p + k + j + i) (vld1q src (from + j + i))

  same_at : (a b j : ℕ) → j < words → a ≡ from + j → b ≡ k + j → src a ≡ f b
  same_at a b j lt ea eb = ap src ea ∙ same j lt ∙ ap f (sym eb)

  two-fill :
      (j i k1 k2 : ℕ)
      → j + i + 2 ≤ words
      → k1 ≡ k + j + i
      → k2 ≡ k1 + 2
      → two j i (fill p k1 f m) ≡ fill p k2 f m
  two-fill j i k1 k2 h e1 e2 =
      vst1q-fill p k1 f m (omega arith) e2
        (same_at (from + j + i) k1 (j + i) (omega arith) (omega arith) (omega arith))
        (same_at (from + j + i + 1) (k1 + 1) (j + i + 1) (omega arith) (omega arith) (omega arith))

  sixteen :
      (j : ℕ)
      → j + 16 ≤ words
      → two j 14 (
          two j 12
            (two j 10 (two j 8 (two j 6 (two j 4 (two j 2 (two j 0 (fill p (k + j) f m))))))))
        ≡ fill p (k + (j + 16)) f m
  sixteen j h =
      ap (λ t. two j 14 (two j 12 (two j 10 (two j 8 (two j 6 (two j 4 (two j 2 t)))))))
        (two-fill j 0 (k + j) (k + j + 2) (omega arith) (omega arith) refl)
      ∙ ap (λ t. two j 14 (two j 12 (two j 10 (two j 8 (two j 6 (two j 4 t))))))
          (two-fill j 2 (k + j + 2) (k + j + 4) (omega arith) refl (omega arith))
      ∙ ap (λ t. two j 14 (two j 12 (two j 10 (two j 8 (two j 6 t)))))
          (two-fill j 4 (k + j + 4) (k + j + 6) (omega arith) refl (omega arith))
      ∙ ap (λ t. two j 14 (two j 12 (two j 10 (two j 8 t))))
          (two-fill j 6 (k + j + 6) (k + j + 8) (omega arith) refl (omega arith))
      ∙ ap (λ t. two j 14 (two j 12 (two j 10 t)))
          (two-fill j 8 (k + j + 8) (k + j + 10) (omega arith) refl (omega arith))
      ∙ ap (λ t. two j 14 (two j 12 t))
          (two-fill j 10 (k + j + 10) (k + j + 12) (omega arith) refl (omega arith))
      ∙ ap (two j 14) (two-fill j 12 (k + j + 12) (k + j + 14) (omega arith) refl (omega arith))
      ∙ two-fill j 14 (k + j + 14) (k + (j + 16)) (omega arith) refl (omega arith)

  abbrev copied : ℕ → Mem
  copied j = fill p (k + j) f m

  singles :
      (j : ℕ)
      → j ≤ words
      → loop_by 1 words j (λ i t. store t (p + k + i) (src (from + i))) (copied j) ≡ copied words
  singles j h =
      loop_by-at 1 words (λ i t. store t (p + k + i) (src (from + i))) copied
        (λ i _ lt. store-fill p (k + i) f m (omega arith) (omega arith) (same i (omega arith))) j
        (omega arith) h
      ∙ ap copied (omega arith)

  start_copied : fill p k f m ≡ copied 0
  start_copied = ap (λ i. fill p i f m) (omega arith)

  pub neon_copy_words-fill :
      (neon : Bool)
      → neon_copy_words neon (fill p k f m) (p + k) src from words ≡ fill p (k + words) f m
  unfolding neon_copy_words
  neon_copy_words-fill true =
      ap
        (λ t.
          loop_by 1 words (stop_at 16 words 0) (λ i t'. store t' (p + k + i) (src (from + i))) t)
        (ap (loop_by 16 words 0 _) start_copied
          ∙ loop_by-at 16 words _ copied (λ j _ lt. sixteen j lt) 0 refl (omega arith))
      ∙ singles (stop_at 16 words 0) (omega arith)
  neon_copy_words-fill false =
      ap (loop_by 1 words 0 (λ i t'. store t' (p + k + i) (src (from + i)))) start_copied
      ∙ singles 0 (omega arith)
