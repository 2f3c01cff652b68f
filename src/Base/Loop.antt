-- ===== src/Base/Loop.antt =====
-- `for (; k + w <= n; k += w) body`, and the rule for a loop whose state is known at each `k`.
use Prim.Native.Nat.{ℕ, zero, suc, ◌+◌, ◌-◌, ◌*◌, ◌/◌, ◌%◌, ◌≤◌}
use mathlib.Core.Path.{◌≡◌, refl, ap, ◌∙◌, subst}
use native.Mathlib.Nat.{div-mul-le_self, add-mod_right}
use native.Mathlib.Omega.{arith}

pub rounds {ℓ} : {S : Type ℓ} → ℕ → (ℕ → S → S) → ℕ → ℕ → S → S
rounds w body zero k s = s
rounds w body (suc r) k s = rounds w body r (k + w) (body k s)

-- The loop runs once for each whole step of `w` between `k` and `n`.
unfoldable pub loop_by {ℓ} : {S : Type ℓ} → ℕ → ℕ → ℕ → (ℕ → S → S) → S → S
unfolding rounds
loop_by w n k body s = rounds w body ((n - k) / w) k s

-- The `k` at which it stops.
abbrev pub stop_at : ℕ → ℕ → ℕ → ℕ
stop_at w n k = k + (n - k) / w * w

module _ {ℓ} {S : Type ℓ} (w n : ℕ) (body : ℕ → S → S) (at : ℕ → S) where
  rounds-at :
      ((k : ℕ) → k % w ≡ 0 → k + w ≤ n → body k (at k) ≡ at (k + w))
      → (r k : ℕ) → k % w ≡ 0
      → k + r * w ≤ n
      → rounds w body r k (at k) ≡ at (k + r * w)
  unfolding rounds
  rounds-at step zero k e h = ap at (omega arith)
  rounds-at step (suc r) k e h =
      ap (rounds w body r (k + w)) (step k e (omega arith))
      ∙ rounds-at step r (k + w) (add-mod_right k w ∙ e) (omega arith)
      ∙ ap at (omega arith)

  -- If one round takes the state at `k` to the state at `k + w`, the loop takes the state at its
  -- start to the state where it stops.
  pub loop_by-at :
      ((k : ℕ) → k % w ≡ 0 → k + w ≤ n → body k (at k) ≡ at (k + w))
      → (k : ℕ) → k % w ≡ 0
      → k ≤ n
      → loop_by w n k body (at k) ≡ at (stop_at w n k)
  unfolding loop_by
  loop_by-at step k e h =
      rounds-at step ((n - k) / w) k e (omega (arith, div-mul-le_self (n - k) w))

module _ {ℓ ℓ'} {S : Type ℓ} (w n : ℕ) (body : ℕ → S → S) (P : ℕ → S → Type ℓ') where
  rounds-inv :
      ((k : ℕ) (s : S) → k % w ≡ 0 → k + w ≤ n → P k s → P (k + w) (body k s))
      → (r k : ℕ) (s : S) → k % w ≡ 0
      → k + r * w ≤ n
      → P k s
      → P (k + r * w) (rounds w body r k s)
  unfolding rounds
  rounds-inv step zero k s e h p = subst (λ j. P j s) (omega arith) p
  rounds-inv step (suc r) k s e h p =
      subst (λ j. P j (rounds w body r (k + w) (body k s))) (omega arith)
        (rounds-inv step r (k + w) (body k s) (add-mod_right k w ∙ e) (omega arith)
          (step k s e (omega arith) p))

  -- What one round preserves, the loop does.
  pub loop_by-inv :
      ((k : ℕ) (s : S) → k % w ≡ 0 → k + w ≤ n → P k s → P (k + w) (body k s))
      → (k : ℕ) (s : S) → k % w ≡ 0
      → k ≤ n
      → P k s
      → P (stop_at w n k) (loop_by w n k body s)
  unfolding loop_by
  loop_by-inv step k s e h p =
      rounds-inv step ((n - k) / w) k s e (omega (arith, div-mul-le_self (n - k) w)) p

module _ {ℓ} {S : Type ℓ} (w n : ℕ) (body other : ℕ → S → S)
    (same : (k : ℕ) (s : S) → k + w ≤ n → body k s ≡ other k s) where
  rounds-ext : (r k : ℕ) (s : S) → k + r * w ≤ n → rounds w body r k s ≡ rounds w other r k s
  unfolding rounds
  rounds-ext zero k s h = refl
  rounds-ext (suc r) k s h =
      ap (rounds w body r (k + w)) (same k s (omega arith))
      ∙ rounds-ext r (k + w) (other k s) (omega arith)

  -- Two loops whose rounds do the same.
  pub loop_by-ext : (k : ℕ) (s : S) → k ≤ n → loop_by w n k body s ≡ loop_by w n k other s
  unfolding loop_by
  loop_by-ext k s h = rounds-ext ((n - k) / w) k s (omega (arith, div-mul-le_self (n - k) w))
