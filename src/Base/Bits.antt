-- ===== src/Base/Bits.antt =====
-- The lowest digit of `&`, `|` and `^` at variables, split off from the others.
use Prim.Native.Nat.{ℕ, zero, suc, ◌+◌, ◌-◌, ◌*◌, ◌/◌, ◌%◌, ◌≤◌, ◌<◌, min, max, differ}
use Prim.Native.Nat.{bit_and, bit_or, bit_xor, digits, bitwise}
use Prim.Native.Nat.{bit_and-bitwise, bit_or-bitwise, bit_xor-bitwise}
use mathlib.Core.Path.{◌≡◌, refl, ap, ◌∙◌}
use native.Mathlib.Omega.{arith}

-- An operation on digits, with `rest` for what is left when the first word runs out.
module _ (rest : ℕ → ℕ) (op : ℕ → ℕ → ℕ) where
  one_round_more :
      (fuel x y : ℕ) → x ≤ fuel → digits rest op (suc fuel) x y ≡ digits rest op fuel x y
  one_round_more zero zero y h = refl
  one_round_more (suc fuel) zero y h = refl
  one_round_more zero (suc x) y h = absurd (omega arith)
  one_round_more (suc fuel) (suc x) y h =
      ap (λ t. t * 2 + op (suc x % 2) (y % 2))
        (one_round_more fuel (suc x / 2) (y / 2) (omega arith))

  spare_rounds : (spare x y : ℕ) → digits rest op (spare + x) x y ≡ digits rest op x x y
  spare_rounds zero x y = ap (λ n. digits rest op n x y) (omega arith)
  spare_rounds (suc spare) x y =
      ap (λ n. digits rest op n x y) {y = suc (spare + x)} (omega arith)
      ∙ one_round_more (spare + x) x y (omega arith)
      ∙ spare_rounds spare x y

  lowest_digit :
      (x y : ℕ)
      → bitwise rest op (suc x) y ≡ op (suc x % 2) (y % 2) + 2 * bitwise rest op (suc x / 2) (y / 2)
  lowest_digit x y =
      let half = suc x / 2 in
      let enough : digits rest op x half (y / 2) ≡ bitwise rest op half (y / 2) =
        ap (λ n. digits rest op n half (y / 2)) {y = x - half + half} (omega arith)
        ∙ spare_rounds (x - half) half (y / 2) in
      omega (arith, enough)

unequal_digits : (x y : ℕ) → x < 2 → y < 2 → (x + y) % 2 ≡ differ x y
unequal_digits zero y p q = omega arith
unequal_digits (suc zero) zero p q = refl
unequal_digits (suc zero) (suc zero) p q = refl
unequal_digits (suc zero) (suc (suc y)) p q = absurd (omega arith)
unequal_digits (suc (suc x)) y p q = absurd (omega arith)

pub bit_or_step : (x y : ℕ) → bit_or x y ≡ max (x % 2) (y % 2) + 2 * bit_or (x / 2) (y / 2)
bit_or_step zero y = simp bit_or-bitwise (omega arith)
bit_or_step (suc x) y = simp bit_or-bitwise (lowest_digit (λ k. k) max x y)

pub bit_and_step : (x y : ℕ) → bit_and x y ≡ min (x % 2) (y % 2) + 2 * bit_and (x / 2) (y / 2)
bit_and_step zero y = simp bit_and-bitwise (omega arith)
bit_and_step (suc x) y = simp bit_and-bitwise (lowest_digit (λ k. 0) min x y)

pub bit_xor_step : (x y : ℕ) → bit_xor x y ≡ (x % 2 + y % 2) % 2 + 2 * bit_xor (x / 2) (y / 2)
bit_xor_step zero y = simp bit_xor-bitwise (omega arith)
bit_xor_step (suc x) y =
    rw (unequal_digits (suc x % 2) (y % 2) (omega arith) (omega arith))
      (simp bit_xor-bitwise (lowest_digit (λ k. k) differ x y))

-- The other digits and the lowest digit of an exclusive or.
pub bit_xor-half : (x y : ℕ) → bit_xor x y / 2 ≡ bit_xor (x / 2) (y / 2)
bit_xor-half x y = omega (arith, bit_xor_step x y)

pub bit_xor-parity : (x y : ℕ) → bit_xor x y % 2 ≡ (x % 2 + y % 2) % 2
bit_xor-parity x y = omega (arith, bit_xor_step x y)
