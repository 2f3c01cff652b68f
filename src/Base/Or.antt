-- ===== src/Base/Or.antt =====
-- Inclusive or as a monoid.
use Prim.Native.Nat.{ℕ, zero, suc, ◌+◌, ◌*◌, ◌/◌, ◌%◌, ◌^◌, ◌≤◌, ◌<◌, max, bit_or}
use mathlib.Core.Path.{◌≡◌, refl, ap}
use native.Mathlib.Nat.{le_refl, pow-suc}
use native.Mathlib.Omega.{arith}
use nx_mem_test.Base.Bits.{bit_or_step}

or-half : (a b : ℕ) → bit_or a b / 2 ≡ bit_or (a / 2) (b / 2)
or-half a b = omega (arith, bit_or_step a b)

or-parity : (a b : ℕ) → bit_or a b % 2 ≡ max (a % 2) (b % 2)
or-parity a b = omega (arith, bit_or_step a b)

or_assoc_fuel :
    (n a b c : ℕ) → a ≤ n → b ≤ n → c ≤ n → bit_or (bit_or a b) c ≡ bit_or a (bit_or b c)
or_assoc_fuel zero a b c p q r =
    let ea : a ≡ 0 = omega arith in
    let eb : b ≡ 0 = omega arith in let ec : c ≡ 0 = omega arith in rw (ea, eb, ec) refl
or_assoc_fuel (suc n) a b c p q r = omega (
  arith,
  bit_or_step (bit_or a b) c,
  bit_or_step a (bit_or b c),
  or-parity a b,
  or-parity b c,
  ap (λ t. bit_or t (c / 2)) (or-half a b),
  ap (bit_or (a / 2)) (or-half b c),
  or_assoc_fuel n (a / 2) (b / 2) (c / 2) (omega arith) (omega arith) (omega arith),
)

pub or_assoc : (a b c : ℕ) → bit_or (bit_or a b) c ≡ bit_or a (bit_or b c)
or_assoc a b c = or_assoc_fuel (a + b + c) a b c (omega arith) (omega arith) (omega arith)

zero-or_fuel : (n a : ℕ) → a ≤ n → bit_or 0 a ≡ a
zero-or_fuel zero a p = let e : a ≡ 0 = omega arith in rw e refl
zero-or_fuel (suc n) a p = omega (arith, bit_or_step 0 a, zero-or_fuel n (a / 2) (omega arith))

pub zero-or : (a : ℕ) → bit_or 0 a ≡ a
zero-or a = zero-or_fuel a a (le_refl a)

or-zero_fuel : (n a : ℕ) → a ≤ n → bit_or a 0 ≡ a
or-zero_fuel zero a p = let e : a ≡ 0 = omega arith in rw e refl
or-zero_fuel (suc n) a p = omega (arith, bit_or_step a 0, or-zero_fuel n (a / 2) (omega arith))

pub or-zero : (a : ℕ) → bit_or a 0 ≡ a
or-zero a = or-zero_fuel a a (le_refl a)

-- `(q << k) | r` is a sum when `r` fits into `k` bits.
pub or-high_field : (k q r : ℕ) → r < 2 ^ k → bit_or (q * 2 ^ k) r ≡ q * 2 ^ k + r
or-high_field zero q r fits = ground (arith, or-zero (q * 1))
or-high_field (suc k) q r fits = ground (
  arith,
  bit_or_step (q * 2 ^ suc k) r,
  ap (λ (t : ℕ). q * t) (pow-suc 2 k),
  pow-suc 2 k,
  or-high_field k q (r / 2) (omega (arith, pow-suc 2 k)),
)
