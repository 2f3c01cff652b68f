-- ===== src/Base/Mask.antt =====
-- `&` with a mask of low bits is a remainder, and with a mask of high bits rounds down.
use Prim.Native.Nat.{ℕ, zero, suc, ◌+◌, ◌-◌, ◌*◌, ◌/◌, ◌%◌, ◌^◌, ◌≤◌, ◌<◌, bit_and}
use mathlib.Core.Path.{◌≡◌, refl, ap, ◌∙◌}
use native.Mathlib.Nat.{le_refl, pow-suc, one-le-pow, mul-one}
use native.Mathlib.Omega.{arith}
use nx_mem_test.Base.Bits.{bit_and_step}

and-zero_fuel : (n a : ℕ) → a ≤ n → bit_and a 0 ≡ 0
and-zero_fuel zero a p = let e : a ≡ 0 = omega arith in rw e refl
and-zero_fuel (suc n) a p = omega (arith, bit_and_step a 0, and-zero_fuel n (a / 2) (omega arith))

pub and-zero : (a : ℕ) → bit_and a 0 ≡ 0
and-zero a = and-zero_fuel a a (le_refl a)

-- A number split into its low `k` bits and the rest.
product-suc : (q k : ℕ) → q * 2 ^ suc k ≡ 2 * (q * 2 ^ k)
product-suc q k = omega (arith, ap (λ (t : ℕ). q * t) (pow-suc 2 k))

and-low_field : (k q r : ℕ) → r < 2 ^ k → bit_and (q * 2 ^ k + r) (2 ^ k - 1) ≡ r
and-low_field zero q r p = and-zero (q * 1 + r) ∙ omega arith
and-low_field (suc k) q r p = ground (
  arith,
  bit_and_step (q * 2 ^ suc k + r) (2 ^ suc k - 1),
  product-suc q k,
  pow-suc 2 k,
  and-low_field k q (r / 2) (omega (arith, pow-suc 2 k)),
)

-- `a & (2 ^ k - 1)`
pub and-low_mask : (k a : ℕ) → bit_and a (2 ^ k - 1) ≡ a % 2 ^ k
and-low_mask k a = ground (arith, one-le-pow k 2, and-low_field k (a / 2 ^ k) (a % 2 ^ k))

-- `a & (b << k)`, for `a` split at bit `k`
and-high_field :
    (k q r b : ℕ) → r < 2 ^ k → bit_and (q * 2 ^ k + r) (b * 2 ^ k) ≡ bit_and q b * 2 ^ k
and-high_field zero q r b p = let e : q * 1 + r ≡ q = omega arith in rw (e, mul-one, mul-one)
and-high_field (suc k) q r b p = ground (
  arith,
  bit_and_step (q * 2 ^ suc k + r) (b * 2 ^ suc k),
  product-suc q k,
  product-suc b k,
  product-suc (bit_and q b) k,
  pow-suc 2 k,
  and-high_field k q (r / 2) b (omega (arith, pow-suc 2 k)),
)

-- `v & ~(2 ^ k - 1)` over 64 bits, at the page size
pub and-page_mask : (v : ℕ) → v < 2 ^ 64 → bit_and v (2 ^ 64 - 1 - 4095) ≡ v / 4096 * 4096
and-page_mask v h =
    ground (arith, and-high_field 12 (v / 4096) (v % 4096) (2 ^ 52 - 1), and-low_mask 52 (v / 4096))
