-- ===== src/Base/Xor.antt =====
-- Exclusive or as a group operation, and what an accumulated difference of zero says.
use Prim.Native.Nat.{ℕ, zero, suc, ◌+◌, ◌*◌, ◌/◌, ◌%◌, ◌^◌, ◌≤◌, ◌<◌, bit_or, bit_xor}
use mathlib.Core.Path.{◌≡◌, refl, sym, ap, ap₂, ◌∙◌}
use native.Mathlib.Nat.{le_refl, pow-suc, div-one, div-div-eq-div-mul}
use native.Mathlib.Omega.{arith}
use nx_mem_test.Base.Bits.{bit_or_step, bit_xor_step, bit_xor-half, bit_xor-parity}

xor_comm_fuel : (n a b : ℕ) → a ≤ n → b ≤ n → bit_xor a b ≡ bit_xor b a
xor_comm_fuel zero a b p q =
    let ea : a ≡ 0 = omega arith in let eb : b ≡ 0 = omega arith in rw (ea, eb) refl
xor_comm_fuel (suc n) a b p q = omega (
  arith,
  bit_xor_step a b,
  bit_xor_step b a,
  xor_comm_fuel n (a / 2) (b / 2) (omega arith) (omega arith),
)

pub xor_comm : (a b : ℕ) → bit_xor a b ≡ bit_xor b a
xor_comm a b = xor_comm_fuel (a + b) a b (omega arith) (omega arith)

xor_assoc_fuel :
    (n a b c : ℕ) → a ≤ n → b ≤ n → c ≤ n → bit_xor (bit_xor a b) c ≡ bit_xor a (bit_xor b c)
xor_assoc_fuel zero a b c p q r =
    let ea : a ≡ 0 = omega arith in
    let eb : b ≡ 0 = omega arith in let ec : c ≡ 0 = omega arith in rw (ea, eb, ec) refl
xor_assoc_fuel (suc n) a b c p q r = omega (
  arith,
  bit_xor_step (bit_xor a b) c,
  bit_xor_step a (bit_xor b c),
  bit_xor-parity a b,
  bit_xor-parity b c,
  ap (λ t. bit_xor t (c / 2)) (bit_xor-half a b),
  ap (bit_xor (a / 2)) (bit_xor-half b c),
  xor_assoc_fuel n (a / 2) (b / 2) (c / 2) (omega arith) (omega arith) (omega arith),
)

pub xor_assoc : (a b c : ℕ) → bit_xor (bit_xor a b) c ≡ bit_xor a (bit_xor b c)
xor_assoc a b c = xor_assoc_fuel (a + b + c) a b c (omega arith) (omega arith) (omega arith)

pub zero-xor : (a : ℕ) → bit_xor 0 a ≡ a
zero-xor zero = refl
zero-xor (suc a) = omega (arith, bit_xor_step 0 (suc a), zero-xor_half)
  where
    half_fuel : (n k : ℕ) → k ≤ n → bit_xor 0 k ≡ k
    half_fuel zero k p = let e : k ≡ 0 = omega arith in rw e refl
    half_fuel (suc n) k p = omega (arith, bit_xor_step 0 k, half_fuel n (k / 2) (omega arith))

    zero-xor_half : bit_xor 0 (suc a / 2) ≡ suc a / 2
    zero-xor_half = half_fuel (suc a) (suc a / 2) (omega arith)

pub xor-zero : (a : ℕ) → bit_xor a 0 ≡ a
xor-zero a = xor_comm a 0 ∙ zero-xor a

xor_self_fuel : (n a : ℕ) → a ≤ n → bit_xor a a ≡ 0
xor_self_fuel zero a p = let e : a ≡ 0 = omega arith in rw e refl
xor_self_fuel (suc n) a p = omega (arith, bit_xor_step a a, xor_self_fuel n (a / 2) (omega arith))

pub xor_self : (a : ℕ) → bit_xor a a ≡ 0
xor_self a = xor_self_fuel a a (le_refl a)

-- Two words without a difference are equal.
pub eq_of_xor-zero : (a b : ℕ) → bit_xor a b ≡ 0 → a ≡ b
eq_of_xor-zero a b e =
    sym (xor-zero a)
    ∙ ap (bit_xor a) (sym e)
    ∙ sym (xor_assoc a a b)
    ∙ ap (λ t. bit_xor t b) (xor_self a)
    ∙ zero-xor b

pub xor-lt_pow : (k a b : ℕ) → a < 2 ^ k → b < 2 ^ k → bit_xor a b < 2 ^ k
xor-lt_pow zero a b p q =
    let ea : a ≡ 0 = omega arith in let eb : b ≡ 0 = omega arith in rw (ea, eb) (omega arith)
xor-lt_pow (suc k) a b p q = omega (
  arith,
  pow-suc 2 k,
  bit_xor_step a b,
  xor-lt_pow k (a / 2) (b / 2) (omega (arith, pow-suc 2 k)) (omega (arith, pow-suc 2 k)),
)

-- An accumulated `|` is zero exactly when both of its parts are.
or-zero_fuel : (n a b : ℕ) → a ≤ n → b ≤ n → bit_or a b ≡ 0 → (a ≡ 0) × (b ≡ 0)
or-zero_fuel zero a b p q e = omega arith
or-zero_fuel (suc n) a b p q e =
    let halves =
      or-zero_fuel n (a / 2) (b / 2) (omega arith) (omega arith) (omega (arith, bit_or_step a b)) in
    omega (arith, bit_or_step a b, halves)

pub zero_of_or-zero : (a b : ℕ) → bit_or a b ≡ 0 → (a ≡ 0) × (b ≡ 0)
zero_of_or-zero a b e = or-zero_fuel (a + b) a b (omega arith) (omega arith) e

shr-suc : (k x : ℕ) → x / 2 ^ suc k ≡ x / 2 ^ k / 2
shr-suc k x = ap (λ p. x / p) (pow-suc 2 k) ∙ sym (div-div-eq-div-mul x (2 ^ k) 2)

-- A shift right acts on each operand.
pub xor-shr : (k a b : ℕ) → bit_xor a b / 2 ^ k ≡ bit_xor (a / 2 ^ k) (b / 2 ^ k)
xor-shr zero a b = div-one (bit_xor a b) ∙ sym (ap₂ bit_xor (div-one a) (div-one b))
xor-shr (suc k) a b =
    shr-suc k (bit_xor a b)
    ∙ ap (λ t. t / 2) (xor-shr k a b)
    ∙ bit_xor-half (a / 2 ^ k) (b / 2 ^ k)
    ∙ sym (ap₂ bit_xor (shr-suc k a) (shr-suc k b))

-- Words split at bit `k` are combined part by part.
pub xor_fields :
    (k q r q' r' : ℕ)
    → r < 2 ^ k
    → r' < 2 ^ k
    → bit_xor (q * 2 ^ k + r) (q' * 2 ^ k + r') ≡ bit_xor q q' * 2 ^ k + bit_xor r r'
xor_fields zero q r q' r' h h' =
    let er : r ≡ 0 = omega arith in
    let er' : r' ≡ 0 = omega arith in
    let eq : q * 1 + 0 ≡ q = omega arith in
    let eq' : q' * 1 + 0 ≡ q' = omega arith in rw (er, er', eq, eq') (omega arith)
xor_fields (suc k) q r q' r' h h' = ground (
  arith,
  bit_xor_step (q * 2 ^ suc k + r) (q' * 2 ^ suc k + r'),
  bit_xor_step r r',
  ap (λ (t : ℕ). q * t) (pow-suc 2 k),
  ap (λ (t : ℕ). q' * t) (pow-suc 2 k),
  ap (λ (t : ℕ). bit_xor q q' * t) (pow-suc 2 k),
  pow-suc 2 k,
  xor_fields k q (r / 2) q' (r' / 2) (omega (arith, pow-suc 2 k)) (omega (arith, pow-suc 2 k)),
)

-- The lowest byte.
pub xor-byte : (a b : ℕ) → bit_xor a b % 256 ≡ bit_xor (a % 256) (b % 256)
xor-byte a b =
    let ea : a / 256 * 256 + a % 256 ≡ a = omega arith in
    let eb : b / 256 * 256 + b % 256 ≡ b = omega arith in
    let split = xor_fields 8 (a / 256) (a % 256) (b / 256) (b % 256) (omega arith) (omega arith) in
    let low = xor-lt_pow 8 (a % 256) (b % 256) (omega arith) (omega arith) in
    omega (arith, ap₂ bit_xor ea eb, split, low)
