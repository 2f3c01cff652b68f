-- ===== src/Arena/Percent/Loop.antt =====
-- The binary multiplication in `scaled_remainder_term` divides exactly.
use nx_mem_test.Base.{ℕ, zero, suc, ◌+◌, ◌-◌, ◌*◌, ◌/◌, ◌%◌, ◌^◌, ◌≤◌, ◌<◌, ◌≡◌, refl, ap, sym}
use nx_mem_test.Base.{
  some, inl, inr, arith, false, bit_and, Bool-cases, ◌==◌, leb, if◌then◌else◌, add64, mul64,
}
use nx_mem_test.Base.Mask.{and-low_mask}
use native.Mathlib.Nat.{div-eq_of_lt-le, pow-suc}
use nx_mem_test.Arena.Percent.{Term, add_remainder, add_term, saturates, double_term}
use nx_mem_test.Arena.Percent.{scaled_remainder_loop}
use nx_mem_test.Arena.Percent.{scaled_remainder_term, first_term}

module _ (den : ℕ) where
  -- The number that a quotient and its remainder stand for.
  abbrev pub collected : Term → ℕ
  collected t = t.quotient * den + t.accumulated_remainder

  abbrev pub weight : Term → ℕ
  weight t = t.term_quotient * den + t.term_remainder

  pub record IsTerm (t : Term) : Type 0 where
    pub accumulated : t.accumulated_remainder < den
    pub remaining : t.term_remainder < den

  -- A quotient stays far below 2 ^ 64.
  pub quotient_small : (q n : ℕ) → q * den ≤ n → n < 2 ^ 63 * den → q < 2 ^ 63
  quotient_small q n p h = grind arith

module _ (den : ℕ) (t : Term) (v : IsTerm den t) (small : den < 2 ^ 64) where
  open v use {accumulated, remaining}

  add_remainder-quotients :
      t.quotient + t.term_quotient < 2 ^ 63
      → let t' = add_remainder den (record t { quotient = add64 t.quotient t.term_quotient }) in
        IsTerm den t'
        × (collected den t' ≡ collected den t + weight den t)
        × (weight den t' ≡ weight den t)
        × (t'.term_quotient ≡ t.term_quotient)
  unfolding add_remainder
  add_remainder-quotients h =
      let e : add64 t.quotient t.term_quotient ≡ t.quotient + t.term_quotient = omega arith in
      let e' : add64 (t.quotient + t.term_quotient) 1 ≡ t.quotient + t.term_quotient + 1 =
        omega arith in
      elim (Bool-cases (t.term_remainder == 0)) [
        | inl z ↦ rw (z, e) (ground arith)
        | inr nz ↦ elim (Bool-cases (leb (den - t.accumulated_remainder) t.term_remainder)) [
          | inl up ↦ rw (nz, up, e, e') (ground arith)
          | inr stay ↦ rw (nz, stay, e) (ground arith)
        ]
      ]

  double_term-weight :
      t.term_quotient < 2 ^ 62
      → let t' = double_term den t in
        IsTerm den t' × (collected den t' ≡ collected den t) × (weight den t' ≡ 2 * weight den t)
  unfolding double_term
  double_term-weight h =
      let e : mul64 t.term_quotient 2 ≡ t.term_quotient * 2 = omega arith in
      let e' : add64 (t.term_quotient * 2) 1 ≡ t.term_quotient * 2 + 1 = omega arith in
      elim (Bool-cases (leb (den - t.term_remainder) t.term_remainder)) [
        | inl up ↦ rw (up, e, e') (ground arith)
        | inr stay ↦ rw (stay, e) (ground arith)
      ]

module _ (den n : ℕ) (small : den < 2 ^ 64) (bounded : n < 2 ^ 62 * den) where
  quotient_exact : (t : Term) → IsTerm den t → collected den t ≡ n → t.quotient ≡ n / den
  quotient_exact t v e =
      sym
        (div-eq_of_lt-le {k = t.quotient} den {m = n} (omega arith) (omega (arith, v.accumulated)))

  quotient_lt : (q : ℕ) → q * den ≤ n → q < 2 ^ 62
  quotient_lt q p = grind arith

  -- What one round adds, for an even and for an odd scale.
  add_term-collected :
      (s : ℕ) (t : Term)
      → IsTerm den t
      → 0 < s
      → collected den t + s * weight den t ≡ n
      → let t' = add_term den s t in
        (saturates s t ≡ false)
        × IsTerm den t'
        × (t'.term_quotient < 2 ^ 62)
        × (collected den t' + (s / 2) * (2 * weight den t') ≡ n)
  unfolding add_term saturates
  add_term-collected s t v pos e =
      let one_weight : weight den t ≤ s * weight den t = grind arith in
      let tq : t.term_quotient < 2 ^ 62 = quotient_lt t.term_quotient (omega arith) in
      let q : t.quotient < 2 ^ 62 = quotient_lt t.quotient (omega arith) in
      let added = add_remainder-quotients den t v small (omega arith) in
      let digits : s * weight den t ≡ (s / 2 * 2 + s % 2) * weight den t =
        ap (λ (k : ℕ). k * weight den t) (omega arith) in
      elim (Bool-cases (bit_and s 1 == 0)) [
        | inl even ↦
            let bit : s % 2 ≡ 0 = ground (arith, and-low_mask 1 s) in
            let none_left : s % 2 * weight den t ≡ 0 * weight den t =
              ap (λ (k : ℕ). k * weight den t) bit in
            rw even (refl, v, tq, omega arith)
        | inr odd ↦
            let bit : s % 2 ≡ 1 = ground (arith, and-low_mask 1 s) in
            let one_left : s % 2 * weight den t ≡ 1 * weight den t =
              ap (λ (k : ℕ). k * weight den t) bit in
            let kept = ap (λ (w : ℕ). s / 2 * (2 * w)) added.2 in
            rw odd (ground arith, added.0, omega (arith, added), omega (arith, added, kept))
      ]

  scaled_remainder_loop-round :
      (fuel s : ℕ) (t : Term)
      → 0 < s
      → saturates s t ≡ false
      → let added = add_term den s t in
        scaled_remainder_loop (suc fuel) den s t ≡ (
          if s / 2 == 0
          then some added.quotient
          else scaled_remainder_loop fuel den (s / 2) (double_term den added))
  unfolding scaled_remainder_loop
  scaled_remainder_loop-round fuel s t pos sat =
      let nonzero : (s == 0) ≡ false = ground arith in rw (nonzero, sat)

  -- With fuel for each binary digit of the scale, the loop returns the exact quotient.
  pub scaled_remainder_loop_lem :
      (fuel s : ℕ) (t : Term)
      → s < 2 ^ fuel
      → IsTerm den t
      → collected den t + s * weight den t ≡ n
      → scaled_remainder_loop (suc fuel) den s t ≡ some (n / den)
  scaled_remainder_loop_lem fuel zero t p v e =
      unfold scaled_remainder_loop in ap some (quotient_exact t v (omega arith))
  scaled_remainder_loop_lem zero (suc s) t p v e = absurd (omega arith)
  scaled_remainder_loop_lem (suc fuel) (suc s) t p v e =
      let added = add_term den (suc s) t in
      let (sat, valid, room, sum) = add_term-collected (suc s) t v (omega arith) e in
      let (valid', same, twice) = double_term-weight den added valid small room in
      let sum' = ap (λ (w : ℕ). suc s / 2 * w) twice in
      rw (scaled_remainder_loop-round (suc fuel) (suc s) t (omega arith) sat)
        (elim (Bool-cases (suc s / 2 == 0)) [
          | inl last ↦
              let gone : suc s / 2 * (2 * weight den added) ≡ 0 * (2 * weight den added) =
                ap (λ (k : ℕ). k * (2 * weight den added)) (ground arith) in
              rw last (ap some (quotient_exact added valid (omega arith)))
          | inr more ↦ rw more (
              scaled_remainder_loop_lem fuel (suc s / 2) (double_term den added)
                (omega (arith, pow-suc 2 fuel)) valid' (omega arith))
        ])

-- For a remainder below a 64-bit denominator and a scale below 2 ^ 62, the loop ends within its
-- fuel and returns the product of remainder and scale, divided exactly.
pub scaled_remainder_term_lem :
    (remainder den s : ℕ)
    → remainder < den
    → den < 2 ^ 64
    → 0 < s
    → s < 2 ^ 62
    → scaled_remainder_term remainder den s ≡ some (remainder * s / den)
unfolding scaled_remainder_term
scaled_remainder_term_lem remainder den s lt small pos bound =
    scaled_remainder_loop_lem den (remainder * s) small (grind arith) 64 s (first_term remainder)
      (omega arith) (record { accumulated = omega arith; remaining = lt }) (omega arith)
