-- ===== src/Arena/Percent/Saturate.antt =====
-- `nxmt_percent_milli` is the rounded-down share, cut off at the largest 64-bit number.
use nx_mem_test.Base.{ℕ, ◌+◌, ◌*◌, ◌/◌, ◌%◌, ◌^◌, ◌<◌, ◌≡◌, ap, min, some, inl, inr}
use nx_mem_test.Base.{arith, Bool-cases, u64_max, mul64, ltb, ◌==◌, if◌then◌else◌}
use native.Mathlib.Nat.{div-eq_of_lt-le, div-add-mod', div-lt_iff_lt-mul, mod-lt}
use nx_mem_test.Arena.Percent.{scale, add_saturating, percent_milli}
use nx_mem_test.Arena.Percent.Loop.{scaled_remainder_term_lem}

-- The share of a number that is split into whole multiples of `den` and a rest.
share_split :
    (num den : ℕ) → 0 < den → num * scale / den ≡ num / den * scale + num % den * scale / den
share_split num den pos =
    div-eq_of_lt-le {k = num / den * scale + num % den * scale / den} den {m = num * scale}
      (omega (arith, whole, rest)) (omega (arith, whole, rest, mod-lt (num % den * scale) pos))
  where
    whole : (num / den * den + num % den) * scale ≡ num * scale
    whole = ap (λ (k : ℕ). k * scale) (div-add-mod' num den)

    rest : num % den * scale / den * den + num % den * scale % den ≡ num % den * scale
    rest = div-add-mod' (num % den * scale) den

add_saturating-min :
    (whole rest : ℕ)
    → whole * scale < 2 ^ 64
    → rest < 2 ^ 64
    → add_saturating (mul64 whole scale) rest ≡ min u64_max (whole * scale + rest)
unfolding add_saturating
add_saturating-min whole rest fits small = ground arith

-- For all 64-bit arguments the call returns: zero for a zero denominator, and otherwise
-- 100000 * numerator / denominator, rounded down, or UINT64_MAX where that is larger.
pub percent_milli_lem :
    (num den : ℕ)
    → num < 2 ^ 64
    → den < 2 ^ 64
    → percent_milli num den ≡ some (if den == 0 then 0 else min u64_max (num * scale / den))
unfolding percent_milli
percent_milli_lem num den hn hd = elim (Bool-cases (den == 0)) [
  | inl none_given ↦ rw none_given
  | inr given ↦
      let pos : 0 < den = ground arith in
      let lt = mod-lt num pos in
      let part =
        scaled_remainder_term_lem (num % den) den scale lt hd (omega arith) (omega arith) in
      let small : num % den * scale / den < scale = (div-lt_iff_lt-mul pos).1 (omega arith) in
      rw (given, part, share_split num den pos)
        (elim (Bool-cases (ltb (u64_max / scale) (num / den))) [
          | inl large ↦ rw large (ap some (ground arith))
          | inr fits ↦ rw fits (
              ap some (
                add_saturating-min (num / den) (num % den * scale / den) (ground arith)
                  (omega arith)))
        ])
]
