-- ===== src/Arena/Percent.antt =====
-- `nxmt_percent_milli`: a share in thousandths of a percent, without overflow.
pub mod Loop
pub mod Saturate
use nx_mem_test.Base.{ℕ, zero, suc, ◌-◌, ◌/◌, ◌%◌, Bool, not, ◌&&◌, Option, none, some}
use nx_mem_test.Base.{bit_and}
use nx_mem_test.Base.{u64_max, add64, mul64, shr64, ltb, leb, ◌==◌, if◌then◌else◌}

-- The local variables of `scaled_remainder_term` besides `scale`.
pub record Term : Type 0 where
  pub quotient : ℕ
  pub accumulated_remainder : ℕ
  pub term_quotient : ℕ
  pub term_remainder : ℕ

-- The addition of the current term; every subtraction is of a smaller number.
unfoldable pub add_remainder : ℕ → Term → Term
add_remainder denominator t =
    if t.term_remainder == 0
    then t
    else if leb (denominator - t.accumulated_remainder) t.term_remainder
    then (record t {
      quotient = add64 t.quotient 1;
      accumulated_remainder = t.term_remainder - (denominator - t.accumulated_remainder);
    })
    else (record t { accumulated_remainder = add64 t.accumulated_remainder t.term_remainder })

-- The doubling of the term at the end of a round.
unfoldable pub double_term : ℕ → Term → Term
double_term denominator t =
    if leb (denominator - t.term_remainder) t.term_remainder
    then (record t {
      term_quotient = add64 (mul64 t.term_quotient 2) 1;
      term_remainder = t.term_remainder - (denominator - t.term_remainder);
    })
    else (record t {
      term_quotient = mul64 t.term_quotient 2;
      term_remainder = add64 t.term_remainder t.term_remainder;
    })

-- The block under `(scale & 1u) != 0`.
unfoldable pub add_term : ℕ → ℕ → Term → Term
unfolding add_remainder
add_term denominator scale t =
    if bit_and scale 1 == 0
    then t
    else add_remainder denominator (record t { quotient = add64 t.quotient t.term_quotient })

-- The early return of that block.
unfoldable pub saturates : ℕ → Term → Bool
saturates scale t = not (bit_and scale 1 == 0) && add64 t.quotient t.term_quotient == u64_max

-- The `while` loop, on fuel; `none` is fuel run out.
unfoldable pub scaled_remainder_loop : ℕ → ℕ → ℕ → Term → Option ℕ
unfolding saturates
scaled_remainder_loop zero denominator scale t = none
scaled_remainder_loop (suc fuel) denominator scale t =
    let added = add_term denominator scale t in
    let half = shr64 scale 1 in
    let rest = scaled_remainder_loop fuel denominator half (double_term denominator added) in
    if scale == 0
    then some t.quotient
    else if saturates scale t
    then some u64_max
    else if half == 0
    then some added.quotient
    else rest

abbrev pub first_term : ℕ → Term
first_term remainder = record {
  quotient = 0;
  accumulated_remainder = 0;
  term_quotient = 0;
  term_remainder = remainder;
}

-- A 64-bit `scale` has at most 64 digits, so 65 rounds reach its end.
unfoldable pub scaled_remainder_term : ℕ → ℕ → ℕ → Option ℕ
unfolding scaled_remainder_loop add_term double_term
scaled_remainder_term remainder denominator scale =
    scaled_remainder_loop 65 denominator scale (first_term remainder)

abbrev pub scale : ℕ
scale = 100000

-- The last lines of `nxmt_percent_milli`, from the scaled parts.
unfoldable pub add_saturating : ℕ → ℕ → ℕ
add_saturating whole_scaled remainder_scaled =
    if ltb (u64_max - remainder_scaled) whole_scaled
    then u64_max
    else add64 whole_scaled remainder_scaled

-- `none` is fuel run out in the inner loop.
unfoldable pub percent_milli : ℕ → ℕ → Option ℕ
unfolding add_saturating
percent_milli numerator denominator =
    if denominator == 0
    then some 0
    else let whole = numerator / denominator in
      let remainder = numerator % denominator in
      if ltb (u64_max / scale) whole
      then some u64_max
      else elim (scaled_remainder_term remainder denominator scale) [
        | none ↦ none
        | some remainder_scaled ↦ some (add_saturating (mul64 whole scale) remainder_scaled)
      ]
