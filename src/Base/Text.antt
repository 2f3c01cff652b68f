-- ===== src/Base/Text.antt =====
-- Texts as the lists of their characters, and what the format functions of C make of them.
use Prim.Native.Nat.{ℕ, zero, suc, ◌-◌, ◌≤◌}
use Prim.Native.Char.{code}
use Prim.Native.String.{String}
use mathlib.Core.Path.{◌≡◌, refl, ap}
use mathlib.Core.List.{List, [], ◌∷◌, ◌++◌}
use native.Mathlib.Omega.{arith}
use nx_mem_test.Base.Lists.{length}

-- The characters of a literal.
abbrev pub codes : String → List ℕ
codes String.[] = []
codes (String.◌∷◌ c s) = code c ∷ codes s

abbrev pub replicate : ℕ → ℕ → List ℕ
replicate zero c = []
replicate (suc n) c = c ∷ replicate n c

pub length-replicate : (n c : ℕ) → length (replicate n c) ≡ n
length-replicate zero c = refl
length-replicate (suc n) c = omega (arith, length-replicate n c)

-- What `snprintf` leaves in a buffer of `suc n` characters, without the terminator.
abbrev pub cut : ℕ → List ℕ → List ℕ
cut zero s = []
cut (suc n) [] = []
cut (suc n) (c ∷ s) = c ∷ cut n s

pub length-cut : (n : ℕ) (s : List ℕ) → length (cut n s) ≤ n
length-cut zero s = omega arith
length-cut (suc n) [] = omega arith
length-cut (suc n) (c ∷ s) = omega (arith, length-cut n s)

-- A text that fits is not cut.
pub cut_fits : (n : ℕ) (s : List ℕ) → length s ≤ n → cut n s ≡ s
cut_fits zero [] h = refl
cut_fits zero (c ∷ s) h = absurd (omega arith)
cut_fits (suc n) [] h = refl
cut_fits (suc n) (c ∷ s) h = ap (λ t. c ∷ t) (cut_fits n s (omega arith))

-- `%-<width>s`, where subtraction stops at 0 as the padding does.
abbrev pub pad_right : ℕ → List ℕ → List ℕ
pad_right width s = s ++ replicate (width - length s) b' '
