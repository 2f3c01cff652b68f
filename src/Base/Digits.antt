-- ===== src/Base/Digits.antt =====
-- Numbers as texts: what the conversions of `printf` print, and how they are read back.
use Prim.Native.Nat.{ℕ, zero, suc, ◌+◌, ◌-◌, ◌*◌, ◌/◌, ◌%◌, ◌^◌, ◌≤◌, ◌<◌}
use mathlib.Core.Path.{◌≡◌, refl, ap, ◌∙◌}
use mathlib.Core.Logic.{inl, inr}
use mathlib.Core.Bool.{false}
use mathlib.Core.List.{List, [], ◌∷◌, ◌++◌}
use native.Mathlib.Omega.{arith}
use native.Mathlib.Nat.{div-add-mod', mod-lt, mod-eq_of_lt, pow-suc, pow-zero, div-lt_iff_lt-mul}
use nx_mem_test.Base.Word.{ltb, leb, ◌==◌, ltb→lt, Bool-cases, if◌then◌else◌}
use nx_mem_test.Base.Lists.{length, length-append}
use nx_mem_test.Base.Text.{replicate, length-replicate}

abbrev pub digit_char : ℕ → ℕ
digit_char d = if ltb d 10 then b'0' + d else b'a' + (d - 10)

-- The digits of `n` to the base `b`, `fuel` of them at most.
unfoldable pub print_digits : ℕ → ℕ → ℕ → List ℕ
print_digits b zero n = []
print_digits b (suc fuel) n =
    let before = print_digits b fuel (n / b) in
    let last = digit_char (n % b) ∷ [] in if ltb n b then last else before ++ last

-- `%llu` and `%u`; `%llx`; and `%016llx`. A 64-bit number has at most 20 digits and 16 of them in
-- hexadecimal.
abbrev pub llu : ℕ → List ℕ
llu n = print_digits 10 20 n

abbrev pub llx : ℕ → List ℕ
llx n = print_digits 16 16 n

abbrev pub llx_016 : ℕ → List ℕ
llx_016 n = replicate (16 - length (llx n)) b'0' ++ llx n

-- `%0<width>llu`.
abbrev pub llu_0 : ℕ → ℕ → List ℕ
llu_0 width n = replicate (width - length (llu n)) b'0' ++ llu n

-- Reading, from left to right.
abbrev digit_of : ℕ → ℕ
digit_of c = if leb c b'9' then c - b'0' else c - b'a' + 10

abbrev pub read_digits : ℕ → ℕ → List ℕ → ℕ
read_digits b n [] = n
read_digits b n (c ∷ s) = read_digits b (n * b + digit_of c) s

read_digits-append :
    (b n : ℕ) (s t : List ℕ) → read_digits b n (s ++ t) ≡ read_digits b (read_digits b n s) t
read_digits-append b n [] t = refl
read_digits-append b n (c ∷ s) t = read_digits-append b (n * b + digit_of c) s t

digit_of-digit_char : (d : ℕ) → d < 16 → digit_of (digit_char d) ≡ d
digit_of-digit_char d h = ground arith

read_digits-print_digits :
    (b fuel n : ℕ) → 2 ≤ b → b ≤ 16 → n < b ^ fuel → read_digits b 0 (print_digits b fuel n) ≡ n
unfolding print_digits
read_digits-print_digits b zero n two sixteen h = omega (arith, pow-zero b)
read_digits-print_digits b (suc fuel) n two sixteen h =
    let pos : 0 < b = omega arith in
    let digit : digit_of (digit_char (n % b)) ≡ n % b =
      digit_of-digit_char (n % b) (omega (arith, mod-lt n pos)) in
    elim (Bool-cases (ltb n b)) [
      | inl small ↦
          rw small (ap (λ d. 0 * b + d) digit ∙ omega (arith, mod-eq_of_lt (ltb→lt n b small)))
      | inr large ↦ rw large (
          read_digits-append b 0 (print_digits b fuel (n / b)) (digit_char (n % b) ∷ [])
          ∙ ap (λ k. k * b + digit_of (digit_char (n % b)))
              (read_digits-print_digits b fuel (n / b) two sixteen
                ((div-lt_iff_lt-mul pos).1 (omega (arith, pow-suc b fuel))))
          ∙ ap (λ d. n / b * b + d) digit
          ∙ div-add-mod' n b)
    ]

pub length-print_digits : (b fuel n : ℕ) → length (print_digits b fuel n) ≤ fuel
unfolding print_digits
length-print_digits b zero n = omega arith
length-print_digits b (suc fuel) n = elim (Bool-cases (ltb n b)) [
  | inl small ↦ rw small (omega arith)
  | inr large ↦ rw large (
      omega (
        arith,
        length-append (print_digits b fuel (n / b)) (digit_char (n % b) ∷ []),
        length-print_digits b fuel (n / b),
      ))
]

-- None of the characters of a text is a line feed.
abbrev pub IsLine : List ℕ → Type 0
IsLine [] = Unit {0}
IsLine (c ∷ s) = ((c == 10) ≡ false) × IsLine s

pub append-IsLine : (s t : List ℕ) → IsLine s → IsLine t → IsLine (s ++ t)
append-IsLine [] t h k = k
append-IsLine (c ∷ s) t h k = (h.0, append-IsLine s t h.1 k)

pub print_digits-IsLine : (b fuel n : ℕ) → IsLine (print_digits b fuel n)
unfolding print_digits
print_digits-IsLine b zero n = tt
print_digits-IsLine b (suc fuel) n = elim (Bool-cases (ltb n b)) [
  | inl small ↦ rw small (ground arith, tt)
  | inr large ↦ rw large (
      append-IsLine (print_digits b fuel (n / b)) (digit_char (n % b) ∷ [])
        (print_digits-IsLine b fuel (n / b)) (ground arith, tt))
]

replicate_zeros-IsLine : (n : ℕ) → IsLine (replicate n b'0')
replicate_zeros-IsLine zero = tt
replicate_zeros-IsLine (suc n) = (refl, replicate_zeros-IsLine n)

read_zeros : (b n : ℕ) (s : List ℕ) → read_digits b 0 (replicate n b'0' ++ s) ≡ read_digits b 0 s
read_zeros b zero s = refl
read_zeros b (suc n) s =
    ap (λ k. read_digits b k (replicate n b'0' ++ s)) {x = 0 * b + 0} {y = 0} (omega arith)
    ∙ read_zeros b n s

-- What each conversion prints is one line, is as long as said, and is read back.
pub llu_lem : (n : ℕ) → n < 2 ^ 64 → (read_digits 10 0 (llu n) ≡ n)
llu_lem n h = read_digits-print_digits 10 20 n (omega arith) (omega arith) (omega arith)

pub llx_lem : (n : ℕ) → n < 2 ^ 64 → read_digits 16 0 (llx n) ≡ n
llx_lem n h = read_digits-print_digits 16 16 n (omega arith) (omega arith) (omega arith)

pub llx_016_lem : (n : ℕ) → n < 2 ^ 64 → read_digits 16 0 (llx_016 n) ≡ n
llx_016_lem n h = read_zeros 16 (16 - length (llx n)) (llx n) ∙ llx_lem n h

pub llx_016-IsLine : (n : ℕ) → IsLine (llx_016 n)
llx_016-IsLine n =
    append-IsLine (replicate (16 - length (llx n)) b'0') (llx n)
      (replicate_zeros-IsLine (16 - length (llx n))) (print_digits-IsLine 16 16 n)

pub length-llu : (n : ℕ) → length (llu n) ≤ 20
length-llu n = length-print_digits 10 20 n

pub length-llx : (n : ℕ) → length (llx n) ≤ 20
length-llx n = omega (arith, length-print_digits 16 16 n)

pub length-llx_016 : (n : ℕ) → length (llx_016 n) ≤ 20
length-llx_016 n = omega (
  arith,
  length-append (replicate (16 - length (llx n)) b'0') (llx n),
  length-replicate (16 - length (llx n)) b'0',
  length-print_digits 16 16 n,
)

-- A number below a power of the base.
pub length-print_digits_bound :
    (b fuel k n : ℕ) → 2 ≤ b → n < b ^ suc k → length (print_digits b fuel n) ≤ suc k
unfolding print_digits
length-print_digits_bound b zero k n two h = omega arith
length-print_digits_bound b (suc fuel) k n two h =
    let pos : 0 < b = omega arith in
    elim (Bool-cases (ltb n b)) [
      | inl small ↦ rw small (omega arith)
      | inr large ↦ rw large (
          let before = print_digits b fuel (n / b) in
          let sum = length-append before (digit_char (n % b) ∷ []) in
          elim k as (λ k. n < b ^ suc k → length (before ++ (digit_char (n % b) ∷ [])) ≤ suc k) [
            | zero ↦ λ lt. absurd (ground (arith, pow-suc b 0, ap (λ t. t * b) (pow-zero b), large))
            | suc k' ↦ λ lt. omega (
              arith,
              sum,
              length-print_digits_bound b fuel k' (n / b) two
                  ((div-lt_iff_lt-mul pos).1 (omega (arith, pow-suc b (suc k')))),
            )
          ]
            h)
    ]
