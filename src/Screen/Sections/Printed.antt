-- ===== src/Screen/Sections/Printed.antt =====
-- What the formats print: no escape characters, and a bounded number of characters.
use nx_mem_test.Base.{
  ℕ, zero, suc, ◌+◌, ◌-◌, ◌/◌, ◌%◌, ◌^◌, ◌≤◌, ◌<◌, ◌≡◌, refl, inl, inr, true, Bool-cases, List, [],
  ◌∷◌, ◌++◌, length, length-append, arith, ltb, max,
}
use nx_mem_test.Base.Text.{replicate, length-replicate, cut}
use nx_mem_test.Base.Digits.{
  llu, llu_0, llx, llx_016, print_digits, digit_char, length-llu, length-llx_016,
  length-print_digits_bound,
}
use nx_mem_test.Screen.Width.{IsPlain}
use nx_mem_test.Screen.Rows.Spans.{is_plain, is_plain-IsPlain, replicate-IsPlain}

pub record Printed (n : ℕ) (s : List ℕ) : Type 0 where
  pub plain : IsPlain s
  pub short : length s ≤ n

append-IsPlain : (s t : List ℕ) → IsPlain s → IsPlain t → IsPlain (s ++ t)
append-IsPlain [] t h k = k
append-IsPlain (c ∷ s) t h k = (h.0, append-IsPlain s t h.1 k)

infixl 30 ◌⊕◌
pub ◌⊕◌ : {a b : ℕ} {s t : List ℕ} → Printed a s → Printed b t → Printed (a + b) (s ++ t)
◌⊕◌ {a} {b} {s} {t} hs ht = record {
  plain = append-IsPlain s t hs.plain ht.plain;
  short = omega (arith, length-append s t, hs.short, ht.short);
}

pub literal-Printed : (s : List ℕ) → is_plain s ≡ true → Printed (length s) s
literal-Printed s h = record { plain = is_plain-IsPlain s h; short = omega arith }

pub Printed-le : {a : ℕ} (b : ℕ) {s : List ℕ} → Printed a s → a ≤ b → Printed b s
Printed-le b h le = record { plain = h.plain; short = omega (arith, h.short) }

cut-IsPlain : (n : ℕ) (s : List ℕ) → IsPlain s → IsPlain (cut n s)
cut-IsPlain zero s h = tt
cut-IsPlain (suc n) [] h = tt
cut-IsPlain (suc n) (c ∷ s) h = (h.0, cut-IsPlain n s h.1)

length-cut_le : (n : ℕ) (s : List ℕ) → length (cut n s) ≤ length s
length-cut_le zero s = omega arith
length-cut_le (suc n) [] = omega arith
length-cut_le (suc n) (c ∷ s) = omega (arith, length-cut_le n s)

pub cut-Printed : (size : ℕ) {n : ℕ} {s : List ℕ} → Printed n s → Printed n (cut size s)
cut-Printed size {n} {s} h = record {
  plain = cut-IsPlain size s h.plain;
  short = omega (arith, length-cut_le size s, h.short);
}

print_digits-IsPlain : (b fuel n : ℕ) → IsPlain (print_digits b fuel n)
unfolding print_digits
print_digits-IsPlain b zero n = tt
print_digits-IsPlain b (suc fuel) n = elim (Bool-cases (ltb n b)) [
  | inl small ↦ rw small (ground arith, tt)
  | inr large ↦ rw large (
      append-IsPlain (print_digits b fuel (n / b)) (digit_char (n % b) ∷ [])
        (print_digits-IsPlain b fuel (n / b)) (ground arith, tt))
]

pub llu-Printed : (n : ℕ) → Printed 20 (llu n)
llu-Printed n = record { plain = print_digits-IsPlain 10 20 n; short = length-llu n }

-- A number below a power of ten.
pub llu-Printed_below : (k n : ℕ) → n < 10 ^ suc k → Printed (suc k) (llu n)
llu-Printed_below k n h = record {
  plain = print_digits-IsPlain 10 20 n;
  short = length-print_digits_bound 10 20 k n (omega arith) h;
}

pub llu_0-Printed :
    (width n : ℕ) {m : ℕ} → Printed m (llu n) → Printed (max width m) (llu_0 width n)
llu_0-Printed width n digits = record {
  plain =
      append-IsPlain (replicate (width - length (llu n)) b'0') (llu n)
        (replicate-IsPlain (width - length (llu n)) b'0' refl) digits.plain;
  short = omega (
    arith,
    length-append (replicate (width - length (llu n)) b'0') (llu n),
    length-replicate (width - length (llu n)) b'0',
    digits.short,
  );
}

pub llx_016-Printed : (n : ℕ) → Printed 20 (llx_016 n)
llx_016-Printed n = record {
  plain =
      append-IsPlain (replicate (16 - length (llx n)) b'0') (llx n)
        (replicate-IsPlain (16 - length (llx n)) b'0' refl) (print_digits-IsPlain 16 16 n);
  short = length-llx_016 n;
}
