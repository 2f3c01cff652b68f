-- ===== src/Runner/Memory.antt =====
-- Memory as 64-bit words by word address, and the two-lane vectors of the NEON code.
use nx_mem_test.Base.{
  ℕ, ◌+◌, ◌-◌, ◌≤◌, ◌<◌, ◌≡◌, ◌⊎◌, refl, ap, ◌∙◌, ◌&&◌, arith, loop_by, loop_by-at,
}
use nx_mem_test.Base.{bit_or, bit_xor, bit_and, add64, shl64, ltb, leb, ◌==◌, if◌then◌else◌}
use mathlib.Core.Path.{fun_ext}
use nx_mem_test.Patterns.{bswap64}

abbrev pub Mem : Type 0
Mem = ℕ → ℕ

unfoldable pub store : Mem → ℕ → ℕ → Mem
store m a v b = if b == a then v else m b

-- `uint64x2_t`, and `int64x2_t` as the same bits
pub record U64x2 : Type 0 where
  pub lane0 : ℕ
  pub lane1 : ℕ

abbrev pub vdupq : ℕ → U64x2
vdupq x = record { lane0 = x; lane1 = x }

-- `vsetq_lane_u64(x, v, 1)`
abbrev pub vset_lane1 : ℕ → U64x2 → U64x2
vset_lane1 x v = record v { lane1 = x }

abbrev pub lanewise : (ℕ → ℕ → ℕ) → U64x2 → U64x2 → U64x2
lanewise f u v = record { lane0 = f u.lane0 v.lane0; lane1 = f u.lane1 v.lane1 }

abbrev pub veorq : U64x2 → U64x2 → U64x2
veorq = lanewise bit_xor

abbrev pub vorrq : U64x2 → U64x2 → U64x2
vorrq = lanewise bit_or

abbrev pub vandq : U64x2 → U64x2 → U64x2
vandq = lanewise bit_and

abbrev pub vaddq : U64x2 → U64x2 → U64x2
vaddq = lanewise add64

-- Shift counts from 0 to 63 only.
abbrev pub vshlq : U64x2 → U64x2 → U64x2
vshlq = lanewise shl64

-- `vrev64q_u8` between reinterpretations
abbrev pub vrev64q : U64x2 → U64x2
vrev64q v = record { lane0 = bswap64 v.lane0; lane1 = bswap64 v.lane1 }

abbrev pub vld1q : Mem → ℕ → U64x2
vld1q m a = record { lane0 = m a; lane1 = m (a + 1) }

unfoldable pub vst1q : Mem → ℕ → U64x2 → Mem
unfolding store
vst1q m a v = store (store m a v.lane0) (a + 1) v.lane1

-- The memory `m` with the words from `p` on replaced by `f 0`, …, `f (n - 1)`.
unfoldable pub fill : ℕ → ℕ → (ℕ → ℕ) → Mem → Mem
fill p n f m a = if leb p a && ltb a (p + n) then f (a - p) else m a

pub fill-zero : (p : ℕ) (f : ℕ → ℕ) (m : Mem) → fill p 0 f m ≡ m
unfolding fill
fill-zero p f m = fun_ext (λ a. ground arith)

-- One more word behind those already replaced. The address and the new count are given by
-- equations, since the code writes them in several ways.
pub store-fill :
    (p k : ℕ) (f : ℕ → ℕ) (m : Mem) {a k' v : ℕ}
    → a ≡ p + k
    → k' ≡ k + 1
    → v ≡ f k
    → store (fill p k f m) a v ≡ fill p k' f m
unfolding store fill
store-fill p k f m {a} {k'} {v} ea ek ev = fun_ext (λ b. at b)
  where
    at :
        (b : ℕ)
        → (if b == a then v else if leb p b && ltb b (p + k) then f (b - p) else m b)
          ≡ (if leb p b && ltb b (p + k') then f (b - p) else m b)
    at b = ground arith

pub vst1q-fill :
    (p k : ℕ) (f : ℕ → ℕ) (m : Mem) {a k' : ℕ} {v : U64x2}
    → a ≡ p + k
    → k' ≡ k + 2
    → v.lane0 ≡ f k
    → v.lane1 ≡ f (k + 1)
    → vst1q (fill p k f m) a v ≡ fill p k' f m
unfolding vst1q
vst1q-fill p k f m {a} {k'} {v} ea ek e0 e1 =
    ap (λ t. store t (a + 1) v.lane1) (store-fill p k f m {k' = k + 1} ea refl e0)
    ∙ store-fill p (k + 1) f m (omega arith) (omega arith) e1

-- Values beyond the replaced words do not matter.
pub fill-ext :
    (p n : ℕ) (f g : ℕ → ℕ) (m : Mem) → ((k : ℕ) → k < n → f k ≡ g k) → fill p n f m ≡ fill p n g m
unfolding fill
fill-ext p n f g m e = fun_ext (λ a. ground (arith, e (a - p)))

-- A scalar loop that stores word after word, from `k` on.
pub store_loop :
    (p n k : ℕ) (s f : ℕ → ℕ) (m : Mem)
    → k ≤ n
    → ((j : ℕ) → j < n → s j ≡ f j)
    → loop_by 1 n k (λ j m'. store m' (p + j) (s j)) (fill p k f m) ≡ fill p n f m
store_loop p n k s f m h e =
    loop_by-at 1 n (λ j m'. store m' (p + j) (s j)) (λ j. fill p j f m)
      (λ j _ lt. store-fill p j f m refl refl (e j (omega arith))) k (omega arith) h
    ∙ ap (λ j. fill p j f m) (omega arith)

pub fill-inside :
    (p n : ℕ) (f : ℕ → ℕ) (m : Mem) (a : ℕ) → p ≤ a → a < p + n → fill p n f m a ≡ f (a - p)
unfolding fill
fill-inside p n f m a lo hi = ground arith

pub fill-outside :
    (p n : ℕ) (f : ℕ → ℕ) (m : Mem) (a : ℕ) → (a < p) ⊎ (p + n ≤ a) → fill p n f m a ≡ m a
unfolding fill
fill-outside p n f m a out = ground arith
