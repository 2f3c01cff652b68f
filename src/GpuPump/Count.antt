-- ===== src/GpuPump/Count.antt =====
-- What the counters of the pump hold.
use nx_mem_test.Base.{
  ℕ, suc, ◌+◌, ◌*◌, ◌^◌, ◌≡◌, refl, ap, ◌∙◌, ◌<◌, Bool, true, false, Option, none, some,
}
use nx_mem_test.Base.{Bool-cases, inl, inr, List, [], ◌∷◌, length, arith, mul64, u64, if◌then◌else◌}
use nx_mem_test.GpuPump.{batch, Counters, add_to, Cycle, count_cycle, pump_cycles}

-- The cycles that are run: up to the first one in which the debug callback is called.
abbrev pub cycles_run : List Cycle → List Cycle
cycles_run [] = []
cycles_run (cycle ∷ cycles) = if cycle.device_error then cycle ∷ [] else cycle ∷ cycles_run cycles

abbrev pub mismatched : List Cycle → ℕ
mismatched [] = 0
mismatched (cycle ∷ cycles) = (if cycle.mismatch then 1 else 0) + mismatched cycles

add_to-add_to :
    (c : Option ℕ) (a b n : ℕ)
    → u64 (a + b) ≡ u64 n
    → add_to (add_to c a) (u64 b) ≡ add_to c (u64 n)
add_to-add_to none a b n e = refl
add_to-add_to (some c) a b n e = ap some (omega (arith, e))

-- A 64-bit counter, where there is one.
abbrev pub IsU64 : Option ℕ → Type 0
IsU64 none = Unit {0}
IsU64 (some c) = c < 2 ^ 64

add_to-IsU64 : (c : Option ℕ) (n : ℕ) → IsU64 c → IsU64 (add_to c n)
add_to-IsU64 none n h = tt
add_to-IsU64 (some c) n h = omega arith

add_to-zero : (c : Option ℕ) → IsU64 c → c ≡ add_to c 0
add_to-zero none h = refl
add_to-zero (some c) h = ap some (omega arith)

abbrev AreU64 : Counters → Type 0
AreU64 counters = IsU64 counters.progress × IsU64 counters.verified × IsU64 counters.errors

-- The errors of a cycle and of those that follow.
errors-add :
    (mismatch : Bool) (c : Option ℕ) (n : ℕ)
    → IsU64 c
    → add_to (if mismatch then add_to c 1 else c) (u64 n)
      ≡ add_to c (u64 ((if mismatch then 1 else 0) + n))
errors-add true c n h = add_to-add_to c 1 n (1 + n) refl
errors-add false c n h = ap (λ k. add_to c (u64 k)) (omega arith)

errors-one :
    (mismatch : Bool) (c : Option ℕ)
    → IsU64 c
    → (if mismatch then add_to c 1 else c) ≡ add_to c (u64 ((if mismatch then 1 else 0) + 0))
errors-one true c h = refl
errors-one false c h = add_to-zero c h

errors-IsU64 :
    (mismatch : Bool) (c : Option ℕ) → IsU64 c → IsU64 (if mismatch then add_to c 1 else c)
errors-IsU64 true c h = add_to-IsU64 c 1 h
errors-IsU64 false c h = h

traffic :
    (buffer n : ℕ)
    → u64 (mul64 (mul64 buffer 2) batch + n * (2 * batch * buffer))
      ≡ u64 (suc n * (2 * batch * buffer))
traffic buffer n = grind arith

-- With 64-bit counters: the pump counts twice the buffer for each of the eight copies of a cycle,
-- one verified batch for each cycle, and one bad batch for each cycle that leaves a mismatch, all
-- modulo 2 ^ 64, in the cycles up to the first in which the library reports an error, this one
-- included.
pub pump_cycles_lem :
    (buffer : ℕ) (cycles : List Cycle) (counters : Counters)
    → IsU64 counters.progress
    → IsU64 counters.verified
    → IsU64 counters.errors
    → let ran = cycles_run cycles in
      pump_cycles buffer cycles counters ≡ record {
        progress = add_to counters.progress (u64 (length ran * (2 * batch * buffer)));
        verified = add_to counters.verified (u64 (length ran));
        errors = add_to counters.errors (u64 (mismatched ran));
      }
unfolding pump_cycles count_cycle
pump_cycles_lem buffer [] c p v e = λ i. record {
  progress =
      (add_to-zero c.progress p
          ∙ ap (λ n. add_to c.progress (u64 n)) {x = 0} {y = 0 * (2 * batch * buffer)}
              (omega arith))
        i;
  verified = add_to-zero c.verified v i;
  errors = add_to-zero c.errors e i;
}
pump_cycles_lem buffer (cycle ∷ cycles) c p v e = elim (Bool-cases cycle.device_error) [
  | inl seen ↦ rw seen (λ i. record {
    progress =
        ap (add_to c.progress) {x = mul64 (mul64 buffer 2) batch}
          {y = u64 (1 * (2 * batch * buffer))} (omega arith) i;
    verified = add_to c.verified 1;
    errors = errors-one cycle.mismatch c.errors e i;
  })
  | inr clear ↦
      let rest =
        pump_cycles_lem buffer cycles (count_cycle buffer cycle c) (add_to-IsU64 c.progress _ p)
          (add_to-IsU64 c.verified 1 v) (errors-IsU64 cycle.mismatch c.errors e) in
      let ran = cycles_run cycles in
      rw clear (
        rest ∙ λ i. record {
          progress =
              add_to-add_to c.progress (mul64 (mul64 buffer 2) batch)
                (length ran * (2 * batch * buffer)) (suc (length ran) * (2 * batch * buffer))
                (traffic buffer (length ran)) i;
          verified = add_to-add_to c.verified 1 (length ran) (suc (length ran)) (omega arith) i;
          errors = errors-add cycle.mismatch c.errors (mismatched ran) e i;
        })
]
