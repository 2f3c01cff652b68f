-- ===== src/Runner/Chunks/Fills.antt =====
-- Chunks side by side: what is written, what differs and how much progress is made add up.
use nx_mem_test.Base.{ℕ, zero, suc, ◌+◌, ◌-◌, ◌<◌, ◌≡◌, refl, ap, ◌∙◌, inl, inr, ◌++◌}
use nx_mem_test.Base.{arith, true, Bool-cases, ltb, leb, ◌&&◌, ◌!=◌}
use mathlib.Core.Path.{fun_ext, ap₂}
use nx_mem_test.Types.{Phase}
use nx_mem_test.Runner.{RunConfig}
use nx_mem_test.Runner.Expected.{expected_from}
use nx_mem_test.Runner.Memory.{Mem, fill}
use nx_mem_test.Runner.Verify.Spec.{mismatches}
use nx_mem_test.Runner.Chunks.{progress_add}

pub fill-fill :
    (p k c : ℕ) (f g : ℕ → ℕ) (m : Mem)
    → ((j : ℕ) → j < c → g j ≡ f (k + j))
    → fill (p + k) c g (fill p k f m) ≡ fill p (k + c) f m
unfolding fill
fill-fill p k c f g m e = fun_ext (λ a. at a)
  where
    at : (a : ℕ) → fill (p + k) c g (fill p k f m) a ≡ fill p (k + c) f m a
    at a = elim (Bool-cases (leb (p + k) a && ltb a (p + k + c))) [
      | inl inside ↦
          let e' : g (a - (p + k)) ≡ f (k + (a - (p + k))) = e (a - (p + k)) (ground arith) in
          let place : k + (a - (p + k)) ≡ a - p = ground arith in
          let all : leb p a && ltb a (p + (k + c)) ≡ true = ground arith in
          rw (inside, all) (e' ∙ ap f place)
      | inr outside ↦ rw outside (ground arith)
    ]

pub mismatches-append :
    (config : RunConfig) (phase : Phase) (m : Mem) (p start k c : ℕ)
    → mismatches config phase m p start (k + c)
      ≡ mismatches config phase m p start k ++ mismatches config phase m (p + k) (start + k) c
mismatches-append config phase m p start zero c =
    ap (mismatches config phase m p start) {y = c} (omega arith)
    ∙ ap₂ (λ a b. mismatches config phase m a b c) {x = p} {u = start} (omega arith) (omega arith)
mismatches-append config phase m p start (suc k) c =
    let shift : mismatches config phase m (p + 1 + k) (start + 1 + k) c
        ≡ mismatches config phase m (p + suc k) (start + suc k) c =
      ap₂ (λ a b. mismatches config phase m a b c) (omega arith) (omega arith) in
    let tail =
      mismatches-append config phase m (p + 1) (start + 1) k c
      ∙ ap (λ t. mismatches config phase m (p + 1) (start + 1) k ++ t) shift in
    let len : suc k + c ≡ suc (k + c) = omega arith in
    ap (mismatches config phase m p start) len
    ∙ elim (Bool-cases (m p != expected_from config.seed phase config.pass start 0)) [
      | inl differs ↦ rw (differs, tail) refl
      | inr equal ↦ rw (equal, tail) refl
    ]

pub progress_add-append :
    (config : RunConfig) (a b g : ℕ)
    → progress_add config b (progress_add config a g) ≡ progress_add config (a + b) g
unfolding progress_add
progress_add-append config a b g = ground arith
