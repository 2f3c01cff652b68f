-- ===== src/Base/Schedule.antt =====
-- Threads that share a memory, each with cells of its own: the steps of all of them in some order.
use Prim.Native.Nat.{ℕ, zero, suc, ◌<◌, ◌≤◌, ◌+◌}
use mathlib.Core.Path.{◌≡◌, ap, ◌∙◌}
use mathlib.Core.Logic.{◌≢◌, inl, inr}
use mathlib.Core.Bool.{Bool, true, false}
use mathlib.Core.List.{List, [], ◌∷◌}
use native.Mathlib.Omega.{arith}
use nx_mem_test.Base.Word.{◌==◌, if◌then◌else◌, Bool-cases}

abbrev pub iterate {ℓ} : {S : Type ℓ} → (S → S) → ℕ → S → S
iterate f zero s = s
iterate f (suc n) s = iterate f n (f s)

pub iterate-add {ℓ} :
    {S : Type ℓ} (f : S → S) (a b : ℕ) (s : S) → iterate f (a + b) s ≡ iterate f b (iterate f a s)
iterate-add f zero b s = ap (λ n. iterate f n s) {x = 0 + b} {y = b} (omega arith)
iterate-add f (suc a) b s =
    ap (λ n. iterate f n s) {x = suc a + b} {y = suc (a + b)} (omega arith)
    ∙ iterate-add f a b (f s)

-- `t` is reached from `s` by at most `bound` steps.
abbrev pub Reaches {ℓ} : {S : Type ℓ} → (S → S) → ℕ → S → S → Type ℓ
Reaches f bound s t = (n : ℕ) × (n ≤ bound) × (iterate f n s ≡ t)

pub Reaches-trans {ℓ} :
    {S : Type ℓ} (f : S → S) (a b : ℕ) {s t u : S}
    → Reaches f a s t
    → Reaches f b t u
    → Reaches f (a + b) s u
Reaches-trans f a b {s} h k =
    (h.0 + k.0, omega (arith, h.1, k.1), iterate-add f h.0 k.0 s ∙ ap (iterate f k.0) h.2 ∙ k.2)

pub Reaches-le {ℓ} :
    {S : Type ℓ} (f : S → S) {a b : ℕ} {s t : S} → Reaches f a s t → a ≤ b → Reaches f b s t
Reaches-le f h le = (h.0, omega (arith, h.1), h.2)

-- One step more at the start.
pub Reaches-first {ℓ} :
    {S : Type ℓ} (f : S → S) (bound : ℕ) {s t u : S}
    → f s ≡ t
    → Reaches f bound t u
    → Reaches f (suc bound) s u
Reaches-first f bound e h = (suc h.0, omega (arith, h.1), ap (iterate f h.0) e ∙ h.2)

-- How often thread `i` is on turn.
abbrev pub turns : ℕ → List ℕ → ℕ
turns i [] = 0
turns i (j ∷ schedule) = if i == j then suc (turns i schedule) else turns i schedule

abbrev pub AllBelow : ℕ → List ℕ → Type 0
AllBelow n [] = Unit {0}
AllBelow n (i ∷ is) = (i < n) × AllBelow n is

module _ {L : Type 0} (step : ℕ → L → (ℕ → ℕ) → L × (ℕ → ℕ)) where
  pub record System : Type 0 where
    pub locals : ℕ → L
    pub mem : ℕ → ℕ

  abbrev pub turn : ℕ → System → System
  turn j sys =
      let done = step j (sys.locals j) sys.mem in
      record { locals = λ i. if i == j then done.0 else sys.locals i; mem = done.1 }

  unfoldable pub run_schedule : List ℕ → System → System
  run_schedule [] sys = sys
  run_schedule (j ∷ schedule) sys = run_schedule schedule (turn j sys)

  module _ (owns : ℕ → ℕ → Bool) where
    abbrev pub Agree : ℕ → (ℕ → ℕ) → (ℕ → ℕ) → Type 0
    Agree i m m' = (a : ℕ) → owns i a ≡ true → m a ≡ m' a

    -- A thread changes no cell of another one, and all it does depends on its own cells only.
    module _ (threads : ℕ)
        (apart : (i j : ℕ)
          → i < threads
          → j < threads
          → i ≢ j
          → (a : ℕ) → owns i a ≡ true
          → owns j a ≡ false)
        (frame : (j : ℕ)
          → j < threads
          → (l : L) (m : ℕ → ℕ) (a : ℕ) → owns j a ≡ false
          → (step j l m).1 a ≡ m a)
        (own_only : (j : ℕ)
          → j < threads
          → (l : L) (m m' : ℕ → ℕ) → Agree j m m'
          → ((step j l m).0 ≡ (step j l m').0) × Agree j (step j l m).1 (step j l m').1) where
      -- Thread `i` in the system and alone.
      abbrev Matches : ℕ → System → L × (ℕ → ℕ) → Type 0
      Matches i sys x = (sys.locals i ≡ x.0) × Agree i sys.mem x.1

      turn_self :
          (i : ℕ) (sys : System) (x : L × (ℕ → ℕ))
          → i < threads
          → Matches i sys x
          → Matches i (turn i sys) (step i x.0 x.1)
      turn_self i sys x below h =
          let same = own_only i below x.0 sys.mem x.1 h.1 in
          let here : (i == i) ≡ true = ground arith in
          let moved : step i (sys.locals i) sys.mem ≡ step i x.0 sys.mem =
            ap (λ l. step i l sys.mem) h.0 in
          (
            ap (λ b. if b then (step i (sys.locals i) sys.mem).0 else sys.locals i) here
                ∙ ap (λ (t : L × (ℕ → ℕ)). t.0) moved
                ∙ same.0,
            λ a own. ap (λ (t : L × (ℕ → ℕ)). t.1 a) moved ∙ same.1 a own,
          )

      turn_other :
          (i j : ℕ) (sys : System) (x : L × (ℕ → ℕ))
          → i < threads
          → j < threads
          → (i == j) ≡ false
          → Matches i sys x
          → Matches i (turn j sys) x
      turn_other i j sys x below below' ne h = (
        ap (λ b. if b then (step j (sys.locals j) sys.mem).0 else sys.locals i) ne ∙ h.0,
        λ a own.
            frame j below' (sys.locals j) sys.mem a
              (apart i j below below' (λ e. absurd (ground arith)) a own)
            ∙ h.1 a own,
      )

      -- Whatever the order of the turns, thread `i` ends with the state and the cells that as many
      -- steps of its own give it when it is alone.
      pub run_schedule-alone :
          (i : ℕ) (schedule : List ℕ) (sys : System) (x : L × (ℕ → ℕ))
          → i < threads
          → AllBelow threads schedule
          → (sys.locals i ≡ x.0) × Agree i sys.mem x.1
          → let alone = iterate (λ (y : L × (ℕ → ℕ)). step i y.0 y.1) (turns i schedule) x in
            let last = run_schedule schedule sys in
            (last.locals i ≡ alone.0) × Agree i last.mem alone.1
      unfolding run_schedule
      run_schedule-alone i [] sys x below all h = h
      run_schedule-alone i (j ∷ schedule) sys x below all h = elim (Bool-cases (i == j)) [
        | inl self ↦
            let same : i ≡ j = ground arith in
            let next =
              run_schedule-alone i schedule (turn i sys) (step i x.0 x.1) below all.1
                (turn_self i sys x below h) in
            rw (self, ← same) next
        | inr other ↦ rw other (
            run_schedule-alone i schedule (turn j sys) x below all.1
              (turn_other i j sys x below all.0 other h))
      ]
