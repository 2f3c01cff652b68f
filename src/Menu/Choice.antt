-- ===== src/Menu/Choice.antt =====
-- What the menus can end with.
use nx_mem_test.Base.{ℕ, zero, suc, ◌*◌, ◌≤◌, ◌<◌, ◌≡◌, inl, inr, refl}
use nx_mem_test.Base.{Option, none, some, List, [], ◌∷◌, length, arith, Bool-cases, leb, ◌&&◌}
use nx_mem_test.Types.{Mode, quick, memory_load, extreme, mib_bytes}
use nx_mem_test.Arena.{Arena}
use nx_mem_test.Menu.{Input, durations, duration_at, DurationChoice, chose, leave, back, move}
use nx_mem_test.Menu.{
  duration_loop, choose_duration, choose_mode, Selection, run, exit, out_of_fuel,
}
use nx_mem_test.Menu.{after_mode, select}

-- One of the six durations of the table.
abbrev pub IsDuration : ℕ → Type 0
IsDuration seconds = (i : ℕ) × (i < 6) × (seconds ≡ duration_at durations i)

abbrev Chosen : DurationChoice → Type 0
Chosen (chose seconds) = IsDuration seconds
Chosen leave = Unit {0}
Chosen back = Unit {0}

move-bound : (input : Input) (sel : ℕ) → sel < 6 → move input sel < 6
unfolding move
move-bound input sel h = ground arith

duration_loop-Chosen :
    (sel : ℕ) (inputs : List Input)
    → sel < 6
    → Chosen (duration_loop sel inputs).0 × (length (duration_loop sel inputs).1 ≤ length inputs)
unfolding duration_loop
duration_loop-Chosen sel [] h = (tt, omega arith)
duration_loop-Chosen sel (input ∷ inputs) h =
    let rest = duration_loop-Chosen (move input sel) inputs (move-bound input sel h) in
    elim (Bool-cases input.plus) [
      | inl p ↦ rw p (tt, omega arith)
      | inr p ↦ elim (Bool-cases input.b) [
        | inl b ↦ rw (p, b) (tt, omega arith)
        | inr b ↦ elim (Bool-cases input.a) [
          | inl a ↦ rw (p, b, a) ((sel, h, refl), omega arith)
          | inr a ↦ rw (p, b, a) (rest.0, omega (arith, rest.1))
        ]
      ]
    ]

choose_duration-Chosen :
    (inputs : List Input)
    → Chosen (choose_duration inputs).0 × (length (choose_duration inputs).1 ≤ length inputs)
unfolding choose_duration
choose_duration-Chosen inputs = duration_loop-Chosen 1 inputs (omega arith)

-- The mode is one that the arena is large enough for.
abbrev pub Permitted : Arena → Mode → Type 0
Permitted arena quick = Unit {0}
Permitted arena memory_load = 256 * mib_bytes ≤ arena.size
Permitted arena extreme = 512 * mib_bytes ≤ arena.size

abbrev Picked : Arena → List Input → Option Mode × List Input → Type 0
Picked arena inputs (none, rest) = Unit {0}
Picked arena inputs (some mode, rest) = Permitted arena mode × (length rest < length inputs)

choose_mode-Picked :
    (arena : Arena) (inputs : List Input) → Picked arena inputs (choose_mode arena inputs)
unfolding choose_mode
choose_mode-Picked arena [] = tt
choose_mode-Picked arena (input ∷ inputs) =
    let rest = weaken (choose_mode arena inputs) (choose_mode-Picked arena inputs) in
    elim (Bool-cases input.plus) [
      | inl p ↦ rw p tt
      | inr p ↦ elim (Bool-cases input.a) [
        | inl a ↦ rw (p, a) (tt, omega arith)
        | inr a ↦ elim (Bool-cases (input.x && leb (256 * mib_bytes) arena.size)) [
          | inl x ↦ rw (p, a, x) (ground arith, omega arith)
          | inr x ↦ elim (Bool-cases (input.y && leb (512 * mib_bytes) arena.size)) [
            | inl y ↦ rw (p, a, x, y) (ground arith, omega arith)
            | inr y ↦ rw (p, a, x, y) rest
          ]
        ]
      ]
    ]
  where
    weaken :
        (picked : Option Mode × List Input)
        → Picked arena inputs picked
        → Picked arena (input ∷ inputs) picked
    weaken (none, rest) h = tt
    weaken (some mode, rest) h = (h.0, omega (arith, h.1))

-- What a selection may be.
abbrev pub Sensible : Arena → Selection → Type 0
Sensible arena (run quick seconds) = seconds ≡ 0
Sensible arena (run memory_load seconds) = (256 * mib_bytes ≤ arena.size) × IsDuration seconds
Sensible arena (run extreme seconds) = (512 * mib_bytes ≤ arena.size) × IsDuration seconds
Sensible arena exit = Unit {0}
Sensible arena out_of_fuel = ⊥

after_mode-Sensible :
    (arena : Arena) (mode : Mode) (choice : DurationChoice) (again : Selection)
    → Permitted arena mode
    → Chosen choice
    → Sensible arena again
    → Sensible arena (after_mode mode choice again)
unfolding after_mode
after_mode-Sensible arena quick (chose seconds) again p c r = refl
after_mode-Sensible arena quick leave again p c r = refl
after_mode-Sensible arena quick back again p c r = refl
after_mode-Sensible arena memory_load (chose seconds) again p c r = (p, c)
after_mode-Sensible arena memory_load leave again p c r = tt
after_mode-Sensible arena memory_load back again p c r = r
after_mode-Sensible arena extreme (chose seconds) again p c r = (p, c)
after_mode-Sensible arena extreme leave again p c r = tt
after_mode-Sensible arena extreme back again p c r = r

-- Whatever is pressed, the menus end, with one round for each input and one more as fuel: they
-- leave the program, or they give a mode that the arena is large enough for, with a duration of
-- the table, and with none for the quick check.
pub select_lem :
    (fuel : ℕ) (arena : Arena) (inputs : List Input)
    → length inputs < fuel
    → Sensible arena (select fuel arena inputs)
unfolding select
select_lem zero arena inputs h = absurd (omega arith)
select_lem (suc fuel) arena inputs h =
    go (choose_mode arena inputs) (choose_mode-Picked arena inputs)
      (λ rest lt. select_lem fuel arena rest lt)
  where
    go :
        (picked : Option Mode × List Input)
        → Picked arena inputs picked
        → ((rest : List Input) → length rest < fuel → Sensible arena (select fuel arena rest))
        → Sensible arena (elim picked.0 [
          | none ↦ exit
          | some mode ↦
              after_mode mode
                (choose_duration picked.1).0
                (select fuel arena (choose_duration picked.1).1)
        ])
    go (none, rest) p again = tt
    go (some mode, rest) p again =
        let timed = choose_duration-Chosen rest in
        after_mode-Sensible arena mode (choose_duration rest).0
          (select fuel arena (choose_duration rest).1) p.0 timed.0
          (again (choose_duration rest).1 (omega (arith, timed.1, p.1)))
