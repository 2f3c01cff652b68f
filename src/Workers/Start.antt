-- ===== src/Workers/Start.antt =====
-- How many workers a pass runs with.
use nx_mem_test.Base.{
  ℕ, zero, suc, ◌+◌, ◌-◌, ◌≤◌, ◌<◌, ◌≡◌, ◌⊎◌, inl, inr, refl, sym, ap, ◌∙◌, Bool, true, false,
}
use nx_mem_test.Base.{some, Bool-cases, arith}
use nx_mem_test.Base.{◌==◌, ◌↔◌, ltb, ltb→lt}
use nx_mem_test.Workers.{count_successes, start_workers}

-- Of `left` workers from `worker` on, the first `n` succeed and the next one, if there is one,
-- fails.
abbrev pub FirstSucceed : (ℕ → Bool) → ℕ → ℕ → ℕ → Type 0
FirstSucceed succeeds worker left n =
    (n ≤ left)
    × ((i : ℕ) → i < n → succeeds (worker + i) ≡ true)
    × ((n ≡ left) ⊎ (succeeds (worker + n) ≡ false))

pub count_successes-FirstSucceed :
    (succeeds : ℕ → Bool) (worker left : ℕ)
    → FirstSucceed succeeds worker left (count_successes succeeds worker left)
unfolding count_successes
count_successes-FirstSucceed succeeds worker zero =
    (omega arith, λ i lt. absurd (omega arith), inl refl)
count_successes-FirstSucceed succeeds worker (suc left) =
    let rest = count_successes-FirstSucceed succeeds (suc worker) left in
    let n = count_successes succeeds (suc worker) left in
    elim (Bool-cases (succeeds worker)) [
      | inr bad ↦
          rw bad (omega arith, λ i lt. absurd (omega arith), inr (ap succeeds (omega arith) ∙ bad))
      | inl good ↦ rw good (
        omega (arith, rest.0),
        λ i lt. elim (Bool-cases (i == 0)) [
          | inl first ↦ ap succeeds {y = worker} (ground arith) ∙ good
          | inr later ↦
              ap succeeds {y = suc worker + (i - 1)} (ground arith) ∙ rest.1 (i - 1) (ground arith)
        ],
        elim rest.2 [
          | inl all ↦ inl (ap suc all)
          | inr fails ↦ inr (ap succeeds {y = suc worker + n} (omega arith) ∙ fails)
        ],
      )
    ]

FirstSucceed-least :
    (succeeds : ℕ → Bool) (left n k : ℕ)
    → FirstSucceed succeeds 0 left n
    → FirstSucceed succeeds 0 left k
    → ¬ (n < k)
FirstSucceed-least succeeds left n k hn hk lt = elim hn.2 [
  | inl all ↦ absurd (omega (arith, all, hk.0))
  | inr fails ↦ absurd (ground (arith, sym fails ∙ hk.1 n lt))
]

-- The number of such workers is unique.
FirstSucceed-unique :
    (succeeds : ℕ → Bool) (left n k : ℕ)
    → FirstSucceed succeeds 0 left n
    → FirstSucceed succeeds 0 left k
    → n ≡ k
FirstSucceed-unique succeeds left n k hn hk = elim (Bool-cases (ltb n k)) [
  | inl below ↦ absurd (FirstSucceed-least succeeds left n k hn hk (ltb→lt n k below))
  | inr above ↦ elim (Bool-cases (ltb k n)) [
    | inl below ↦ absurd (FirstSucceed-least succeeds left k n hk hn (ltb→lt k n below))
    | inr same ↦ ground arith
  ]
]

-- All threads are created, the first `n` are started, and these are all of them, or `n` is not 0
-- and the next one cannot be started.
abbrev pub StartsWith : (ℕ → Bool) → (ℕ → Bool) → ℕ → ℕ → Type 0
StartsWith create start workers n =
    ((i : ℕ) → i < workers → create i ≡ true)
    × ((i : ℕ) → i < n → start i ≡ true)
    × ((n ≡ workers) ⊎ ((0 < n) × (n < workers) × (start n ≡ false)))

start_workers-StartsWith :
    (create start : ℕ → Bool) (workers n : ℕ)
    → start_workers create start workers ≡ some n
    → StartsWith create start workers n
unfolding start_workers
start_workers-StartsWith create start workers n e =
    let c = count_successes-FirstSucceed create 0 workers in
    let s = count_successes-FirstSucceed start 0 workers in
    let created : count_successes create 0 workers ≡ workers = ground arith in
    let started : count_successes start 0 workers ≡ n = ground arith in
    let some_started : (n ≡ workers) ⊎ (0 < n) = ground arith in
    (
      λ i lt. ap create {x = i} (omega arith) ∙ c.1 i (omega (arith, created)),
      λ i lt. ap start {x = i} (omega arith) ∙ s.1 i (omega (arith, started)),
      elim some_started [
        | inl all ↦ inl all
        | inr pos ↦ elim s.2 [
          | inl all ↦ inl (sym started ∙ all)
          | inr fails ↦ elim (Bool-cases (n == workers)) [
            | inl all ↦ inl (ground arith)
            | inr fewer ↦ inr (
              pos,
              ground (arith, s.0, started),
              ap start {x = n} (omega (arith, started)) ∙ fails,
            )
          ]
        ]
      ],
    )

first_started :
    (start : ℕ → Bool) (workers n : ℕ)
    → ((i : ℕ) → i < n → start i ≡ true)
    → (n ≡ workers) ⊎ ((0 < n) × (n < workers) × (start n ≡ false))
    → FirstSucceed start 0 workers n
first_started start workers n good rest = (
  omega (arith, rest),
  λ i lt. ap start {x = 0 + i} {y = i} (omega arith) ∙ good i lt,
  elim rest [
    | inl all ↦ inl all
    | inr fewer ↦ inr (ap start {x = 0 + n} {y = n} (omega arith) ∙ fewer.2)
  ],
)

StartsWith-start_workers :
    (create start : ℕ → Bool) (workers n : ℕ)
    → StartsWith create start workers n
    → start_workers create start workers ≡ some n
unfolding start_workers
StartsWith-start_workers create start workers n h =
    let created : count_successes create 0 workers ≡ workers =
      FirstSucceed-unique create workers (count_successes create 0 workers) workers
        (count_successes-FirstSucceed create 0 workers)
        (omega arith, λ i lt. ap create {x = 0 + i} {y = i} (omega arith) ∙ h.0 i lt, inl refl) in
    let started : count_successes start 0 workers ≡ n =
      FirstSucceed-unique start workers (count_successes start 0 workers) n
        (count_successes-FirstSucceed start 0 workers) (first_started start workers n h.1 h.2) in
    rw (created, started) (ground (arith, h.2))

-- A pass runs `n` workers exactly if all threads could be created and the first `n` could be started,
-- and either these are all or the next one could not be started and `n` is not 0. So some workers
-- may be missing from a pass that is not a fallback.
pub start_workers_lem :
    (create start : ℕ → Bool) (workers n : ℕ)
    → (start_workers create start workers ≡ some n) ↔ StartsWith create start workers n
start_workers_lem create start workers n = (
  start_workers-StartsWith create start workers n,
  StartsWith-start_workers create start workers n,
)
