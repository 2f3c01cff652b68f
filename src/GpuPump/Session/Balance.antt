-- ===== src/GpuPump/Session/Balance.antt =====
-- The thread of the pump gives back all that it takes, in an order that the library allows.
use nx_mem_test.Base.{
  ltb, ◌+◌, ℕ, ◌≡◌, refl, Bool, true, false, not, ◌&&◌, ◌||◌, List, [], ◌∷◌, Bool-cases,
}
use nx_mem_test.Base.{inl, inr, ◌⊎◌, sym}
use mathlib.Core.Path.{subst}
use nx_mem_test.GpuPump.{shader_bytes, Counters, Cycle, pump_cycles}
use nx_mem_test.GpuPump.Session.{
  Resource, device, cmd_mem, shader_mem, result_mem, cmdbuf, src, dst, shader_ctrl, queue, Event,
  created, destroyed, is_held, Driver, Blob, Part, acquire, check_error, load_shader, pump_setup,
  pump_teardown, pump_thread_entry, ◌>>◌,
}

-- What must be given back before a resource is.
abbrev pub users : Resource → List Resource
users device = queue ∷ dst ∷ src ∷ cmdbuf ∷ result_mem ∷ shader_mem ∷ cmd_mem ∷ []
users shader_ctrl = []
users queue = []
users block = queue ∷ []

abbrev pub everything : List Resource
everything = shader_ctrl ∷ device ∷ users device

abbrev pub none_held : List Resource → List Event → Bool
none_held [] past = true
none_held (r ∷ rs) past = not (is_held r past) && none_held rs past

abbrev pub all_held : List Resource → List Event → Bool
all_held [] past = true
all_held (r ∷ rs) past = is_held r past && all_held rs past

-- The control section of the shader is plain memory, and the device is there first.
abbrev stands_alone : Resource → Bool
stands_alone device = true
stands_alone shader_ctrl = true
stands_alone block = false

-- Nothing is created into a variable that holds something already or before the device, and nothing
-- is destroyed that is not held or still used.
abbrev pub is_ordered : List Event → Bool
is_ordered [] = true
is_ordered (created r ∷ past) =
    not (is_held r past) && (stands_alone r || is_held device past) && is_ordered past
is_ordered (destroyed r ∷ past) = is_held r past && none_held (users r) past && is_ordered past

-- The parts of the setup as a list, for one lemma on each kind of part.
data Step : Type 0 where
  acquires checks : Resource → Step
  loads : Step

abbrev steps : List Step
steps =
    acquires device
    ∷ checks device
    ∷ acquires cmd_mem
    ∷ acquires shader_mem
    ∷ acquires result_mem
    ∷ acquires cmdbuf
    ∷ acquires src
    ∷ acquires dst
    ∷ checks dst
    ∷ loads
    ∷ acquires queue
    ∷ checks queue
    ∷ []

module _ (driver : Driver) (blob : Blob) where
  part : Step → Part
  part (acquires r) = acquire driver r
  part (checks r) = check_error driver r
  part loads = load_shader driver blob

  run_steps : List Step → Part
  unfolding part
  run_steps [] past = (true, past)
  run_steps (step ∷ steps) past = (part step >> run_steps steps) past

  pump_setup-steps : pump_setup driver blob [] ≡ run_steps steps []
  unfolding pump_setup run_steps part
  pump_setup-steps = refl

  module _ (P : Bool × List Event → Type 0) where
    then-acquire :
        (r : Resource) (rest : List Step) (past : List Event)
        → P (false, past)
        → P (run_steps rest (created r ∷ past))
        → P (run_steps (acquires r ∷ rest) past)
    unfolding run_steps part
    then-acquire r rest past failed made = elim (Bool-cases (driver.creates r)) [
      | inl yes_made ↦ rw yes_made made
      | inr no_made ↦ rw no_made failed
    ]

    then-end : (past : List Event) → P (true, past) → P (run_steps [] past)
    unfolding run_steps
    then-end past done = done

    then-check :
        (r : Resource) (rest : List Step) (past : List Event)
        → P (false, past)
        → P (run_steps rest past)
        → P (run_steps (checks r ∷ rest) past)
    unfolding run_steps part
    then-check r rest past failed fine = elim (Bool-cases (driver.reports_error r)) [
      | inl seen ↦ rw seen failed
      | inr clear ↦ rw clear fine
    ]

    then-load :
        (rest : List Step) (past : List Event)
        → P (false, past)
        → P (run_steps rest (created shader_ctrl ∷ past))
        → P (run_steps (loads ∷ rest) past)
    unfolding run_steps part load_shader
    then-load rest past failed made = elim (Bool-cases (ltb blob.total 24)) [
      | inl small ↦ rw small failed
      | inr large ↦ elim (Bool-cases (ltb shader_bytes blob.code_sz)) [
        | inl long ↦ rw (large, long) failed
        | inr short ↦ elim (Bool-cases (ltb blob.total (blob.control_sz + blob.code_sz))) [
          | inl outside ↦ rw (large, short, outside) failed
          | inr inside ↦ elim (Bool-cases (driver.creates shader_ctrl)) [
            | inl yes_made ↦ rw (large, short, inside, yes_made) made
            | inr no_made ↦ rw (large, short, inside, no_made) failed
          ]
        ]
      ]
    ]

-- After the teardown: all is given back, in order; and before it nothing is missing from a setup
-- that succeeds.
abbrev Leaves : Bool × List Event → Type 0
Leaves ready =
    (is_ordered (pump_teardown ready.1) ≡ true)
    × (none_held everything (pump_teardown ready.1) ≡ true)
    × ((not ready.0 || all_held everything ready.1) ≡ true)

run_steps-Leaves : (driver : Driver) (blob : Blob) → Leaves (run_steps driver blob steps [])
unfolding pump_teardown
run_steps-Leaves driver blob =
    let acquired = then-acquire driver blob Leaves in
    let checked = then-check driver blob Leaves in
    acquired device _ _ (refl, refl, refl)
      (checked device _ _ (refl, refl, refl)
        (acquired cmd_mem _ _ (refl, refl, refl)
          (acquired shader_mem _ _ (refl, refl, refl)
            (acquired result_mem _ _ (refl, refl, refl)
              (acquired cmdbuf _ _ (refl, refl, refl)
                (acquired src _ _ (refl, refl, refl)
                  (acquired dst _ _ (refl, refl, refl)
                    (checked dst _ _ (refl, refl, refl)
                      (then-load driver blob Leaves _ _ (refl, refl, refl)
                        (acquired queue _ _ (refl, refl, refl)
                          (checked queue _ _ (refl, refl, refl)
                            (then-end driver blob Leaves _ (refl, refl, refl)))))))))))))

-- Whatever the library, the allocator and the shader's header do: the thread of the pump creates
-- nothing twice and nothing before the device, destroys only what it holds and nothing that is
-- still used, and holds nothing at its end; it counts nothing if its setup fails, and otherwise
-- everything is there while its loop runs.
pub pump_thread_entry_lem :
    (driver : Driver) (blob : Blob) (buffer : ℕ) (cycles : List Cycle) (counters : Counters)
    → let session = pump_thread_entry driver blob buffer cycles counters in
      let ready = pump_setup driver blob [] in
      (is_ordered session.past ≡ true)
      × (none_held everything session.past ≡ true)
      × (session.init_failed ≡ not ready.0)
      × (((session.init_failed ≡ true) × (session.counters ≡ counters))
          ⊎ ((all_held everything ready.1 ≡ true)
              × (session.counters ≡ pump_cycles buffer cycles counters)))
unfolding pump_thread_entry
pump_thread_entry_lem driver blob buffer cycles counters =
    let leaves = subst Leaves (sym (pump_setup-steps driver blob)) (run_steps-Leaves driver blob) in
    elim (Bool-cases (pump_setup driver blob []).0) [
      | inl ok ↦ rw ok (leaves.0, leaves.1, refl, inr (rw ok at leaves.2, refl))
      | inr failed ↦ rw failed (leaves.0, leaves.1, refl, inl (refl, refl))
    ]
