-- ===== src/GpuPump/Session.antt =====
-- The thread of the pump: what it creates, what it destroys, and when its loop runs.
pub mod Balance
use nx_mem_test.Base.{ℕ, ◌+◌, Bool, true, false, not, ◌&&◌, ◌||◌, List, [], ◌∷◌, ltb, leb, ◌==◌}
use nx_mem_test.Base.{if◌then◌else◌}
use nx_mem_test.GpuPump.{shader_bytes, Counters, Cycle, pump_cycles}

-- What is held by a variable that is not null.
pub data Resource : Type 0 where
  device cmd_mem shader_mem result_mem cmdbuf src dst shader_ctrl queue : Resource

pub data Event : Type 0 where
  created destroyed : Resource → Event

abbrev pub number : Resource → ℕ
number device = 0
number cmd_mem = 1
number shader_mem = 2
number result_mem = 3
number cmdbuf = 4
number src = 5
number dst = 6
number shader_ctrl = 7
number queue = 8

-- Whether a variable is not null, from what happened, the latest first.
abbrev pub is_held : Resource → List Event → Bool
is_held r [] = false
is_held r (created q ∷ past) = number r == number q || is_held r past
is_held r (destroyed q ∷ past) = not (number r == number q) && is_held r past

-- What the library and the allocator do: which creations succeed, and whether the debug callback
-- has been called where the code looks after a creation.
pub record Driver : Type 0 where
  pub creates : Resource → Bool
  pub reports_error : Resource → Bool

-- The size of the shader that is linked into the program, and the sizes in its header.
pub record Blob : Type 0 where
  pub total : ℕ
  pub control_sz : ℕ
  pub code_sz : ℕ

-- A part of the setup, which fails or goes on.
abbrev pub Part : Type 0
Part = List Event → Bool × List Event

infixl 5 ◌>>◌
abbrev pub ◌>>◌ : Part → Part → Part
◌>>◌ part next past =
    let done = part past in let rest = next done.1 in if done.0 then rest else done

abbrev pub succeed : Part
succeed past = (true, past)

module _ (driver : Driver) where
  abbrev pub acquire : Resource → Part
  acquire r past = if driver.creates r then (true, created r ∷ past) else (false, past)

  abbrev pub check_error : Resource → Part
  check_error r past = if driver.reports_error r then (false, past) else (true, past)

  unfoldable pub load_shader : Blob → Part
  load_shader blob past =
      if ltb blob.total 24
      then (false, past)
      else if ltb shader_bytes blob.code_sz
      then (false, past)
      else if ltb blob.total (blob.control_sz + blob.code_sz)
      then (false, past)
      else acquire shader_ctrl past

  unfoldable pub pump_setup : Blob → Part
  pump_setup blob = do
    acquire device
    check_error device
    acquire cmd_mem
    acquire shader_mem
    acquire result_mem
    acquire cmdbuf
    acquire src
    acquire dst
    check_error dst
    load_shader blob
    acquire queue
    check_error queue
    succeed

abbrev pub release : Resource → List Event → List Event
release r past = if is_held r past then destroyed r ∷ past else past

unfoldable pub pump_teardown : List Event → List Event
pump_teardown past = release shader_ctrl (
    release device (
      release cmd_mem (
        release shader_mem
          (release result_mem (release cmdbuf (release src (release dst (release queue past))))))))

-- What the thread leaves.
pub record Session : Type 0 where
  pub past : List Event
  pub init_failed : Bool
  pub counters : Counters

unfoldable pub pump_thread_entry : Driver → Blob → ℕ → List Cycle → Counters → Session
unfolding pump_setup pump_teardown pump_cycles
pump_thread_entry driver blob buffer cycles counters =
    let ready = pump_setup driver blob [] in
    if not ready.0
    then (record { past = pump_teardown ready.1; init_failed = true; counters = counters })
    else (record {
      past = pump_teardown ready.1;
      init_failed = false;
      counters = pump_cycles buffer cycles counters;
    })
