-- ===== src/Runner.antt =====
-- source/core/runner.c: writing and verifying the patterns, a chunk, a phase and a pass at a time.
pub mod Memory
pub mod Expected
pub mod Write
pub mod Verify
pub mod Chunks
pub mod Pass
pub mod Steps
mod Tests
use nx_mem_test.Base.{ℕ, Bool, Option}
use nx_mem_test.Types.{Mode, Phase}

-- `NxmtRunConfig`. Another thread may set the stop flag at any time: the flag, where there is one,
-- is what each read of it in turn gives. Of the progress counter only its presence is kept here;
-- its value is state of the run.
pub record RunConfig : Type 0 where
  pub mode : Mode
  pub seed : ℕ
  pub pass : ℕ
  pub worker_id : ℕ
  pub worker_count : ℕ
  pub inject_mismatch : Bool
  pub stop_requested : Option (ℕ → Bool)
  pub progress_bytes : Bool

-- `NxmtRunStats`
pub record RunStats : Type 0 where
  pub bytes_written : ℕ
  pub bytes_verified : ℕ
  pub pressure_checksum : ℕ
  pub current_phase : Phase

abbrev pub k_fixed_a : ℕ
k_fixed_a = 0xaaaaaaaaaaaaaaaa

abbrev pub k_fixed_5 : ℕ
k_fixed_5 = 0x5555555555555555

abbrev pub k_addr_pass_mul : ℕ
k_addr_pass_mul = 0x100000001b3

abbrev pub k_rand_pass_mul : ℕ
k_rand_pass_mul = 0x9e3779b97f4a7c15

abbrev pub k_stream_pass_mul : ℕ
k_stream_pass_mul = 0xbf58476d1ce4e5b9

abbrev pub k_bit_spread0 : ℕ
k_bit_spread0 = 0x4924924924924924

abbrev pub k_bit_spread1 : ℕ
k_bit_spread1 = 0xb6db6db6db6db6db

abbrev pub stream_stamp_words : ℕ
stream_stamp_words = 1024
