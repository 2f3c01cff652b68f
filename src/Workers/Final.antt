-- ===== src/Workers/Final.antt =====
-- The status of the run, after the last pass.
use nx_mem_test.Base.{ℕ, ◌<◌, ◌≡◌, ◌⊎◌, ◌↔◌, Bool, false, arith}
use nx_mem_test.Types.{Status, pass, fail, aborted, unsupported}
use nx_mem_test.Workers.{final_status}

-- The run fails just if a pass failed or the GPU found a batch that differs; it passes just if the
-- GPU found none, and the passes passed, or were stopped by the timer and found no error.
pub final_status_lem :
    (status : Status) (gpu_err_batches : ℕ) (user_aborted : Bool) (error_count : ℕ)
    → let final = final_status status gpu_err_batches user_aborted error_count in
      ((final ≡ fail) ↔ ((status ≡ fail) ⊎ (0 < gpu_err_batches)))
      × ((final ≡ pass) ↔ (
          (gpu_err_batches ≡ 0)
          × ((status ≡ pass) ⊎ ((status ≡ aborted) × (user_aborted ≡ false) × (error_count ≡ 0)))))
unfolding final_status
final_status_lem pass g u e = ground arith
final_status_lem fail g u e = ground arith
final_status_lem aborted g u e = ground arith
final_status_lem unsupported g u e = ground arith
