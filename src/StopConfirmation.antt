-- ===== src/StopConfirmation.antt =====
-- cpp/src/types/stop_confirmation.hpp: the verdict on a stop. `long` counters are numbers; the window
-- is a number of cycles.
pub mod Verdict
use aidin_hand2_sdk.Base.{ℕ, suc, ◌+◌, Bool, true, false, ltb, if◌then◌else◌}

pub data StopConfirmation : Type 0 where
  waiting confirmed not_confirmed : StopConfirmation

-- The new verdict and the new `cycles`.
unfoldable pub evaluate_stop_confirmation : StopConfirmation → Bool → ℕ → ℕ → StopConfirmation × ℕ
evaluate_stop_confirmation current true cycles window = (confirmed, cycles)
evaluate_stop_confirmation waiting false cycles window =
    (if ltb window (cycles + 1) then not_confirmed else waiting, cycles + 1)
evaluate_stop_confirmation confirmed false cycles window = (confirmed, cycles)
evaluate_stop_confirmation not_confirmed false cycles window = (not_confirmed, cycles)
