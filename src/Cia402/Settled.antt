-- ===== src/Cia402/Settled.antt =====
-- What `enable_settled` of cia402.hpp waits for, as a statement about all actuators.
use aidin_hand2_sdk.Base.{ℕ, zero, suc, ◌+◌, ◌≡◌, Bool, true, false, not, ◌&&◌, ◌||◌, ◌==◌, arith}
use aidin_hand2_sdk.Base.Arrays.{Array, all_below, any_below, all_from, any_from}
use aidin_hand2_sdk.Cia402.{is_operation_enabled, enable_settled_from, enable_settled}

module _ (status error_code : Array ℕ) (disabled : Array Bool) where
  -- Nothing to wait for: disabled, faulted, or there.
  abbrev pub not_pending : ℕ → Bool
  not_pending i = disabled i || not (error_code i == 0) || is_operation_enabled (status i)

  abbrev pub came_up : ℕ → Bool
  came_up i = not (disabled i) && error_code i == 0 && is_operation_enabled (status i)

  enable_settled_from_lem :
      (n i : ℕ) (any_present any_enabled : Bool)
      → enable_settled_from status error_code disabled n i any_present any_enabled ≡ (
          all_from n i not_pending
          && (not (any_present || any_from n i (λ k. not (disabled k)))
              || (any_enabled || any_from n i came_up)))
  unfolding enable_settled_from all_from any_from
  enable_settled_from_lem zero i any_present any_enabled = ground arith
  enable_settled_from_lem (suc n) i any_present any_enabled = ground (
    arith,
    enable_settled_from_lem n (i + 1) any_present any_enabled,
    enable_settled_from_lem n (i + 1) true any_enabled,
    enable_settled_from_lem n (i + 1) true true,
  )

  -- An enable request has settled exactly when every actuator that is neither disabled nor faulted is
  -- in Operation Enabled and, unless all actuators are disabled, at least one actuator that is
  -- neither disabled nor faulted is there. A disabled actuator never counts, and a faulted one is
  -- never waited for.
  pub enable_settled-all_any :
      (count : ℕ)
      → enable_settled count status error_code disabled ≡ (
          all_below count not_pending
          && (not (any_below count (λ k. not (disabled k))) || any_below count came_up))
  unfolding enable_settled
  enable_settled-all_any count = ground (arith, enable_settled_from_lem count 0 false false)
