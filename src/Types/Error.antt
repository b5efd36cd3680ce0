-- ===== src/Types/Error.antt =====
-- cpp/include/aidin_hand2/types/error.hpp and `Status` of cpp/src/types/status.hpp.
use Prim.Native.String.{String}
use aidin_hand2_sdk.Base.{Bool, true, false}

pub data ErrorCode : Type 0 where
  ok invalid_argument wrong_call_order interface_unavailable communication_lost hardware_fault
        control_loop_fault unexpected_error :
      ErrorCode

pub record Status : Type 0 where
  pub code : ErrorCode
  pub message : String

abbrev pub is_ok : ErrorCode → Bool
is_ok ok = true
is_ok _ = false
