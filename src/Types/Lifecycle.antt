-- ===== src/Types/Lifecycle.antt =====
-- The enumerations of cpp/include/aidin_hand2/types/state.hpp, and their numbers.
use aidin_hand2_sdk.Base.{Bool, true, false}

pub data HandLifecycle : Type 0 where
  disconnected connected running stopped faulted : HandLifecycle

abbrev pub is_disconnected : HandLifecycle → Bool
is_disconnected disconnected = true
is_disconnected _ = false

abbrev pub is_running : HandLifecycle → Bool
is_running running = true
is_running _ = false

abbrev pub is_stopped : HandLifecycle → Bool
is_stopped stopped = true
is_stopped _ = false

abbrev pub is_faulted : HandLifecycle → Bool
is_faulted faulted = true
is_faulted _ = false

pub data HomingState : Type 0 where
  not_run succeeded in_progress failed : HomingState

pub data CommandSource : Type 0 where
  none controller quick_stop homing : CommandSource
