-- ===== src/Types/Events.antt =====
-- cpp/src/types/realtime_event.hpp. A signed field is its bit pattern.
use aidin_hand2_sdk.Base.{ℕ, ◌-◌, ◌^◌, Bool}
use aidin_hand2_sdk.Types.Lifecycle.{HandLifecycle}

pub data RealtimeEventKind : Type 0 where
  receive_silence transmit_failure control_loop_failure stop_confirmed stop_not_confirmed
        receive_restored actuator_fault_set actuator_fault_cleared homing_phase_entered
        homing_completed homing_failed tactile_bias_set tactile_bias_reset :
      RealtimeEventKind

-- -1, the actuator index of an event of the whole hand.
abbrev pub whole_hand : ℕ
whole_hand = 2 ^ 32 - 1

pub record RealtimeEvent : Type 0 where
  pub kind : RealtimeEventKind
  pub cycle : ℕ
  pub actuator_index : ℕ
  pub detail : ℕ
  pub can_error_class : ℕ
  pub lifecycle : HandLifecycle
  pub stop_latched : Bool
  pub actuator_mask : ℕ

pub record StopCause : Type 0 where
  pub reason : RealtimeEventKind
  pub cycle : ℕ
  pub detail : ℕ
  pub can_error_class : ℕ
