-- ===== src/Control/Mask.antt =====
-- What `command_to_frames` sends to an actuator that is faulted or not enabled.
-- (cpp/src/hand_core/threads/hand_core_control_thread.cpp)
use aidin_hand2_sdk.Base.{ℕ, ◌≡◌, refl, true, false, ◌==◌, arith}
use aidin_hand2_sdk.Protocol.Frames.{csp_mode}
use aidin_hand2_sdk.Protocol.Observation.{ActuatorState, ActuatorHealth}
use aidin_hand2_sdk.Control.Command.{
  Doubles, HandCommand, Controllers, controller_frames, mask_frames, command_to_frames, is_masked,
  idle,
}

module _ (doubles : Doubles) (controllers : Controllers doubles) where
  idle-no_effort :
      (command : HandCommand doubles) (s : controllers.State) (i : ℕ)
      → command.controller ≡ idle
      → (controller_frames doubles controllers command.controller command.max_effort_pct
            s).0.target_effort
          i
        ≡ 0
  unfolding controller_frames
  idle-no_effort command s i e = rw e refl

  -- Whatever is commanded and whatever the joint controllers compute: an actuator that is faulted or
  -- not enabled holds its measured position where the frames are in position mode, and gets target
  -- effort 0 in any other mode; every other actuator gets exactly what its controller computed; the
  -- mode of no actuator is changed; and an Idle command leaves every target effort 0.
  pub command_to_frames-masks :
      (command : HandCommand doubles) (actuators : ActuatorState) (health : ActuatorHealth)
      (s : controllers.State) (i : ℕ)
      → let sent = (command_to_frames doubles controllers command actuators health s).0 in
        let computed =
          (controller_frames doubles controllers command.controller command.max_effort_pct s).0 in
        (sent.mode_of_operation i ≡ computed.mode_of_operation i)
        × (is_masked doubles controllers health i ≡ true
            → (sent.mode_of_operation i == csp_mode) ≡ true
            → sent.target_position i ≡ actuators.position_count i)
        × (is_masked doubles controllers health i ≡ true
            → (sent.mode_of_operation i == csp_mode) ≡ false
            → sent.target_effort i ≡ 0)
        × (is_masked doubles controllers health i ≡ false
            → (sent.target_position i ≡ computed.target_position i)
              × (sent.target_effort i ≡ computed.target_effort i))
        × (command.controller ≡ idle → sent.target_effort i ≡ 0)
  unfolding command_to_frames mask_frames
  command_to_frames-masks command actuators health s i = ground (arith, idle-no_effort command s i)
