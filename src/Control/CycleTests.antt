-- ===== src/Control/CycleTests.antt =====
-- A control cycle over whole numbers in place of doubles, with controllers that do nothing.
use aidin_hand2_sdk.Base.{ℕ, ◌≡◌, true, false, ◌==◌, ltb, if◌then◌else◌, arith}
use aidin_hand2_sdk.Base.Arrays.{fill}
use aidin_hand2_sdk.Protocol.Frames.{csp_mode}
use aidin_hand2_sdk.Protocol.Observation.{ActuatorState, ActuatorHealth, TactileState}
use aidin_hand2_sdk.Comms.Cycle.{Sends}
use aidin_hand2_sdk.Control.State.{HandCore}
use aidin_hand2_sdk.Control.Command.{
  Doubles, HandCommand, Controllers, actuator_position, idle, command_to_frames, controller_frames,
  is_masked,
}
use aidin_hand2_sdk.Control.Output.{ErrnoAbi}
use aidin_hand2_sdk.Control.Mask.{command_to_frames-masks}
use aidin_hand2_sdk.Control.Bias.{FitsTactile}
use aidin_hand2_sdk.Control.Tests.{core}

abbrev pub numbers : Doubles
numbers = record {
  Double = ℕ;
  zero = 0;
  to_int32 = λ n. n;
  to_int16 = λ n. n;
  of_int32 = λ n. n;
  of_int16 = λ n. n;
  negate = λ n. 0;
  clamp = λ v low high. if ltb high v then high else v;
  is_finite = λ n. true;
  less = ltb;
}

abbrev pub no_controllers : Controllers numbers
no_controllers = record {
  State = ℕ;
  compute_position = λ target frames s. (frames, s);
  compute_impedance = λ target caps frames s. (frames, s);
  reset_position = λ s. 0;
  reset_impedance = λ s. 0;
}

abbrev pub reach : HandCommand numbers
reach = record { controller = actuator_position (fill 500); max_effort_pct = fill 1000 }

abbrev measured : ActuatorState
measured = record { position_count = fill 120; velocity_rpm = fill 0; current_ma = fill 0 }

-- Actuator 3 is faulted.
abbrev one_faulted : ActuatorHealth
one_faulted = record { enabled = fill true; fault = λ i. if i == 3 then 0x7500 else 0 }

command_to_frames-masks_example :
    let sent = (command_to_frames numbers no_controllers reach measured one_faulted 0).0 in
    let computed =
      (controller_frames numbers no_controllers reach.controller reach.max_effort_pct 0).0 in
    (sent.mode_of_operation 3 ≡ computed.mode_of_operation 3)
    × (is_masked numbers no_controllers one_faulted 3 ≡ true
        → (sent.mode_of_operation 3 == csp_mode) ≡ true
        → sent.target_position 3 ≡ 120)
    × (is_masked numbers no_controllers one_faulted 3 ≡ true
        → (sent.mode_of_operation 3 == csp_mode) ≡ false
        → sent.target_effort 3 ≡ 0)
    × (is_masked numbers no_controllers one_faulted 3 ≡ false
        → (sent.target_position 3 ≡ computed.target_position 3)
          × (sent.target_effort 3 ≡ computed.target_effort 3))
    × (reach.controller ≡ idle → sent.target_effort 3 ≡ 0)
command_to_frames-masks_example =
    command_to_frames-masks numbers no_controllers reach measured one_faulted 0 3

abbrev touched : TactileState
touched = record { fingers = fill (fill 310); palm = fill 12 }

abbrev old_bias : TactileState
old_bias = record { fingers = fill (fill 300); palm = fill 20 }

touched-Fits : FitsTactile touched
touched-Fits = record { finger_lt = λ f t. omega arith; palm_lt = λ t. omega arith }

old_bias-Fits : FitsTactile old_bias
old_bias-Fits = record { finger_lt = λ f t. omega arith; palm_lt = λ t. omega arith }

abbrev pub linux_errno : ErrnoAbi
linux_errno = record { eagain = 11; ewouldblock = 11; enobufs = 105 }

abbrev linked : HandCore ℕ
linked = record core { comms = record core.comms { is_connected = true } }

abbrev pub all_sent : Sends
all_sent = record { accepted = fill true; errno = 0 }
