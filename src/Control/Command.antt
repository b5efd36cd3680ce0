-- ===== src/Control/Command.antt =====
-- `command_to_frames` and `fill_commanded` of hand_core_control_thread.cpp, with the commands of
-- cpp/include/aidin_hand2/types/command.hpp. `double` is an abstract type with the operations that the
-- code applies to it, and the two joint controllers are an interface: their state and what they do.
use aidin_hand2_sdk.Base.{ℕ, Bool, true, false, not, ◌||◌, ◌==◌, if◌then◌else◌}
use aidin_hand2_sdk.Base.Arrays.{Array, fill}
use aidin_hand2_sdk.Protocol.Frames.{CommandFrames, no_command_frames, csp_mode, cst_mode}
use aidin_hand2_sdk.Protocol.Observation.{ActuatorState, ActuatorHealth}

-- 0.0, the casts to int32_t and int16_t, as bit patterns, and back; unary minus, std::clamp,
-- std::isfinite and `<`.
pub record Doubles : Type 1 where
  pub Double : Type 0
  pub zero : Double
  pub to_int32 : Double → ℕ
  pub to_int16 : Double → ℕ
  pub of_int32 : ℕ → Double
  pub of_int16 : ℕ → Double
  pub negate : Double → Double
  pub clamp : Double → Double → Double → Double
  pub is_finite : Double → Bool
  pub less : Double → Double → Bool

module _ (doubles : Doubles) where
  abbrev pub Targets : Type 0
  Targets = Array doubles.Double

  pub data ControllerCommand : Type 0 where
    idle : ControllerCommand
    joint_position : Targets → ControllerCommand
    joint_impedance : Targets → ControllerCommand
    actuator_position : Targets → ControllerCommand
    actuator_effort : Targets → ControllerCommand

  pub record HandCommand : Type 0 where
    pub controller : ControllerCommand
    pub max_effort_pct : Targets

  -- `HandCommand{}`.
  abbrev pub no_command : HandCommand
  no_command = record { controller = idle; max_effort_pct = fill doubles.zero }

  -- The two joint controllers, with everything that they remember, and their configurations.
  pub record Controllers : Type 1 where
    pub State : Type 0
    pub compute_position : Targets → CommandFrames → State → CommandFrames × State
    pub compute_impedance : Targets → Targets → CommandFrames → State → CommandFrames × State
    pub reset_position : State → State
    pub reset_impedance : State → State

  abbrev pub is_joint_position : ControllerCommand → Bool
  is_joint_position (joint_position target) = true
  is_joint_position _ = false

  abbrev pub is_joint_impedance : ControllerCommand → Bool
  is_joint_impedance (joint_impedance target) = true
  is_joint_impedance _ = false

  -- `CommandFrames{}` with the effort caps.
  abbrev pub capped_frames : Targets → CommandFrames
  capped_frames max_effort_pct = record no_command_frames {
    max_effort = λ i. doubles.to_int16 (max_effort_pct i);
  }

  module _ (controllers : Controllers) where
    -- The chain of get_if over the kind of command.
    unfoldable pub controller_frames :
        ControllerCommand → Targets → controllers.State → CommandFrames × controllers.State
    controller_frames (actuator_position target) caps s = (
      record (capped_frames caps) {
        mode_of_operation = fill csp_mode;
        target_position = λ i. doubles.to_int32 (target i);
      },
      s,
    )
    controller_frames (actuator_effort target) caps s = (
      record (capped_frames caps) {
        mode_of_operation = fill cst_mode;
        target_effort =
            λ i. doubles.to_int16 (doubles.clamp (target i) (doubles.negate (caps i)) (caps i));
      },
      s,
    )
    controller_frames (joint_position target) caps s =
        controllers.compute_position target (capped_frames caps) s
    controller_frames (joint_impedance target) caps s =
        controllers.compute_impedance target caps (capped_frames caps) s
    controller_frames idle caps s = (
      record (capped_frames caps) { mode_of_operation = fill cst_mode; target_effort = fill 0 },
      s,
    )

    -- An inactive controller restarts clean.
    unfoldable pub reset_inactive : ControllerCommand → controllers.State → controllers.State
    reset_inactive command s =
        let t = if is_joint_position command then s else controllers.reset_position s in
        if is_joint_impedance command then t else controllers.reset_impedance t

    abbrev pub is_masked : ActuatorHealth → ℕ → Bool
    is_masked health i = not (health.fault i == 0) || not (health.enabled i)

    -- The loop over the masked actuators.
    unfoldable pub mask_frames : ActuatorState → ActuatorHealth → CommandFrames → CommandFrames
    mask_frames actuators health frames = record frames {
      target_position = λ i.
          if is_masked health i
          then if frames.mode_of_operation i == csp_mode
            then actuators.position_count i
            else frames.target_position i
          else frames.target_position i;
      target_effort = λ i.
          if is_masked health i
          then if frames.mode_of_operation i == csp_mode then frames.target_effort i else 0
          else frames.target_effort i;
    }

    unfoldable pub command_to_frames :
        HandCommand
        → ActuatorState
        → ActuatorHealth
        → controllers.State
        → CommandFrames × controllers.State
    command_to_frames command actuators health s =
        let (frames, t) = controller_frames command.controller command.max_effort_pct s in
        (mask_frames actuators health frames, reset_inactive command.controller t)

  -- ControllerOutput of state.hpp.
  pub data ControllerOutput : Type 0 where
    no_output : ControllerOutput
    position_setpoint : Targets → ControllerOutput
    effort_setpoint : Targets → ControllerOutput

  pub record CommandedState : Type 0 where
    pub controller_input : ControllerCommand
    pub controller_output : ControllerOutput
    pub max_effort_pct : Targets

  unfoldable pub fill_commanded : HandCommand → CommandFrames → Bool → CommandedState
  fill_commanded command frames output_available = record {
    controller_input = command.controller;
    max_effort_pct = command.max_effort_pct;
    controller_output =
        if not output_available
        then no_output
        else if frames.mode_of_operation 0 == csp_mode
        then position_setpoint (λ i. doubles.of_int32 (frames.target_position i))
        else effort_setpoint (λ i. doubles.of_int16 (frames.target_effort i));
  }
