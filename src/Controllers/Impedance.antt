-- ===== src/Controllers/Impedance.antt =====
-- `JointImpedanceController` (joint_impedance_controller.{hpp,cpp}). The inverse kinematics is an
-- argument; a count is its bit pattern.
use aidin_hand2_sdk.Base.{ℕ, ◌+◌, ◌-◌, ◌%◌, ◌^◌, Bool, true, false, if◌then◌else◌}
use aidin_hand2_sdk.Base.Arrays.{Array, fill}
use aidin_hand2_sdk.Protocol.Frames.{CommandFrames, cst_mode}
use aidin_hand2_sdk.Controllers.Position.{ControlDoubles}

module _ (doubles : ControlDoubles) where
  open doubles use {
    Double, nought, billion, sub, mul, div, negate, clamp, of_long, of_int32, to_int16,
  }

  pub record ImpedanceConfig : Type 0 where
    pub stiffness : Array Double
    pub damping : Array Double

  pub record ImpedanceController : Type 0 where
    pub dt_seconds : Double
    pub previous_position_count : Array ℕ
    pub have_previous : Bool

  unfoldable pub new_impedance_controller : ℕ → ImpedanceController
  new_impedance_controller period_nanoseconds = record {
    dt_seconds = div (of_long period_nanoseconds) billion;
    previous_position_count = fill 0;
    have_previous = false;
  }

  unfoldable pub reset_impedance : ImpedanceController → ImpedanceController
  reset_impedance c = record c { have_previous = false }

  -- The difference of two int32_t, as a double.
  abbrev pub count_difference : ℕ → ℕ → Double
  count_difference a b = of_int32 ((a + 2 ^ 32 - b) % 2 ^ 32)

  unfoldable pub effort_of : ImpedanceConfig → Array ℕ → Array ℕ → ImpedanceController → ℕ → Double
  effort_of config desired position c i =
      let error = sub (of_int32 (desired i)) (of_int32 (position i)) in
      let velocity =
        if c.have_previous
        then div (count_difference (position i) (c.previous_position_count i)) c.dt_seconds
        else nought in
      sub (mul (config.stiffness i) error) (mul (config.damping i) velocity)

  unfoldable pub compute_impedance :
      (Array Double → Array ℕ)
      → Array Double
      → ImpedanceConfig
      → Array ℕ
      → Array Double
      → CommandFrames
      → ImpedanceController
      → ImpedanceController × CommandFrames
  compute_impedance ik target config position max_effort frames c =
      let desired = ik target in
      (
        record c { previous_position_count = position; have_previous = true },
        record frames {
          mode_of_operation = fill cst_mode;
          target_effort = λ i. to_int16 (
              clamp (effort_of config desired position c i) (negate (max_effort i)) (max_effort i));
        },
      )
