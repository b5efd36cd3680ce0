-- ===== src/Controllers/Position.antt =====
-- `JointPositionController` (joint_position_controller.{hpp,cpp}): the deadband, the low-pass and the
-- position frames. The inverse kinematics is an argument.
use aidin_hand2_sdk.Base.{ℕ, Bool, not, ◌==◌, if◌then◌else◌}
use aidin_hand2_sdk.Base.Arrays.{Array, fill}
use aidin_hand2_sdk.Protocol.Frames.{CommandFrames, csp_mode}

-- `double` with the arithmetic, the comparisons and the functions of <cmath> that the controllers use.
-- `of_int32` reads a bit pattern, `to_int16` gives one.
pub record ControlDoubles : Type 1 where
  pub Double : Type 0
  pub nought : Double
  pub one : Double
  pub two : Double
  pub billion : Double
  pub pi : Double
  pub quiet_nan : Double
  pub add : Double → Double → Double
  pub sub : Double → Double → Double
  pub mul : Double → Double → Double
  pub div : Double → Double → Double
  pub negate : Double → Double
  pub exp : Double → Double
  pub abs : Double → Double
  pub less : Double → Double → Bool
  pub at_least : Double → Double → Bool
  pub equal : Double → Double → Bool
  pub is_nan : Double → Bool
  pub is_finite : Double → Bool
  pub clamp : Double → Double → Double → Double
  pub of_long : ℕ → Double
  pub of_int32 : ℕ → Double
  pub to_int16 : Double → ℕ

module _ (doubles : ControlDoubles) where
  open doubles use {
    Double, nought, one, two, billion, pi, quiet_nan, add, sub, mul, div, negate, exp, abs, less,
    at_least, equal, is_nan, is_finite, of_long,
  }

  -- The 16 active ones of the 21 joints: each finger's last entry is left out.
  unfoldable pub active_joint : ℕ → ℕ
  active_joint i =
      if i == 0
      then 0
      else if i == 1
      then 1
      else if i == 2
      then 2
      else if i == 3
      then 3
      else if i == 4
      then 5
      else if i == 5
      then 6
      else if i == 6
      then 7
      else if i == 7
      then 9
      else if i == 8
      then 10
      else if i == 9
      then 11
      else if i == 10
      then 13
      else if i == 11
      then 14
      else if i == 12
      then 15
      else if i == 13
      then 17
      else if i == 14
      then 18
      else 19

  unfoldable pub active_joints_of : Array Double → Array Double
  active_joints_of joints i = joints (active_joint i)

  unfoldable pub lowpass_alpha : Double → Double → Double
  lowpass_alpha cutoff_freq dt_seconds =
      if not (less nought cutoff_freq)
      then one
      else sub one (exp (mul (mul (mul (negate dt_seconds) two) pi) cutoff_freq))

  pub record PositionConfig : Type 0 where
    pub filter_enabled : Bool
    pub cutoff_freq : Double
    pub deadband : Double

  -- The three sections of the low-pass of one joint.
  pub record Sections : Type 0 where
    pub first : Double
    pub second : Double
    pub third : Double

  pub record PositionController : Type 0 where
    pub dt_seconds : Double
    pub cutoff_freq : Double
    pub alpha : Double
    pub held : Array Double
    pub section : Array Sections

  abbrev pub filled : Double → Sections
  filled v = record { first = v; second = v; third = v }

  unfoldable pub reset_position : PositionController → PositionController
  reset_position c = record c { held = fill quiet_nan }

  unfoldable pub new_position_controller : ℕ → PositionController
  new_position_controller period_nanoseconds = reset_position (record {
    dt_seconds = div (of_long period_nanoseconds) billion;
    cutoff_freq = negate one;
    alpha = one;
    held = fill nought;
    section = fill (filled nought);
  })

  -- The loop's body, on the held target and the sections of one joint.
  unfoldable pub seed : Double → Double → Double
  seed measured target = if is_finite measured then measured else target

  unfoldable pub accept : Double → Double → Double → Double
  accept deadband target held = if at_least (abs (sub target held)) deadband then target else held

  unfoldable pub low_pass : Double → Double → Sections → Sections
  low_pass alpha held s =
      let first = add s.first (mul alpha (sub held s.first)) in
      let second = add s.second (mul alpha (sub first s.second)) in
      let third = add s.third (mul alpha (sub second s.third)) in
      if at_least alpha one
      then filled held
      else record { first = first; second = second; third = third }

  unfoldable pub step_joint :
      Double → Double → Double → Double → Double × Sections → Double × Sections
  step_joint deadband alpha measured target (held, sections) =
      let start = seed measured target in
      let seeded = if is_nan held then start else held in
      let accepted = accept deadband target seeded in
      (accepted, low_pass alpha accepted (if is_nan held then filled start else sections))

  -- The alpha of a new cutoff is derived once.
  unfoldable pub derive_alpha : Double → PositionController → PositionController
  derive_alpha cutoff c =
      if not (equal cutoff c.cutoff_freq)
      then record c { cutoff_freq = cutoff; alpha = lowpass_alpha cutoff c.dt_seconds }
      else c

  -- The filtered targets.
  unfoldable pub filter :
      Array Double
      → PositionConfig
      → Array Double
      → PositionController
      → PositionController × Array Double
  filter target config joints controller =
      let c = derive_alpha config.cutoff_freq controller in
      let deadband = if config.filter_enabled then config.deadband else nought in
      let alpha = if config.filter_enabled then c.alpha else one in
      let measured = active_joints_of joints in
      let stepped =
        λ (i : ℕ). step_joint deadband alpha (measured i) (target i) (c.held i, c.section i) in
      (
        record c { held = λ i. (stepped i).0; section = λ i. (stepped i).1 },
        λ i. (stepped i).1.third,
      )

  unfoldable pub compute_position :
      (Array Double → Array ℕ)
      → Array Double
      → PositionConfig
      → Array Double
      → CommandFrames
      → PositionController
      → PositionController × CommandFrames
  compute_position ik target config joints frames controller =
      let (after, filtered) = filter target config joints controller in
      let actuator_cnt = ik filtered in
      (after, record frames { mode_of_operation = fill csp_mode; target_position = actuator_cnt })
