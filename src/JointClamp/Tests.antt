-- ===== src/JointClamp/Tests.antt =====
-- Fixed point numbers of six places in place of double, and a pose with every joint at 200 degrees.
use aidin_hand2_sdk.Base.{
  ℕ, ◌+◌, ◌-◌, ◌*◌, ◌/◌, ◌^◌, ◌≡◌, true, false, ltb, leb, if◌then◌else◌, arith, ◌⊎◌,
}
use aidin_hand2_sdk.Base.Arrays.{Array, fill}
use aidin_hand2_sdk.JointClamp.Reals.{Reals, IsAsymmetric}
use aidin_hand2_sdk.JointClamp.Tables.{type_ab}
use aidin_hand2_sdk.JointClamp.Targets.{long_distal_floor_rad, clamp_active_joint_targets}
use aidin_hand2_sdk.JointClamp.Slots.{
  thumb_pair, long_pair, in_range, limit_rad, raised, clamp_active_joint_targets-slots,
}
use aidin_hand2_sdk.JointClamp.Bounds.{IsWithin, HasLimits, clamp_active_joint_targets-bounds}

-- What is below 0 counts as 0; the angles of the floor are small ones.
abbrev fixed_point : Reals
fixed_point = record {
  Real = ℕ;
  decimal = λ negative digits places. if negative then 0 else digits * 10 ^ 6 / 10 ^ places;
  zero = 0;
  add = λ x y. x + y;
  sub = λ x y. x - y;
  mul = λ x y. x * y / 10 ^ 6;
  div = λ x y. x * 10 ^ 6 / y;
  less = ltb;
  at_most = leb;
  fabs = λ x. x;
  sqrt = λ x. x;
  sin = λ x. x;
  cos = λ x. 10 ^ 6;
  acos = λ x. 10 ^ 6 - x;
  atan2 = λ y x. y;
}

abbrev far_pose : Array ℕ
far_pose = fill 3490658

fixed_point-IsAsymmetric : IsAsymmetric fixed_point
fixed_point-IsAsymmetric x y h = ground arith

type_ab-HasLimits : HasLimits fixed_point (type_ab fixed_point)
type_ab-HasLimits = record {
  thumb_j0 = ground arith;
  thumb_j3 = ground arith;
  long_distal = ground arith;
}

clamp_active_joint_targets-slots_example :
    let hand = type_ab fixed_point in
    let r = clamp_active_joint_targets fixed_point hand far_pose in
    let thumb = thumb_pair fixed_point hand far_pose in
    let pair = long_pair fixed_point hand far_pose 0 in
    let floor_rad = long_distal_floor_rad fixed_point pair.flexion pair.abduction in
    (r 0 ≡ in_range fixed_point hand.thumb_j0_max_deg (far_pose 0))
    × (r 1 ≡ thumb.flexion)
    × (r 2 ≡ thumb.abduction)
    × (r 3 ≡ in_range fixed_point hand.thumb_j3_max_deg (far_pose 3))
    × (r 5 ≡ pair.flexion)
    × (r 4 ≡ pair.abduction)
    × (r 6
        ≡ raised fixed_point hand floor_rad
            (in_range fixed_point hand.long_distal_max_deg (far_pose 6)))
clamp_active_joint_targets-slots_example =
    clamp_active_joint_targets-slots fixed_point (type_ab fixed_point) far_pose 0 (omega arith)

clamp_active_joint_targets-bounds_example :
    let hand = type_ab fixed_point in
    let r = clamp_active_joint_targets fixed_point hand far_pose in
    let floor_rad = long_distal_floor_rad fixed_point (r 5) (r 4) in
    IsWithin fixed_point 0 (limit_rad fixed_point hand.thumb_j0_max_deg) (r 0)
    × IsWithin fixed_point 0 (limit_rad fixed_point hand.thumb_j3_max_deg) (r 3)
    × (ltb (r 6) 0 ≡ false)
    × (hand.long_distal_floor_applies ≡ true → ltb (r 6) floor_rad ≡ false)
    × ((ltb (limit_rad fixed_point hand.long_distal_max_deg) (r 6) ≡ false) ⊎ (r 6 ≡ floor_rad))
clamp_active_joint_targets-bounds_example =
    clamp_active_joint_targets-bounds fixed_point fixed_point-IsAsymmetric (type_ab fixed_point)
      type_ab-HasLimits far_pose 0 (omega arith)
