-- ===== src/JointClamp/Bounds.antt =====
-- The ranges that the clamped targets lie in (joint_clamp.cpp).
use aidin_hand2_sdk.Base.{ℕ, ◌<◌, ◌≡◌, true, false, arith, ◌⊎◌}
use aidin_hand2_sdk.Base.Arrays.{Array}
use aidin_hand2_sdk.JointClamp.Reals.{Reals, max, clamp, IsAsymmetric, less-irreflexive}
use aidin_hand2_sdk.JointClamp.Tables.{HandType}
use aidin_hand2_sdk.JointClamp.Targets.{
  nought, long_distal_floor_rad, abduction_slot, flexion_slot, distal_slot,
  clamp_active_joint_targets,
}
use aidin_hand2_sdk.JointClamp.Slots.{
  long_pair, in_range, limit_rad, raised, clamp_active_joint_targets-slots,
}

module _ (reals : Reals) where
  open reals use {Real, less}

  abbrev pub IsWithin : Real → Real → Real → Type 0
  IsWithin low high x = (less x low ≡ false) × (less high x ≡ false)

  -- The three limits, in rad, are not negative.
  pub record HasLimits (hand : HandType reals) : Type 0 where
    pub thumb_j0 : less (limit_rad reals hand.thumb_j0_max_deg) (nought reals) ≡ false
    pub thumb_j3 : less (limit_rad reals hand.thumb_j3_max_deg) (nought reals) ≡ false
    pub long_distal : less (limit_rad reals hand.long_distal_max_deg) (nought reals) ≡ false

  clamp-IsWithin :
      IsAsymmetric reals
      → (low high x : Real) → less high low ≡ false
      → IsWithin low high (clamp reals x low high)
  unfolding clamp
  clamp-IsWithin asymmetric low high x valid = (
    ground (arith, less-irreflexive reals asymmetric low),
    ground (arith, less-irreflexive reals asymmetric high),
  )

  max-not_below : IsAsymmetric reals → (a b : Real) → less (max reals a b) a ≡ false
  unfolding max
  max-not_below asymmetric a b = ground (arith, less-irreflexive reals asymmetric a, asymmetric a b)

  floor-not_negative :
      IsAsymmetric reals
      → (x y : Real) → less (long_distal_floor_rad reals x y) (nought reals) ≡ false
  unfolding long_distal_floor_rad
  floor-not_negative asymmetric x y = max-not_below asymmetric _ _

  -- A j3 in its range that is raised to the floor of its pair.
  raised-bounds :
      IsAsymmetric reals
      → (hand : HandType reals) (floor_rad x : Real) → less floor_rad (nought reals) ≡ false
      → IsWithin (nought reals) (limit_rad reals hand.long_distal_max_deg) x
      → let d = raised reals hand floor_rad x in
        (less d (nought reals) ≡ false)
        × (hand.long_distal_floor_applies ≡ true → less d floor_rad ≡ false)
        × ((less (limit_rad reals hand.long_distal_max_deg) d ≡ false) ⊎ (d ≡ floor_rad))
  raised-bounds asymmetric hand floor_rad x valid within =
      ground (arith, less-irreflexive reals asymmetric floor_rad)

  -- In every order that holds no two numbers below each other, and with limits that are not negative:
  -- the thumb's j0 and j3 end between 0 and their limits. The j3 of a long finger ends at 0 or above;
  -- where the hand has a floor, not below the floor of the finger's clamped pair; and not above its
  -- limit, unless it is at that floor.
  pub clamp_active_joint_targets-bounds :
      IsAsymmetric reals
      → (hand : HandType reals) → HasLimits hand
      → (target : Array Real) (k : ℕ) → k < 4
      → let r = clamp_active_joint_targets reals hand target in
        let j3 = r (distal_slot reals k) in
        let floor_rad =
          long_distal_floor_rad reals (r (flexion_slot reals k)) (r (abduction_slot reals k)) in
        IsWithin (nought reals) (limit_rad reals hand.thumb_j0_max_deg) (r 0)
        × IsWithin (nought reals) (limit_rad reals hand.thumb_j3_max_deg) (r 3)
        × (less j3 (nought reals) ≡ false)
        × (hand.long_distal_floor_applies ≡ true → less j3 floor_rad ≡ false)
        × ((less (limit_rad reals hand.long_distal_max_deg) j3 ≡ false) ⊎ (j3 ≡ floor_rad))
  clamp_active_joint_targets-bounds asymmetric hand limits target k lt =
      let (j0, _, _, j3, flexion, abduction, distal) =
        clamp_active_joint_targets-slots reals hand target k lt in
      let within = clamp-IsWithin asymmetric (nought reals) in
      let pair = long_pair reals hand target k in
      let x = in_range reals hand.long_distal_max_deg (target (distal_slot reals k)) in
      let (not_negative, not_below, not_above) =
        raised-bounds asymmetric hand (long_distal_floor_rad reals pair.flexion pair.abduction) x
          (floor-not_negative asymmetric pair.flexion pair.abduction)
          (within _ (target (distal_slot reals k)) limits.long_distal) in
      rw (j0, j3, flexion, abduction, distal)
        (
          within _ (target 0) limits.thumb_j0,
          within _ (target 3) limits.thumb_j3,
          not_negative,
          not_below,
          not_above,
        )
