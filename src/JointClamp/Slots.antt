-- ===== src/JointClamp/Slots.antt =====
-- Which targets each slot's clamped one depends on (joint_clamp.cpp): the passes over the array in
-- place act on each finger by itself.
use aidin_hand2_sdk.Base.{
  ℕ, zero, suc, ◌<◌, ◌≡◌, refl, ◌∙◌, Bool, true, false, ◌==◌, if◌then◌else◌, arith, inl, inr,
  Bool-cases,
}
use aidin_hand2_sdk.Base.Arrays.{Array}
use aidin_hand2_sdk.JointClamp.Reals.{Reals, clamp}
use aidin_hand2_sdk.JointClamp.Tables.{HandType}
use aidin_hand2_sdk.JointClamp.Finger.{deg2rad, Point, clamp_pair, clamp_finger_workspace}
use aidin_hand2_sdk.JointClamp.Targets.{
  nought, long_distal_floor_rad, abduction_slot, flexion_slot, distal_slot, clamp_pairs, clamp_slot,
  clamp_singles, raise_distal, clamp_active_joint_targets,
}

pub below_four {ℓ} : (P : ℕ → Type ℓ) → P 0 → P 1 → P 2 → P 3 → (k : ℕ) → k < 4 → P k
below_four P a b c d zero lt = a
below_four P a b c d (suc zero) lt = b
below_four P a b c d (suc (suc zero)) lt = c
below_four P a b c d (suc (suc (suc zero))) lt = d
below_four P a b c d (suc (suc (suc (suc k)))) lt = absurd (omega arith)

if_same {ℓ} : {A : Type ℓ} (b : Bool) {x y : A} → x ≡ y → (if b then x else y) ≡ y
if_same true e = e
if_same false e = refl

module _ (reals : Reals) where
  open reals use {Real, less, mul}

  -- The pair that a finger's own two targets are clamped to.
  abbrev pub thumb_pair : HandType reals → Array Real → Point reals
  thumb_pair hand target =
      clamp_pair reals hand.thumb_boundary hand.thumb_flexion_max_deg (target 1) (target 2)

  abbrev pub long_pair : HandType reals → Array Real → ℕ → Point reals
  long_pair hand target k =
      clamp_pair reals hand.long_boundary hand.long_flexion_max_deg (target (flexion_slot reals k))
        (target (abduction_slot reals k))

  -- A target in the range from 0 to a limit in degrees.
  abbrev pub in_range : Real → Real → Real
  in_range limit_deg x = clamp reals x (nought reals) (mul limit_deg (deg2rad reals))

  abbrev pub limit_rad : Real → Real
  limit_rad limit_deg = mul limit_deg (deg2rad reals)

  -- What a long finger's j3 is raised to, where the hand has a floor.
  abbrev pub raised : HandType reals → Real → Real → Real
  raised hand floor_rad x =
      if hand.long_distal_floor_applies then if less x floor_rad then floor_rad else x else x

  raise_distal-own :
      (k : ℕ) (t : Array Real)
      → let floor_rad =
          long_distal_floor_rad reals (t (flexion_slot reals k)) (t (abduction_slot reals k)) in
        raise_distal reals k t (distal_slot reals k)
        ≡ (if less (t (distal_slot reals k)) floor_rad then floor_rad else t (distal_slot reals k))
  unfolding raise_distal
  raise_distal-own k t = ground arith

  raise_distal-other :
      (k : ℕ) (t : Array Real) (slot : ℕ)
      → (slot == distal_slot reals k) ≡ false
      → raise_distal reals k t slot ≡ t slot
  unfolding raise_distal
  raise_distal-other k t slot other = ground arith

  abbrev bounded : HandType reals → Array Real → Array Real
  bounded hand target = clamp_singles reals hand (clamp_pairs reals hand target)

  abbrev HasSlots : HandType reals → Array Real → ℕ → Type 0
  HasSlots hand target k =
      let b = bounded hand target in
      (b (flexion_slot reals k) ≡ (long_pair hand target k).flexion)
      × (b (abduction_slot reals k) ≡ (long_pair hand target k).abduction)
      × (b (distal_slot reals k) ≡ in_range hand.long_distal_max_deg (target (distal_slot reals k)))

  bounded-HasSlots :
      (hand : HandType reals) (target : Array Real) (k : ℕ) → k < 4 → HasSlots hand target k
  unfolding clamp_pairs clamp_finger_workspace clamp_singles clamp_slot
  bounded-HasSlots hand target =
      below_four (HasSlots hand target) (refl, refl, refl) (refl, refl, refl) (refl, refl, refl)
        (refl, refl, refl)

  abbrev raise_all : Array Real → Array Real
  raise_all t =
      raise_distal reals 3 (raise_distal reals 2 (raise_distal reals 1 (raise_distal reals 0 t)))

  -- A slot that is no j3 keeps its target.
  raise_all-other :
      (t : Array Real) (slot : ℕ)
      → (slot == 6) ≡ false
      → (slot == 9) ≡ false
      → (slot == 12) ≡ false
      → (slot == 15) ≡ false
      → raise_all t slot ≡ t slot
  raise_all-other t slot a b c d =
      rw
        (
          raise_distal-other 3 _ slot d,
          raise_distal-other 2 _ slot c,
          raise_distal-other 1 _ slot b,
          raise_distal-other 0 _ slot a,
        )
        refl

  -- One pass raises its own j3, from an array that agrees there with the first one.
  raise_distal-agrees :
      (k : ℕ) (t u : Array Real)
      → u (flexion_slot reals k) ≡ t (flexion_slot reals k)
      → u (abduction_slot reals k) ≡ t (abduction_slot reals k)
      → u (distal_slot reals k) ≡ t (distal_slot reals k)
      → raise_distal reals k u (distal_slot reals k) ≡ raise_distal reals k t (distal_slot reals k)
  raise_distal-agrees k t u f a d = rw (raise_distal-own k u, raise_distal-own k t, f, a, d) refl

  raise_all-own :
      (t : Array Real) (k : ℕ)
      → k < 4
      → raise_all t (distal_slot reals k) ≡ raise_distal reals k t (distal_slot reals k)
  raise_all-own t =
      let other = raise_distal-other in
      let first = raise_distal reals 0 t in
      let second = raise_distal reals 1 first in
      let third = raise_distal reals 2 second in
      below_four
        (λ k. raise_all t (distal_slot reals k) ≡ raise_distal reals k t (distal_slot reals k))
        (other 3 third 6 refl ∙ other 2 second 6 refl ∙ other 1 first 6 refl)
        (other 3 third 9 refl
          ∙ other 2 second 9 refl
          ∙ raise_distal-agrees 1 t first (other 0 t 8 refl) (other 0 t 7 refl) (other 0 t 9 refl))
        (other 3 third 12 refl
          ∙ raise_distal-agrees 2 t second (other 1 first 11 refl ∙ other 0 t 11 refl)
              (other 1 first 10 refl ∙ other 0 t 10 refl)
              (other 1 first 12 refl ∙ other 0 t 12 refl))
        (raise_distal-agrees 3 t third
          (other 2 second 14 refl ∙ other 1 first 14 refl ∙ other 0 t 14 refl)
          (other 2 second 13 refl ∙ other 1 first 13 refl ∙ other 0 t 13 refl)
          (other 2 second 15 refl ∙ other 1 first 15 refl ∙ other 0 t 15 refl))

  bounded-thumb :
      (hand : HandType reals) (target : Array Real)
      → let b = bounded hand target in
        (b 0 ≡ in_range hand.thumb_j0_max_deg (target 0))
        × (b 1 ≡ (thumb_pair hand target).flexion)
        × (b 2 ≡ (thumb_pair hand target).abduction)
        × (b 3 ≡ in_range hand.thumb_j3_max_deg (target 3))
  unfolding clamp_pairs clamp_finger_workspace clamp_singles clamp_slot
  bounded-thumb hand target = (refl, refl, refl, refl)

  clamp-at :
      (hand : HandType reals) (target : Array Real) (slot : ℕ)
      → clamp_active_joint_targets reals hand target slot ≡ (
          if hand.long_distal_floor_applies
          then raise_all (bounded hand target) slot
          else bounded hand target slot)
  unfolding clamp_active_joint_targets
  clamp-at hand target slot = elim (Bool-cases hand.long_distal_floor_applies) [
    | inl e ↦ rw e refl
    | inr e ↦ rw e refl
  ]

  clamp-other :
      (hand : HandType reals) (target : Array Real) (slot : ℕ)
      → (slot == 6) ≡ false
      → (slot == 9) ≡ false
      → (slot == 12) ≡ false
      → (slot == 15) ≡ false
      → clamp_active_joint_targets reals hand target slot ≡ bounded hand target slot
  clamp-other hand target slot a b c d =
      clamp-at hand target slot
      ∙ if_same hand.long_distal_floor_applies (raise_all-other (bounded hand target) slot a b c d)

  abbrev IsFinal : HandType reals → Array Real → ℕ → Type 0
  IsFinal hand target k =
      let r = clamp_active_joint_targets reals hand target in
      let b = bounded hand target in
      (r (flexion_slot reals k) ≡ b (flexion_slot reals k))
      × (r (abduction_slot reals k) ≡ b (abduction_slot reals k))

  clamp-pairs_stay :
      (hand : HandType reals) (target : Array Real) (k : ℕ) → k < 4 → IsFinal hand target k
  clamp-pairs_stay hand target =
      let other = clamp-other hand target in
      below_four (IsFinal hand target) (other 5 refl refl refl refl, other 4 refl refl refl refl)
        (other 8 refl refl refl refl, other 7 refl refl refl refl)
        (other 11 refl refl refl refl, other 10 refl refl refl refl)
        (other 14 refl refl refl refl, other 13 refl refl refl refl)

  -- For every hand type and all targets: each finger's pair is clamped as if the others were not
  -- there, the thumb's other two joints and the j3 of a long finger are put into their ranges, and
  -- where the hand has a floor, a j3 below the one of its own clamped pair is raised to it. No pass
  -- undoes another.
  pub clamp_active_joint_targets-slots :
      (hand : HandType reals) (target : Array Real) (k : ℕ)
      → k < 4
      → let r = clamp_active_joint_targets reals hand target in
        let thumb = thumb_pair hand target in
        let pair = long_pair hand target k in
        let floor_rad = long_distal_floor_rad reals pair.flexion pair.abduction in
        (r 0 ≡ in_range hand.thumb_j0_max_deg (target 0))
        × (r 1 ≡ thumb.flexion)
        × (r 2 ≡ thumb.abduction)
        × (r 3 ≡ in_range hand.thumb_j3_max_deg (target 3))
        × (r (flexion_slot reals k) ≡ pair.flexion)
        × (r (abduction_slot reals k) ≡ pair.abduction)
        × (r (distal_slot reals k)
            ≡ raised hand floor_rad
                (in_range hand.long_distal_max_deg (target (distal_slot reals k))))
  clamp_active_joint_targets-slots hand target k lt =
      let other = clamp-other hand target in
      let (j0, flexion, abduction, j3) = bounded-thumb hand target in
      let (f, a, d) = bounded-HasSlots hand target k lt in
      let (keeps_f, keeps_a) = clamp-pairs_stay hand target k lt in
      let b = bounded hand target in
      (
        other 0 refl refl refl refl ∙ j0,
        other 1 refl refl refl refl ∙ flexion,
        other 2 refl refl refl refl ∙ abduction,
        other 3 refl refl refl refl ∙ j3,
        keeps_f ∙ f,
        keeps_a ∙ a,
        rw
            (
              clamp-at hand target (distal_slot reals k),
              raise_all-own b k lt,
              raise_distal-own k b,
              f,
              a,
              d,
            )
            refl,
      )
