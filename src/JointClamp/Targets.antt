-- ===== src/JointClamp/Targets.antt =====
-- `clamp_active_joint_targets` of joint_clamp.cpp, with the floor of the long j3: what
-- `JointPositionCommand::clamp` and `JointImpedanceCommand::clamp` do to a target.
use aidin_hand2_sdk.Base.{ℕ, zero, suc, ◌+◌, ◌*◌, true, false, if◌then◌else◌, List, [], ◌∷◌}
use aidin_hand2_sdk.Base.Arrays.{Array, set}
use aidin_hand2_sdk.JointClamp.Reals.{Reals, max, clamp}
use aidin_hand2_sdk.JointClamp.Tables.{HandType}
use aidin_hand2_sdk.JointClamp.Finger.{deg2rad, clamp_finger_workspace}

module _ (reals : Reals) where
  open reals use {Real, decimal, add, sub, mul, div, less, sqrt, sin, cos, acos, atan2}

  abbrev pub nought : Real
  nought = reals.zero

  -- kDistalFloorA and kDistalFloorB.
  abbrev distal_floor_a : List Real
  distal_floor_a =
      decimal false 819728 6
      ∷ decimal false 179827 5
      ∷ decimal false 287368 6
      ∷ decimal false 142105 6
      ∷ decimal false 371072 6
      ∷ decimal false 34125 5
      ∷ decimal false 16875 5
      ∷ decimal false 102019 5
      ∷ decimal false 825804 7
      ∷ decimal false 574736 6
      ∷ decimal false 28421 5
      ∷ []

  abbrev distal_floor_b : List Real
  distal_floor_b =
      decimal true 326693 5
      ∷ decimal true 291243 5
      ∷ decimal true 156229 5
      ∷ decimal true 213874 5
      ∷ decimal false 210835 5
      ∷ decimal false 393041 5
      ∷ decimal false 11923 3
      ∷ decimal true 312458 5
      ∷ decimal true 582487 5
      ∷ []

  abbrev constant : List Real → ℕ → Real
  constant [] i = nought
  constant (x ∷ xs) zero = x
  constant (x ∷ xs) (suc i) = constant xs i

  abbrev unit_clamp : Real → Real
  unit_clamp x = clamp reals x (decimal true 1 0) (decimal false 1 0)

  -- From the flexion x and the abduction y, in rad.
  unfoldable pub long_distal_floor_rad : Real → Real → Real
  long_distal_floor_rad x y =
      let a = constant distal_floor_a in
      let b = constant distal_floor_b in
      let beta = sub (a 0) x in
      let cos_y = cos y in
      let lambda =
        sub (add (add (a 1) x) (atan2 (add (sin beta) (mul (a 2) cos_y)) (add (cos beta) (a 3)))) (
          acos (
            unit_clamp (
              div (add (add (a 4) (mul (mul (a 5) (sin beta)) cos_y)) (mul (a 6) (cos beta))) (
                sqrt (
                  add
                    (add (add (a 7) (mul (mul (a 8) cos_y) cos_y))
                      (mul (mul (a 9) (sin beta)) cos_y))
                    (mul (a 10) (cos beta))))))) in
      let phi = add (sub (b 0) (atan2 (add (sin lambda) (b 1)) (add (cos lambda) (b 2)))) (
        acos (
          unit_clamp (
            div (add (add (b 3) (mul (b 4) (cos lambda))) (mul (b 5) (sin lambda)))
              (sqrt (add (add (b 6) (mul (b 7) (cos lambda))) (mul (b 8) (sin lambda))))))) in
      max reals nought phi

  -- kLongDistals: the abduction of the k-th long finger, its flexion and its j3.
  abbrev pub abduction_slot : ℕ → ℕ
  abduction_slot k = 3 * k + 4

  abbrev pub flexion_slot : ℕ → ℕ
  flexion_slot k = 3 * k + 5

  abbrev pub distal_slot : ℕ → ℕ
  distal_slot k = 3 * k + 6

  unfoldable pub clamp_pairs : HandType reals → Array Real → Array Real
  clamp_pairs hand target =
      let long = λ (k : ℕ) (t : Array Real).
        clamp_finger_workspace reals (abduction_slot k) (flexion_slot k) hand.long_boundary
          hand.long_flexion_max_deg t in
      long 3 (
        long 2 (
          long 1 (
            long 0 (
              clamp_finger_workspace reals 2 1 hand.thumb_boundary hand.thumb_flexion_max_deg
                target))))

  unfoldable pub clamp_slot : ℕ → Real → Array Real → Array Real
  clamp_slot slot max_deg target =
      set target slot (clamp reals (target slot) nought (mul max_deg (deg2rad reals)))

  unfoldable pub clamp_singles : HandType reals → Array Real → Array Real
  clamp_singles hand target =
      let distal = λ (k : ℕ). clamp_slot (distal_slot k) hand.long_distal_max_deg in
      distal 3 (
        distal 2 (
          distal 1 (
            distal 0
              (clamp_slot 3 hand.thumb_j3_max_deg (clamp_slot 0 hand.thumb_j0_max_deg target)))))

  unfoldable pub raise_distal : ℕ → Array Real → Array Real
  raise_distal k target =
      let floor_rad = long_distal_floor_rad (target (flexion_slot k)) (target (abduction_slot k)) in
      if less (target (distal_slot k)) floor_rad
      then set target (distal_slot k) floor_rad
      else target

  unfoldable pub clamp_active_joint_targets : HandType reals → Array Real → Array Real
  clamp_active_joint_targets hand target =
      let bounded = clamp_singles hand (clamp_pairs hand target) in
      if hand.long_distal_floor_applies
      then raise_distal 3 (raise_distal 2 (raise_distal 1 (raise_distal 0 bounded)))
      else bounded
