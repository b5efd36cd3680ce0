-- ===== src/JointClamp/Finger.antt =====
-- `clamp_finger_workspace` of joint_clamp.cpp: one finger's abduction and flexion, pulled to the
-- boundary of its workspace.
use aidin_hand2_sdk.Base.{ℕ, Bool, true, false, ◌&&◌, if◌then◌else◌, List, [], ◌∷◌}
use aidin_hand2_sdk.Base.Arrays.{Array, set}
use aidin_hand2_sdk.JointClamp.Reals.{Reals, max, clamp}
use aidin_hand2_sdk.JointClamp.Tables.{line, arc, BoundaryPiece}

module _ (reals : Reals) where
  open reals use {Real, decimal, zero, add, sub, mul, div, less, at_most, fabs, sqrt}

  -- kDeg2Rad and kToleranceDeg.
  abbrev pub deg2rad : Real
  deg2rad = div (decimal false 314159265358979323846 20) (decimal false 180 0)

  abbrev pub tolerance_deg : Real
  tolerance_deg = decimal false 1 9

  abbrev pub one : Real
  one = decimal false 1 0

  abbrev pub minus_one : Real
  minus_one = decimal true 1 0

  abbrev square : Real → Real
  square x = mul x x

  -- abduction_limit_deg of one piece.
  unfoldable pub abduction_limit : BoundaryPiece reals → Real → Real
  abduction_limit piece flexion_deg = elim piece.kind [
    | line ↦
        let along_ratio =
          div (sub flexion_deg piece.flexion_lo_deg)
            (sub piece.flexion_hi_deg piece.flexion_lo_deg) in
        add piece.abduction_lo_deg
          (mul along_ratio (sub piece.abduction_hi_deg piece.abduction_lo_deg))
    | arc ↦
        let flexion_from_center = sub flexion_deg piece.arc_center_flexion_deg in
        let under_root = sub (square piece.arc_signed_radius_deg) (square flexion_from_center) in
        add piece.arc_center_abduction_deg (
          mul (if less zero piece.arc_signed_radius_deg then one else minus_one)
            (sqrt (if less under_root zero then zero else under_root)))
  ]

  -- The first loop: the piece whose range holds the flexion decides.
  unfoldable pub is_inside : List (BoundaryPiece reals) → Real → Real → Bool
  is_inside [] flexion_deg abduction_deg = false
  is_inside (piece ∷ pieces) flexion_deg abduction_deg =
      let rest = is_inside pieces flexion_deg abduction_deg in
      if less (add piece.flexion_hi_deg tolerance_deg) flexion_deg
      then rest
      else at_most abduction_deg (add (abduction_limit piece flexion_deg) tolerance_deg)

  -- Flexion and abduction of a point.
  pub record Point : Type 0 where
    pub flexion : Real
    pub abduction : Real

  abbrev pub distance : Real → Real → Point → Real
  distance flexion_deg abduction_deg q =
      add (square (sub flexion_deg q.flexion)) (square (sub abduction_deg q.abduction))

  -- The nearest point of a segment.
  unfoldable pub on_line : BoundaryPiece reals → Real → Real → Point
  on_line piece flexion_deg abduction_deg =
      let along_flexion = sub piece.flexion_hi_deg piece.flexion_lo_deg in
      let along_abduction = sub piece.abduction_hi_deg piece.abduction_lo_deg in
      let dot_product =
        add (mul (sub flexion_deg piece.flexion_lo_deg) along_flexion)
          (mul (sub abduction_deg piece.abduction_lo_deg) along_abduction) in
      let along_length = add (square along_flexion) (square along_abduction) in
      let along_ratio = clamp reals (div dot_product along_length) zero one in
      record {
        flexion = add piece.flexion_lo_deg (mul along_ratio along_flexion);
        abduction = add piece.abduction_lo_deg (mul along_ratio along_abduction);
      }

  -- The knot that is nearer.
  unfoldable pub nearer_knot : BoundaryPiece reals → Real → Real → Point
  nearer_knot piece flexion_deg abduction_deg =
      let low : Point = record {
        flexion = piece.flexion_lo_deg;
        abduction = piece.abduction_lo_deg;
      } in
      let high : Point = record {
        flexion = piece.flexion_hi_deg;
        abduction = piece.abduction_hi_deg;
      } in
      if less (distance flexion_deg abduction_deg high) (distance flexion_deg abduction_deg low)
      then high
      else low

  -- The radial foot where it falls on the arc, a knot otherwise.
  unfoldable pub on_arc : BoundaryPiece reals → Real → Real → Point
  on_arc piece flexion_deg abduction_deg =
      let flexion_from_center = sub flexion_deg piece.arc_center_flexion_deg in
      let abduction_from_center = sub abduction_deg piece.arc_center_abduction_deg in
      let scale_to_circle =
        div (fabs piece.arc_signed_radius_deg)
          (sqrt (add (square flexion_from_center) (square abduction_from_center))) in
      let foot : Point = record {
        flexion = add piece.arc_center_flexion_deg (mul flexion_from_center scale_to_circle);
        abduction = add piece.arc_center_abduction_deg (mul abduction_from_center scale_to_circle);
      } in
      if less zero (mul abduction_from_center piece.arc_signed_radius_deg)
        && at_most (sub piece.flexion_lo_deg tolerance_deg) foot.flexion
        && at_most foot.flexion (add piece.flexion_hi_deg tolerance_deg)
      then foot
      else nearer_knot piece flexion_deg abduction_deg

  unfoldable pub candidate : BoundaryPiece reals → Real → Real → Point
  candidate piece flexion_deg abduction_deg = elim piece.kind [
    | line ↦ on_line piece flexion_deg abduction_deg
    | arc ↦ on_arc piece flexion_deg abduction_deg
  ]

  -- The second loop, from the nearest point so far.
  unfoldable pub nearest_from : List (BoundaryPiece reals) → Real → Real → Point → Point
  nearest_from [] flexion_deg abduction_deg nearest = nearest
  nearest_from (piece ∷ pieces) flexion_deg abduction_deg nearest =
      let q = candidate piece flexion_deg abduction_deg in
      nearest_from pieces flexion_deg abduction_deg (
        if less (distance flexion_deg abduction_deg q) (distance flexion_deg abduction_deg nearest)
        then q
        else nearest)

  -- boundary[PieceCount - 1].flexion_hi_deg.
  abbrev pub last_knot : List (BoundaryPiece reals) → Real
  last_knot [] = zero
  last_knot (piece ∷ []) = piece.flexion_hi_deg
  last_knot (piece ∷ other ∷ pieces) = last_knot (other ∷ pieces)

  -- The floor of zero abduction past the last knot.
  abbrev pub floor_point : List (BoundaryPiece reals) → Real → Real → Point
  floor_point boundary flexion_max_deg flexion_deg = record {
    flexion = clamp reals flexion_deg (last_knot boundary) flexion_max_deg;
    abduction = zero;
  }

  -- The flexion and the abduction that a finger is left with, in rad.
  unfoldable pub clamp_pair : List (BoundaryPiece reals) → Real → Real → Real → Point
  clamp_pair boundary flexion_max_deg flexion_rad abduction_rad =
      let flexion_deg = max reals zero (div flexion_rad deg2rad) in
      let commanded = div abduction_rad deg2rad in
      let abduction_deg = fabs commanded in
      let abduction_sign = if less commanded zero then minus_one else one in
      let nearest =
        nearest_from boundary flexion_deg abduction_deg
          (floor_point boundary flexion_max_deg flexion_deg) in
      let nearest_abduction = if less nearest.abduction zero then zero else nearest.abduction in
      if is_inside boundary flexion_deg abduction_deg
      then record {
        flexion = if less flexion_rad zero then zero else flexion_rad;
        abduction = abduction_rad;
      }
      else record {
        flexion = mul nearest.flexion deg2rad;
        abduction = mul (mul abduction_sign nearest_abduction) deg2rad;
      }

  unfoldable pub clamp_finger_workspace :
      ℕ → ℕ → List (BoundaryPiece reals) → Real → Array Real → Array Real
  clamp_finger_workspace abduction_slot flexion_slot boundary flexion_max_deg target =
      let p = clamp_pair boundary flexion_max_deg (target flexion_slot) (target abduction_slot) in
      set (set target flexion_slot p.flexion) abduction_slot p.abduction
