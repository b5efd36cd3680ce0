-- ===== src/JointClamp/Tables.antt =====
-- The two sets of limits of joint_clamp.cpp: of the hand types a and b, and of type c
-- (AIDIN_HAND2_HAND_TYPE_C).
use aidin_hand2_sdk.Base.{ℕ, Bool, true, false, List, [], ◌∷◌}
use aidin_hand2_sdk.JointClamp.Reals.{Reals}

pub data PieceKind : Type 0 where
  line arc : PieceKind

module _ (reals : Reals) where
  pub record BoundaryPiece : Type 0 where
    pub kind : PieceKind
    pub flexion_lo_deg : reals.Real
    pub flexion_hi_deg : reals.Real
    pub abduction_lo_deg : reals.Real
    pub abduction_hi_deg : reals.Real
    pub arc_center_flexion_deg : reals.Real
    pub arc_center_abduction_deg : reals.Real
    pub arc_signed_radius_deg : reals.Real

  -- The constants under one branch of the #if.
  pub record HandType : Type 0 where
    pub long_boundary : List BoundaryPiece
    pub thumb_boundary : List BoundaryPiece
    pub long_flexion_max_deg : reals.Real
    pub thumb_flexion_max_deg : reals.Real
    pub long_distal_max_deg : reals.Real
    pub thumb_j3_max_deg : reals.Real
    pub thumb_j0_max_deg : reals.Real
    pub long_distal_floor_applies : Bool

  abbrev degrees : ℕ → ℕ → reals.Real
  degrees = reals.decimal false

  abbrev minus : ℕ → ℕ → reals.Real
  minus = reals.decimal true

  abbrev piece :
      PieceKind
      → reals.Real
      → reals.Real
      → reals.Real
      → reals.Real
      → reals.Real
      → reals.Real
      → reals.Real
      → BoundaryPiece
  piece kind from to low high flexion abduction radius = record {
    kind = kind;
    flexion_lo_deg = from;
    flexion_hi_deg = to;
    abduction_lo_deg = low;
    abduction_hi_deg = high;
    arc_center_flexion_deg = flexion;
    arc_center_abduction_deg = abduction;
    arc_signed_radius_deg = radius;
  }

  abbrev pub long_boundary_ab : List BoundaryPiece
  long_boundary_ab =
      piece arc (degrees 0 2) (degrees 1156 2) (degrees 0 2) (degrees 3000 2)
        (minus 1427639230149 10) (degrees 722389250017 10) (minus 1600 1)
      ∷ piece line (degrees 1156 2) (degrees 5050 2) (degrees 3000 2) (degrees 3000 2) (degrees 0 1)
          (degrees 0 1) (degrees 0 1)
      ∷ piece arc (degrees 5050 2) (degrees 8750 2) (degrees 3000 2) (degrees 1850 2)
          (degrees 1041494008616 10) (degrees 1373393766853 10) (minus 1200 1)
      ∷ piece arc (degrees 8750 2) (degrees 9320 2) (degrees 1850 2) (degrees 1240 2)
          (degrees 760586998853 10) (degrees 20958343191 10) (degrees 200 1)
      ∷ piece arc (degrees 9320 2) (degrees 9620 2) (degrees 1240 2) (degrees 0 2)
          (degrees 1211992042337 10) (degrees 126110977985 10) (minus 280 1)
      ∷ []

  abbrev pub thumb_boundary_ab : List BoundaryPiece
  thumb_boundary_ab =
      piece arc (degrees 0 2) (degrees 940 2) (degrees 0 2) (degrees 2950 2)
        (minus 4238055121749 10) (degrees 1512907394727 10) (minus 4500 1)
      ∷ piece arc (degrees 940 2) (degrees 4800 2) (degrees 2950 2) (degrees 4450 2)
          (minus 615421725476 10) (degrees 2692231906892 10) (minus 2500 1)
      ∷ piece arc (degrees 4800 2) (degrees 5840 2) (degrees 4450 2) (degrees 3943 2)
          (degrees 270303586384 10) (minus 117163156136 10) (degrees 600 1)
      ∷ piece line (degrees 5840 2) (degrees 5900 2) (degrees 3943 2) (degrees 0 2) (degrees 0 1)
          (degrees 0 1) (degrees 0 1)
      ∷ []

  abbrev pub long_boundary_c : List BoundaryPiece
  long_boundary_c =
      piece arc (degrees 0 2) (degrees 1060 2) (degrees 40 2) (degrees 2750 2)
        (minus 1175448848530 10) (degrees 620000287617 10) (minus 1327078125000 10)
      ∷ piece line (degrees 1060 2) (degrees 5460 2) (degrees 2750 2) (degrees 2750 2) (degrees 0 1)
          (degrees 0 1) (degrees 0 1)
      ∷ piece arc (degrees 5460 2) (degrees 9268 2) (degrees 2750 2) (degrees 1325 2)
          (minus 711198326410 10) (minus 3664639071557 10) (degrees 4135372250000 10)
      ∷ piece arc (degrees 9268 2) (degrees 9546 2) (degrees 1325 2) (degrees 0 2)
          (degrees 1436789848190 10) (degrees 170335266262 10) (minus 511391388889 10)
      ∷ []

  abbrev pub thumb_boundary_c : List BoundaryPiece
  thumb_boundary_c =
      piece arc (degrees 0 2) (degrees 900 2) (degrees 60 2) (degrees 2960 2)
        (minus 4258806321979 10) (degrees 1486664030959 10) (minus 4508857644759 10)
      ∷ piece arc (degrees 900 2) (degrees 5000 2) (degrees 2960 2) (degrees 4510 2)
          (minus 552563274548 10) (degrees 2615441564934 10) (minus 2406802180268 10)
      ∷ piece arc (degrees 5000 2) (degrees 6500 2) (degrees 4510 2) (degrees 3730 2)
          (degrees 301694515845 10) (minus 113587469529 10) (degrees 598401266539 10)
      ∷ piece arc (degrees 6500 2) (degrees 7623 2) (degrees 3730 2) (degrees 0 2)
          (degrees 2517767940919 10) (degrees 731928136100 10) (minus 1901942819332 10)
      ∷ []

  abbrev pub type_ab : HandType
  type_ab = record {
    long_boundary = long_boundary_ab;
    thumb_boundary = thumb_boundary_ab;
    long_flexion_max_deg = degrees 9620 2;
    thumb_flexion_max_deg = degrees 5900 2;
    long_distal_max_deg = degrees 800 1;
    thumb_j3_max_deg = degrees 750 1;
    thumb_j0_max_deg = degrees 1088 1;
    long_distal_floor_applies = true;
  }

  abbrev pub type_c : HandType
  type_c = record {
    long_boundary = long_boundary_c;
    thumb_boundary = thumb_boundary_c;
    long_flexion_max_deg = degrees 9546 2;
    thumb_flexion_max_deg = degrees 7623 2;
    long_distal_max_deg = degrees 900 1;
    thumb_j3_max_deg = degrees 700 1;
    thumb_j0_max_deg = degrees 1100 1;
    long_distal_floor_applies = false;
  }
