-- ===== src/JointClamp/Reals.antt =====
-- The numbers of joint_clamp.cpp: `double` is an abstract type, with the arithmetic, the comparison
-- and the functions of <cmath> that the clamp uses. A constant of the source is the whole number of its
-- digits and the count of those behind the point.
use aidin_hand2_sdk.Base.{◌≡◌, inl, inr, Bool-cases, ℕ, Bool, true, false, if◌then◌else◌}

pub record Reals : Type 1 where
  pub Real : Type 0
  -- A negative one, if the flag is set.
  pub decimal : Bool → ℕ → ℕ → Real
  pub zero : Real
  pub add : Real → Real → Real
  pub sub : Real → Real → Real
  pub mul : Real → Real → Real
  pub div : Real → Real → Real
  pub less : Real → Real → Bool
  pub at_most : Real → Real → Bool
  pub fabs : Real → Real
  pub sqrt : Real → Real
  pub sin : Real → Real
  pub cos : Real → Real
  pub acos : Real → Real
  pub atan2 : Real → Real → Real

module _ (reals : Reals) where
  -- std::max and std::clamp.
  unfoldable pub max : reals.Real → reals.Real → reals.Real
  max a b = if reals.less a b then b else a

  unfoldable pub clamp : reals.Real → reals.Real → reals.Real → reals.Real
  clamp v low high = if reals.less v low then low else if reals.less high v then high else v

  -- The comparison of double, infinities and NaN included: no two numbers are each below the other.
  abbrev pub IsAsymmetric : Type 0
  IsAsymmetric = (x y : reals.Real) → reals.less x y ≡ true → reals.less y x ≡ false

  pub less-irreflexive : IsAsymmetric → (x : reals.Real) → reals.less x x ≡ false
  less-irreflexive asymmetric x = elim (Bool-cases (reals.less x x)) [
    | inl e ↦ asymmetric x x e
    | inr e ↦ e
  ]
