-- ===== src/Controllers/Unfiltered.antt =====
-- The position controller with its filter off (joint_position_controller.cpp).
use aidin_hand2_sdk.Base.{ℕ, ◌≡◌, refl, ap, true, false, inl, inr, Bool-cases}
use aidin_hand2_sdk.Base.Arrays.{Array}
use aidin_hand2_sdk.Controllers.Position.{
  ControlDoubles, active_joint, active_joints_of, PositionConfig, Sections, PositionController,
  filled, seed, accept, low_pass, step_joint, derive_alpha, filter,
}

module _ (doubles : ControlDoubles) where
  open doubles use {Double, nought, one, sub, abs, at_least, is_nan, is_finite}

  -- What IEEE 754 says of the comparison, NaN and infinities included.
  pub record IsComparison : Type 0 where
    pub unit : at_least one one ≡ true
    pub finite : (x : Double) → is_finite x ≡ true → is_nan x ≡ false
    pub reaches :
        (x y : Double)
        → is_finite x ≡ true
        → is_nan y ≡ false
        → at_least (abs (sub x y)) nought ≡ true

  seed-not_nan :
      IsComparison
      → (measured target : Double) → is_finite target ≡ true
      → is_nan (seed doubles measured target) ≡ false
  unfolding seed
  seed-not_nan law measured target h = elim (Bool-cases (is_finite measured)) [
    | inl e ↦ rw e (law.finite measured e)
    | inr e ↦ rw e (law.finite target h)
  ]

  step_joint-target :
      IsComparison
      → (measured target held : Double) (s : Sections doubles) → is_finite target ≡ true
      → step_joint doubles nought one measured target (held, s) ≡ (target, filled doubles target)
  unfolding step_joint accept low_pass
  step_joint-target law measured target held s h = elim (Bool-cases (is_nan held)) [
    | inl e ↦ rw (e, law.reaches target _ h (seed-not_nan law measured target h), law.unit) refl
    | inr e ↦ rw (e, law.reaches target held h e, law.unit) refl
  ]

  -- With the filter off, from any state of the controller, whatever its configuration and the measured
  -- pose: a joint's finite target is passed through as it is, and is what the deadband starts from
  -- afterwards.
  pub unfiltered-target :
      IsComparison
      → (target : Array Double) (config : PositionConfig doubles) (joints : Array Double)
      → (c : PositionController doubles) (i : ℕ) → config.filter_enabled ≡ false
      → is_finite (target i) ≡ true
      → let (after, filtered) = filter doubles target config joints c in
        (filtered i ≡ target i) × (after.held i ≡ target i)
  unfolding filter active_joints_of
  unfiltered-target law target config joints c i off h =
      let d = derive_alpha doubles config.cutoff_freq c in
      let e =
        step_joint-target law (joints (active_joint doubles i)) (target i) (d.held i) (d.section i)
          h in
      rw off (
        ap (λ (p : Double × Sections doubles). p.1.third) e,
        ap (λ (p : Double × Sections doubles). p.0) e,
      )
