-- ===== src/Controllers/Tests.antt =====
-- Fixed point numbers of six places in place of double; one of them stands for NaN.
use aidin_hand2_sdk.Base.{
  ℕ, zero, suc, ◌+◌, ◌-◌, ◌*◌, ◌/◌, ◌^◌, ◌≤◌, ◌≡◌, refl, true, false, not, ◌==◌, ltb, leb,
  if◌then◌else◌, arith, List, [], ◌∷◌,
}
use aidin_hand2_sdk.Base.Arrays.{fill}
use aidin_hand2_sdk.Controllers.Position.{
  ControlDoubles, PositionConfig, filter, new_position_controller, reset_position,
}
use aidin_hand2_sdk.Controllers.Unfiltered.{IsComparison, unfiltered-target}
use aidin_hand2_sdk.Controllers.Bounds.{
  IsExact, Event, cycle, reset, outputs, AllWithin, outputs-AllWithin,
}

abbrev fixed_point : ControlDoubles
fixed_point = record {
  Double = ℕ;
  nought = 0;
  one = 10 ^ 6;
  two = 2 * 10 ^ 6;
  billion = 10 ^ 15;
  pi = 3141592;
  quiet_nan = 10 ^ 18;
  add = λ x y. x + y;
  sub = λ x y. x - y;
  mul = λ x y. x * y / 10 ^ 6;
  div = λ x y. x * 10 ^ 6 / y;
  negate = λ x. 0;
  exp = λ x. 10 ^ 6 - x;
  abs = λ x. x;
  less = ltb;
  at_least = λ x y. leb y x;
  equal = λ x y. x == y;
  is_nan = λ x. x == 10 ^ 18;
  is_finite = λ x. not (x == 10 ^ 18);
  clamp = λ x low high. if ltb x low then low else if ltb high x then high else x;
  of_long = λ n. n * 10 ^ 6;
  of_int32 = λ n. n * 10 ^ 6;
  to_int16 = λ x. x / 10 ^ 6;
}

mul_le : (a d : ℕ) → a ≤ 10 ^ 6 → a * d ≤ 10 ^ 6 * d
mul_le a zero h = omega arith
mul_le a (suc d) h = omega (arith, mul_le a d h)

step_between :
    (low high product x y : ℕ)
    → product ≤ 10 ^ 6 * (y - x)
    → (ltb x low ≡ false) × (ltb high x ≡ false)
    → (ltb y low ≡ false) × (ltb high y ≡ false)
    → (ltb (x + product / 10 ^ 6) low ≡ false) × (ltb high (x + product / 10 ^ 6) ≡ false)
step_between low high product x y le (a, b) (c, d) = (ground arith, ground arith)

fixed_point-IsExact : IsExact fixed_point
fixed_point-IsExact = record {
  nan = refl;
  unit = refl;
  decays = λ dt f _ _. ground arith;
  between = λ low high alpha x y p q u v.
      step_between low high (alpha * (y - x)) x y (mul_le alpha (y - x) (ground arith)) u v;
}

fixed_point-IsComparison : IsComparison fixed_point
fixed_point-IsComparison = record {
  unit = refl;
  finite = λ x h. ground arith;
  reaches = λ x y _ _. ground arith;
}

-- A cycle with the filter, a reset, and a cycle without it.
abbrev two_cycles : List (Event fixed_point)
two_cycles =
    cycle (record {
      target = fill 500000;
      config = record { filter_enabled = true; cutoff_freq = 10 ^ 7; deadband = 873 };
      joints = fill 200000;
    })
    ∷ reset
    ∷ cycle (record {
      target = fill 300000;
      config = record { filter_enabled = false; cutoff_freq = 10 ^ 7; deadband = 873 };
      joints = fill 0;
    })
    ∷ []

ticks : ltb 0 (new_position_controller fixed_point 1000000).dt_seconds ≡ true
unfolding new_position_controller reset_position
ticks = refl

outputs-AllWithin_example :
    AllWithin fixed_point 0 600000
      (outputs fixed_point two_cycles (new_position_controller fixed_point 1000000))
outputs-AllWithin_example =
    outputs-AllWithin fixed_point fixed_point-IsExact 0 600000 two_cycles 1000000 ticks
      (((λ i. (refl, refl)), λ i e. (refl, refl)), (((λ i. (refl, refl)), λ i e. (refl, refl)), tt))

unfiltered-target_example :
    let config : PositionConfig fixed_point = record {
      filter_enabled = false;
      cutoff_freq = 10 ^ 7;
      deadband = 873;
    } in
    let (after, filtered) =
      filter fixed_point
        (fill 300000)
        config
        (fill 0)
        (new_position_controller fixed_point 1000000) in
    (filtered 4 ≡ 300000) × (after.held 4 ≡ 300000)
unfiltered-target_example =
    unfiltered-target fixed_point fixed_point-IsComparison (fill 300000)
      (record { filter_enabled = false; cutoff_freq = 10 ^ 7; deadband = 873 }) (fill 0)
      (new_position_controller fixed_point 1000000) 4 refl refl
