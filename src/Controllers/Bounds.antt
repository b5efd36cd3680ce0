-- ===== src/Controllers/Bounds.antt =====
-- The range that the filtered targets of joint_position_controller.cpp keep to.
use aidin_hand2_sdk.Base.{
  ℕ, ◌≡◌, true, false, if◌then◌else◌, ◌⊎◌, inl, inr, Bool-cases, if-split, List, [], ◌∷◌,
}
use aidin_hand2_sdk.Base.Arrays.{Array}
use aidin_hand2_sdk.Controllers.Position.{
  ControlDoubles, active_joint, active_joints_of, lowpass_alpha, PositionConfig, Sections,
  PositionController, reset_position, new_position_controller, seed, accept, low_pass, step_joint,
  derive_alpha, filter,
}

module _ (doubles : ControlDoubles) where
  open doubles use {
    Double, nought, one, two, pi, quiet_nan, add, sub, mul, negate, exp, less, at_least, is_nan,
    is_finite,
  }

  abbrev pub IsWithin : Double → Double → Double → Type 0
  IsWithin low high x = (less x low ≡ false) × (less high x ≡ false)

  -- Exact arithmetic, without rounding: 1 - e ^ -x is not negative for a positive x, and a step from x
  -- to y by a fraction from 0 to 1 ends between them.
  pub record IsExact : Type 0 where
    pub nan : is_nan quiet_nan ≡ true
    pub unit : less one nought ≡ false
    pub decays :
        (dt f : Double)
        → less nought dt ≡ true
        → less nought f ≡ true
        → less (sub one (exp (mul (mul (mul (negate dt) two) pi) f))) nought ≡ false
    pub between :
        (low high alpha x y : Double)
        → less alpha nought ≡ false
        → at_least alpha one ≡ false
        → IsWithin low high x
        → IsWithin low high y
        → IsWithin low high (add x (mul alpha (sub y x)))

  abbrev pub SectionsWithin : Double → Double → Sections doubles → Type 0
  SectionsWithin low high s =
      IsWithin low high s.first × IsWithin low high s.second × IsWithin low high s.third

  -- A joint is unset, or what it remembers is in the range.
  abbrev pub IsSettled : Double → Double → Double → Sections doubles → Type 0
  IsSettled low high held s =
      (is_nan held ≡ true) ⊎ (IsWithin low high held × SectionsWithin low high s)

  seed-IsWithin :
      (low high measured target : Double)
      → (is_finite measured ≡ true → IsWithin low high measured)
      → IsWithin low high target
      → IsWithin low high (seed doubles measured target)
  unfolding seed
  seed-IsWithin low high measured target m t = elim (Bool-cases (is_finite measured)) [
    | inl e ↦ rw e (m e)
    | inr e ↦ rw e t
  ]

  accept-IsWithin :
      (low high deadband target held : Double)
      → IsWithin low high target
      → IsWithin low high held
      → IsWithin low high (accept doubles deadband target held)
  unfolding accept
  accept-IsWithin low high deadband target held t h =
      elim (Bool-cases (at_least (doubles.abs (sub target held)) deadband)) [
        | inl e ↦ rw e t
        | inr e ↦ rw e h
      ]

  low_pass-SectionsWithin :
      IsExact
      → (low high alpha held : Double) (s : Sections doubles) → less alpha nought ≡ false
      → IsWithin low high held
      → SectionsWithin low high s
      → SectionsWithin low high (low_pass doubles alpha held s)
  unfolding low_pass
  low_pass-SectionsWithin exact low high alpha held s positive h (a, b, c) =
      elim (Bool-cases (at_least alpha one)) [
        | inl e ↦ rw e (h, h, h)
        | inr e ↦
            let a' = exact.between low high alpha s.first held positive e a h in
            let b' = exact.between low high alpha s.second _ positive e b a' in
            let c' = exact.between low high alpha s.third _ positive e c b' in rw e (a', b', c')
      ]

  step_joint-IsWithin :
      IsExact
      → (low high deadband alpha measured target held : Double) (s : Sections doubles)
      → less alpha nought ≡ false
      → (is_finite measured ≡ true → IsWithin low high measured)
      → IsWithin low high target
      → IsSettled low high held s
      → let (held', s') = step_joint doubles deadband alpha measured target (held, s) in
        IsWithin low high held' × SectionsWithin low high s'
  unfolding step_joint
  step_joint-IsWithin exact low high deadband alpha measured target held s positive m t settled =
      let start = seed-IsWithin low high measured target m t in
      elim (Bool-cases (is_nan held)) [
        | inl e ↦
            let kept = accept-IsWithin low high deadband target _ t start in
            rw e (
              kept,
              low_pass-SectionsWithin exact low high alpha _ _ positive kept (start, start, start),
            )
        | inr e ↦ elim settled [
          | inl f ↦ cc (e, f)
          | inr (h, sections) ↦
              let kept = accept-IsWithin low high deadband target held t h in
              rw e (kept, low_pass-SectionsWithin exact low high alpha _ s positive kept sections)
        ]
      ]

  -- What a controller remembers between two cycles.
  pub record IsBounded (low high : Double) (c : PositionController doubles) : Type 0 where
    pub ticks : less nought c.dt_seconds ≡ true
    pub positive : less c.alpha nought ≡ false
    pub settled : (i : ℕ) → IsSettled low high (c.held i) (c.section i)

  -- The command and the measured pose of a cycle; a measured angle may be none.
  pub record Input : Type 0 where
    pub target : Array Double
    pub config : PositionConfig doubles
    pub joints : Array Double

  abbrev pub IsInput : Double → Double → Input → Type 0
  IsInput low high input =
      ((i : ℕ) → IsWithin low high (input.target i))
      × ((i : ℕ) → is_finite (input.joints i) ≡ true → IsWithin low high (input.joints i))

  lowpass_alpha-positive :
      IsExact
      → (cutoff dt : Double) → less nought dt ≡ true
      → less (lowpass_alpha doubles cutoff dt) nought ≡ false
  unfolding lowpass_alpha
  lowpass_alpha-positive exact cutoff dt ticks = elim (Bool-cases (less nought cutoff)) [
    | inl e ↦ rw e (exact.decays dt cutoff ticks e)
    | inr e ↦ rw e exact.unit
  ]

  derive_alpha-IsBounded :
      IsExact
      → (low high cutoff : Double) (c : PositionController doubles) → IsBounded low high c
      → IsBounded low high (derive_alpha doubles cutoff c)
  unfolding derive_alpha
  derive_alpha-IsBounded exact low high cutoff c bounded =
      elim (Bool-cases (doubles.equal cutoff c.cutoff_freq)) [
        | inl e ↦ rw e bounded
        | inr e ↦ rw e (record {
          ticks = bounded.ticks;
          positive = lowpass_alpha-positive exact cutoff c.dt_seconds bounded.ticks;
          settled = bounded.settled;
        })
      ]

  filter-IsBounded :
      IsExact
      → (low high : Double) (input : Input) (c : PositionController doubles)
      → IsInput low high input
      → IsBounded low high c
      → let (after, filtered) = filter doubles input.target input.config input.joints c in
        IsBounded low high after × ((i : ℕ) → IsWithin low high (filtered i))
  unfolding filter active_joints_of
  filter-IsBounded exact low high input c (targets, poses) bounded =
      let derived = derive_alpha-IsBounded exact low high input.config.cutoff_freq c bounded in
      let d = derive_alpha doubles input.config.cutoff_freq c in
      let enabled = input.config.filter_enabled in
      let alpha = if enabled then d.alpha else one in
      let positive : less alpha nought ≡ false =
        if-split (λ x. less x nought ≡ false) enabled d.alpha one (λ _. derived.positive)
          (λ _. exact.unit) in
      let stepped = λ (i : ℕ).
        step_joint-IsWithin exact low high (if enabled then input.config.deadband else nought) alpha
          (input.joints (active_joint doubles i)) (input.target i) (d.held i) (d.section i) positive
          (poses (active_joint doubles i)) (targets i) (derived.settled i) in
      (
        record {
          ticks = derived.ticks;
          positive = derived.positive;
          settled = λ i. inr (stepped i);
        },
        λ i. (stepped i).1.2,
      )

  -- A cycle, or a reset, which the control loop makes while another command is active.
  pub data Event : Type 0 where
    cycle : Input → Event
    reset : Event

  -- The filtered targets of the cycles.
  abbrev pub outputs : List Event → PositionController doubles → List (Array Double)
  outputs [] c = []
  outputs (reset ∷ events) c = outputs events (reset_position doubles c)
  outputs (cycle input ∷ events) c =
      let (after, filtered) = filter doubles input.target input.config input.joints c in
      filtered ∷ outputs events after

  abbrev pub AllInputs : Double → Double → List Event → Type 0
  AllInputs low high [] = Unit {0}
  AllInputs low high (reset ∷ events) = AllInputs low high events
  AllInputs low high (cycle input ∷ events) = IsInput low high input × AllInputs low high events

  abbrev pub AllWithin : Double → Double → List (Array Double) → Type 0
  AllWithin low high [] = Unit {0}
  AllWithin low high (filtered ∷ rest) =
      ((i : ℕ) → IsWithin low high (filtered i)) × AllWithin low high rest

  reset_position-IsBounded :
      IsExact
      → (low high : Double) (c : PositionController doubles) → IsBounded low high c
      → IsBounded low high (reset_position doubles c)
  unfolding reset_position
  reset_position-IsBounded exact low high c bounded = record {
    ticks = bounded.ticks;
    positive = bounded.positive;
    settled = λ i. inl exact.nan;
  }

  outputs-AllWithin_from :
      IsExact
      → (low high : Double) (events : List Event) (c : PositionController doubles)
      → IsBounded low high c
      → AllInputs low high events
      → AllWithin low high (outputs events c)
  outputs-AllWithin_from exact low high [] c bounded inputs = tt
  outputs-AllWithin_from exact low high (reset ∷ events) c bounded inputs =
      outputs-AllWithin_from exact low high events (reset_position doubles c)
        (reset_position-IsBounded exact low high c bounded) inputs
  outputs-AllWithin_from exact low high (cycle input ∷ events) c bounded (here, later) =
      let (after, within) = filter-IsBounded exact low high input c here bounded in
      (
        within,
        outputs-AllWithin_from exact low high events
            (filter doubles input.target input.config input.joints c).0 after later,
      )

  -- In exact arithmetic, from a new controller with a positive period, over all cycles and resets:
  -- where every target, and every measured angle that is a number, lies in one range, so does every
  -- filtered target. Neither the seeding, nor the deadband, nor the low-pass with whatever
  -- configurations overshoots it.
  pub outputs-AllWithin :
      IsExact
      → (low high : Double) (events : List Event) (period_nanoseconds : ℕ)
      → less nought (new_position_controller doubles period_nanoseconds).dt_seconds ≡ true
      → AllInputs low high events
      → AllWithin low high (outputs events (new_position_controller doubles period_nanoseconds))
  unfolding new_position_controller reset_position
  outputs-AllWithin exact low high events period_nanoseconds ticks inputs =
      outputs-AllWithin_from exact low high events
        (new_position_controller doubles period_nanoseconds)
        (record { ticks = ticks; positive = exact.unit; settled = λ i. inl exact.nan }) inputs
