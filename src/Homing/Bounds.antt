-- ===== src/Homing/Bounds.antt =====
-- The stage counter of the homing sequence, and how long the sequence can run.
use aidin_hand2_sdk.Base.{ℕ, ◌+◌, ◌-◌, ◌<◌, ◌≡◌, refl, Bool, true, false, arith, ◌⊎◌}
use aidin_hand2_sdk.Protocol.Frames.{StateFrames, CommandFrames}
use aidin_hand2_sdk.Homing.Sequence.{
  HomingSequence, Stage, enabling, clear_disable, clear_re_enable, preload, settle, trigger_wait,
  HomingOutcome, in_progress, enter_stage, evaluate_homing_trigger,
}
use aidin_hand2_sdk.Homing.Step.{
  step, step_stage, step_enabling, step_clear_disable, step_clear_re_enable, step_preload,
  step_settle, step_trigger_wait, record_failure,
}

-- The cycle of its stage in which each stage is left or the sequence ends.
abbrev pub stage_limit : Stage → ℕ
stage_limit enabling = 2000
stage_limit clear_disable = 2000
stage_limit clear_re_enable = 2000
stage_limit preload = 2000
stage_limit settle = 1000
stage_limit trigger_wait = 2000

-- The cycles that remain at most in the stages behind a stage.
abbrev pub later_limits : Stage → ℕ
later_limits enabling = 9000
later_limits clear_disable = 7000
later_limits clear_re_enable = 5000
later_limits preload = 3000
later_limits settle = 2000
later_limits trigger_wait = 0

-- The cycles that a running sequence can still take: those of its stage, and of those behind it.
abbrev pub remaining : HomingSequence → ℕ
remaining s = stage_limit s.stage - s.stage_cycle + later_limits s.stage

abbrev pub ended : HomingOutcome → Bool
ended in_progress = false
ended _ = true

abbrev pub InBounds : HomingSequence → Type 0
InBounds s = s.stage_cycle < stage_limit s.stage

module _ (rx : StateFrames) (out : CommandFrames) where
  -- What one stage does to the counter: the sequence ends, or one cycle is used up.
  abbrev Progress : HomingSequence → HomingSequence → Type 0
  Progress s t =
      ((t.active ≡ false) × (ended t.outcome ≡ true))
      ⊎ ((t.active ≡ true) × (t.outcome ≡ s.outcome) × InBounds t × (remaining t < remaining s))

  module _ (s : HomingSequence) (running : s.active ≡ true) where
    abbrev counted : HomingSequence
    counted = record s { stage_cycle = s.stage_cycle + 1 }

    enabling-Progress :
        s.stage ≡ enabling → InBounds s → Progress s (step_enabling rx out counted).0
    unfolding step_enabling enter_stage
    enabling-Progress e h = ground arith

    clear_disable-Progress :
        s.stage ≡ clear_disable → InBounds s → Progress s (step_clear_disable rx out counted).0
    unfolding step_clear_disable enter_stage
    clear_disable-Progress e h = ground arith

    clear_re_enable-Progress :
        s.stage ≡ clear_re_enable → InBounds s → Progress s (step_clear_re_enable rx out counted).0
    unfolding step_clear_re_enable enter_stage
    clear_re_enable-Progress e h = ground arith

    preload-Progress : s.stage ≡ preload → InBounds s → Progress s (step_preload out counted).0
    unfolding step_preload enter_stage
    preload-Progress e h = ground arith

    settle-Progress : s.stage ≡ settle → InBounds s → Progress s (step_settle out counted).0
    unfolding step_settle enter_stage
    settle-Progress e h = ground arith

    trigger_wait-Progress :
        s.stage ≡ trigger_wait → InBounds s → Progress s (step_trigger_wait rx out counted).0
    unfolding step_trigger_wait evaluate_homing_trigger
    trigger_wait-Progress e h = ground arith

    stage-Progress :
        (g : Stage) → s.stage ≡ g → InBounds s → Progress s (step_stage g rx out counted).0
    unfolding step_stage
    stage-Progress enabling e h = enabling-Progress e h
    stage-Progress clear_disable e h = clear_disable-Progress e h
    stage-Progress clear_re_enable e h = clear_re_enable-Progress e h
    stage-Progress preload e h = preload-Progress e h
    stage-Progress settle e h = settle-Progress e h
    stage-Progress trigger_wait e h = trigger_wait-Progress e h

  -- The snapshot changes neither the counter nor the outcome.
  record_failure-Progress :
      (was_active : Bool) (g : Stage) (s t : HomingSequence)
      → Progress s t
      → Progress s (record_failure was_active g rx t)
  unfolding record_failure
  record_failure-Progress was_active g s t h = ground arith

  -- A cycle of a running sequence either ends it with an outcome, or leaves it running in a stage
  -- whose counter is still below that stage's limit, with fewer cycles remaining than before. So no
  -- counter of the sequence ever reaches 2001.
  pub step-Progress :
      (s : HomingSequence) → s.active ≡ true → InBounds s → Progress s (step rx out s).0
  unfolding step
  step-Progress s running h =
      record_failure-Progress s.active s.stage s _ (stage-Progress s running s.stage refl h)
