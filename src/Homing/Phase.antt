-- ===== src/Homing/Phase.antt =====
-- Where a homing that failed says it failed.
use aidin_hand2_sdk.Base.{
  ◌+◌, ◌≡◌, refl, inl, inr, Bool, true, false, arith, List, [], ◌∷◌, ◌∙◌, ap, Bool-cases,
}
use aidin_hand2_sdk.Base.Arrays.{Array}
use aidin_hand2_sdk.Protocol.Frames.{StateFrames, CommandFrames}
use aidin_hand2_sdk.Homing.Sequence.{
  HomingSequence, Stage, start, in_progress, enabling, clear_disable, clear_re_enable, preload,
  settle, trigger_wait, enter_stage, evaluate_homing_trigger, latch_trigger, current_phase,
  phase_of_stage, homing_failure_phase,
}
use aidin_hand2_sdk.Homing.Step.{
  step, step_stage, step_enabling, step_clear_disable, step_clear_re_enable, step_preload,
  step_settle, step_trigger_wait, record_failure, is_succeeded,
}
use aidin_hand2_sdk.Homing.Run.{Cycle, advance, advance_all, advance-active, advance-inactive}
use aidin_hand2_sdk.Homing.Failure.{has_failed}

-- Between two cycles of a started sequence: a failure lies in the stage that its outcome names.
record Located (s : HomingSequence) : Type 0 where
  running : s.active ≡ true → s.outcome ≡ in_progress
  located :
      has_failed s.outcome ≡ true
      → (homing_failure_phase s.outcome ≡ phase_of_stage s.failed_stage)
        × (s.failed_stage ≡ s.stage)

module _ (rx : StateFrames) (out : CommandFrames) (s : HomingSequence) (a : s.active ≡ true)
    (h : Located s) where
  -- The case of a stage that ends the sequence in a failure sets an outcome of that stage's phase.
  abbrev InPhase : Stage → HomingSequence → Type 0
  InPhase g t =
      (t.active ≡ true → t.outcome ≡ in_progress)
      × (has_failed t.outcome ≡ true
          → (t.active ≡ false)
            × (homing_failure_phase t.outcome ≡ phase_of_stage g)
            × (t.stage ≡ g))

  stage-InPhase : (g : Stage) → s.stage ≡ g → InPhase g (step_stage g rx out s).0
  unfolding step_stage step_enabling step_clear_disable step_clear_re_enable step_preload
      step_settle step_trigger_wait enter_stage evaluate_homing_trigger latch_trigger
      homing_failure_phase phase_of_stage
  stage-InPhase enabling e = ground arith
  stage-InPhase clear_disable e = ground arith
  stage-InPhase clear_re_enable e = ground arith
  stage-InPhase preload e = ground arith
  stage-InPhase settle e = ground arith
  stage-InPhase trigger_wait e = ground arith

record_failure-Located :
    (was_active : Bool) (g : Stage) (rx : StateFrames) (t : HomingSequence)
    → was_active ≡ true
    → (t.active ≡ true → t.outcome ≡ in_progress)
    → (has_failed t.outcome ≡ true
        → (t.active ≡ false) × (homing_failure_phase t.outcome ≡ phase_of_stage g) × (t.stage ≡ g))
    → Located (record_failure was_active g rx t)
unfolding record_failure is_succeeded
record_failure-Located was_active g rx t a h k = ground arith

step-Located :
    (rx : StateFrames) (out : CommandFrames) (s : HomingSequence)
    → s.active ≡ true
    → Located s
    → Located (step rx out s).0
unfolding step
step-Located rx out s a h =
    let counted : HomingSequence = record s { stage_cycle = s.stage_cycle + 1 } in
    let (running, located) =
      stage-InPhase rx out counted a (record { running = h.running; located = h.located }) s.stage
        refl in
    record_failure-Located s.active s.stage rx _ a running located

advance-Located : (c : Cycle) (s : HomingSequence) → Located s → Located (advance c s)
advance-Located (rx, out) s h = elim (Bool-cases s.active) [
  | inr e ↦ simp (advance-inactive (rx, out) s e) h
  | inl e ↦ simp (advance-active rx out s e) (step-Located rx out s e h)
]

advance_all-Located :
    (cs : List Cycle) (s : HomingSequence) → Located s → Located (advance_all cs s)
unfolding advance_all
advance_all-Located [] s h = h
advance_all-Located (c ∷ cs) s h = advance_all-Located cs (advance c s) (advance-Located c s h)

start-Located : (mask : Array Bool) (s : HomingSequence) → Located (start mask s)
unfolding start
start-Located mask s = record { running = λ _. refl; located = λ e. cc }

-- When a started sequence has failed after some cycles, the phase that `homing_failure_phase` reads
-- off the outcome alone is the phase of the stage recorded as the failed one, and is the current
-- phase of the sequence.
pub homing_failure_phase-failed_stage :
    (mask : Array Bool) (s : HomingSequence) (cs : List Cycle)
    → has_failed (advance_all cs (start mask s)).outcome ≡ true
    → (homing_failure_phase (advance_all cs (start mask s)).outcome
        ≡ phase_of_stage (advance_all cs (start mask s)).failed_stage)
      × (homing_failure_phase (advance_all cs (start mask s)).outcome
          ≡ current_phase (advance_all cs (start mask s)))
unfolding current_phase
homing_failure_phase-failed_stage mask s cs h =
    let (phase, here) = (advance_all-Located cs (start mask s) (start-Located mask s)).located h in
    (phase, phase ∙ ap phase_of_stage here)
