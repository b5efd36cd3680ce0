-- ===== src/Homing/Failure.antt =====
-- Which actuators a homing that ended names as its cause.
use aidin_hand2_sdk.Base.{
  ◌+◌, ◌≡◌, refl, inl, inr, Bool, true, false, not, ◌&&◌, ◌||◌, arith, List, [], ◌∷◌, Bool-cases,
}
use aidin_hand2_sdk.Base.Arrays.{
  Array, any_below, any_below-congr, any_of_not-all, any_below_mono, any_below-false, any_from,
}
use aidin_hand2_sdk.Base.Bits.{is_set}
use aidin_hand2_sdk.Cia402.{homing_attained, homing_error, operation_enabled}
use aidin_hand2_sdk.Protocol.Frames.{StateFrames, CommandFrames, actuator_count}
use aidin_hand2_sdk.Homing.Sequence.{
  HomingSequence, Stage, HomingOutcome, start, in_progress, succeeded, enabling, clear_disable,
  clear_re_enable, preload, settle, trigger_wait, enter_stage, evaluate_homing_trigger,
  latch_trigger, all_attained, any_homing_error, no_present_operation_enabled,
  all_present_operation_enabled, all_present_homing_attained_clear,
}
use aidin_hand2_sdk.Homing.Step.{
  step, step_stage, step_enabling, step_clear_disable, step_clear_re_enable, step_preload,
  step_settle, step_trigger_wait, record_failure,
}
use aidin_hand2_sdk.Homing.Run.{Cycle, advance, advance_all, advance-active, advance-inactive}

-- Ended, and not in success.
abbrev pub has_failed : HomingOutcome → Bool
has_failed succeeded = false
has_failed in_progress = false
has_failed _ = true

-- Between two cycles: culprits are named exactly if the sequence has failed, and a running sequence
-- is in progress.
record Blames (s : HomingSequence) : Type 0 where
  culprits : any_below actuator_count s.failed ≡ has_failed s.outcome
  running : s.active ≡ true → s.outcome ≡ in_progress

module _ (rx : StateFrames) (out : CommandFrames) (s : HomingSequence) (a : s.active ≡ true)
    (h : Blames s) where
  enabling-Blames : Blames (step_enabling rx out s).0
  unfolding step_enabling enter_stage any_from
  enabling-Blames = ground arith

  clear_disable-Blames : Blames (step_clear_disable rx out s).0
  unfolding step_clear_disable enter_stage no_present_operation_enabled
  clear_disable-Blames = ground (
    arith,
    any_of_not-all actuator_count
        (λ i. not (s.present i) || not (is_set (rx.status_word i) operation_enabled))
        (λ i. s.present i && is_set (rx.status_word i) operation_enabled) (λ i e. ground arith),
  )

  clear_re_enable-Blames : Blames (step_clear_re_enable rx out s).0
  unfolding step_clear_re_enable enter_stage all_present_operation_enabled
      all_present_homing_attained_clear
  clear_re_enable-Blames = ground (
    arith,
    any_of_not-all actuator_count
        (λ i. not (s.present i) || is_set (rx.status_word i) operation_enabled)
        (λ i.
          s.present i
          && (not (is_set (rx.status_word i) operation_enabled)
              || is_set (rx.status_word i) homing_attained))
        (λ i e. ground arith),
    any_of_not-all actuator_count
        (λ i. not (s.present i) || not (is_set (rx.status_word i) homing_attained))
        (λ i.
          s.present i
          && (not (is_set (rx.status_word i) operation_enabled)
              || is_set (rx.status_word i) homing_attained))
        (λ i e. ground arith),
  )

  preload-Blames : Blames (step_preload out s).0
  unfolding step_preload enter_stage
  preload-Blames = ground arith

  settle-Blames : Blames (step_settle out s).0
  unfolding step_settle enter_stage
  settle-Blames = ground arith

  -- The latched failures are the old ones where no present actuator reports an error.
  latch_trigger-failed_false :
      any_homing_error rx s.present ≡ false
      → any_below actuator_count (latch_trigger rx s).failed ≡ any_below actuator_count s.failed
  unfolding latch_trigger any_homing_error
  latch_trigger-failed_false e = any_below-congr actuator_count _ _ (λ i lt. ground (
    arith,
    any_below-false actuator_count (λ j. s.present j && is_set (rx.status_word j) homing_error) i e
        lt,
  ))

  latch_trigger-failed_true :
      any_homing_error rx s.present ≡ true
      → any_below actuator_count (latch_trigger rx s).failed ≡ true
  unfolding latch_trigger any_homing_error
  latch_trigger-failed_true e =
      any_below_mono actuator_count (λ j. s.present j && is_set (rx.status_word j) homing_error) _
        (λ i h. ground arith) e

  timeout-failed :
      (t : HomingSequence)
      → all_attained t ≡ false
      → any_below actuator_count (λ i. t.failed i || (t.present i && not (t.attained i))) ≡ true
  unfolding all_attained
  timeout-failed t e =
      any_of_not-all actuator_count (λ i. not (t.present i) || t.attained i) _ (λ i h. ground arith)
        e

  trigger_wait-Blames : Blames (step_trigger_wait rx out s).0
  unfolding step_trigger_wait evaluate_homing_trigger
  trigger_wait-Blames = ground (
    arith,
    latch_trigger-failed_true,
    latch_trigger-failed_false,
    timeout-failed (latch_trigger rx s),
  )

  stage-Blames : (g : Stage) → Blames (step_stage g rx out s).0
  unfolding step_stage
  stage-Blames enabling = enabling-Blames
  stage-Blames clear_disable = clear_disable-Blames
  stage-Blames clear_re_enable = clear_re_enable-Blames
  stage-Blames preload = preload-Blames
  stage-Blames settle = settle-Blames
  stage-Blames trigger_wait = trigger_wait-Blames

record_failure-Blames :
    (was_active : Bool) (g : Stage) (rx : StateFrames) (t : HomingSequence)
    → Blames t
    → Blames (record_failure was_active g rx t)
unfolding record_failure
record_failure-Blames was_active g rx t h = ground arith

step-Blames :
    (rx : StateFrames) (out : CommandFrames) (s : HomingSequence)
    → s.active ≡ true
    → Blames s
    → Blames (step rx out s).0
unfolding step
step-Blames rx out s a h = record_failure-Blames s.active s.stage rx _ (
    stage-Blames rx out (record s { stage_cycle = s.stage_cycle + 1 }) a
      (record { culprits = h.culprits; running = h.running }) s.stage)

advance-Blames : (c : Cycle) (s : HomingSequence) → Blames s → Blames (advance c s)
advance-Blames (rx, out) s h = elim (Bool-cases s.active) [
  | inr e ↦ simp (advance-inactive (rx, out) s e) h
  | inl e ↦ simp (advance-active rx out s e) (step-Blames rx out s e h)
]

advance_all-Blames : (cs : List Cycle) (s : HomingSequence) → Blames s → Blames (advance_all cs s)
unfolding advance_all
advance_all-Blames [] s h = h
advance_all-Blames (c ∷ cs) s h = advance_all-Blames cs (advance c s) (advance-Blames c s h)

start-Blames : (mask : Array Bool) (s : HomingSequence) → Blames (start mask s)
unfolding start any_from
start-Blames mask s = record { culprits = refl; running = λ _. refl }

-- After any cycles of a started sequence some actuator is named as a cause of failure exactly if the
-- sequence has ended in an outcome other than Succeeded: a failure always has a culprit among the
-- sixteen, and a running or successful sequence names none.
pub homing_culprits :
    (mask : Array Bool) (s : HomingSequence) (cs : List Cycle)
    → any_below actuator_count (advance_all cs (start mask s)).failed
      ≡ has_failed (advance_all cs (start mask s)).outcome
homing_culprits mask s cs = (advance_all-Blames cs (start mask s) (start-Blames mask s)).culprits
