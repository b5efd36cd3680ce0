-- ===== src/Control/Completion.antt =====
-- What `watch_homing` tells the rest of the SDK when a homing ends.
-- (cpp/src/hand_core/threads/hand_core_control_thread.cpp)
use aidin_hand2_sdk.Base.{
  ℕ, zero, suc, ◌+◌, ◌≡◌, refl, false, not, ◌&&◌, if◌then◌else◌, arith, Bool-cases, inl, inr,
}
use aidin_hand2_sdk.Protocol.Frames.{actuator_count}
use aidin_hand2_sdk.Homing.Step.{is_succeeded}
use aidin_hand2_sdk.Types.Lifecycle.{succeeded, failed}
use aidin_hand2_sdk.Control.State.{HandCore, LoopState, push_event}
use aidin_hand2_sdk.Control.HomingWatch.{
  watch_homing, watch_phase, complete_homing, report_failed, failure_event,
}

module _ {Command : Type 0} where
  -- What the event ring does not touch.
  abbrev Same : HandCore Command → HandCore Command → Type 0
  Same b c =
      (c.comms ≡ b.comms)
      × (c.active_homing ≡ b.active_homing)
      × (c.result_homing ≡ b.result_homing)
      × (c.homing_state ≡ b.homing_state)
      × (c.staging_command ≡ b.staging_command)

  report_failed-Same :
      (n i cycle : ℕ) (core : HandCore Command) → Same core (report_failed n i cycle core)
  unfolding report_failed push_event
  report_failed-Same zero i cycle core = (refl, refl, refl, refl, refl)
  report_failed-Same (suc n) i cycle core =
      let pushed = push_event (failure_event core.comms.homing cycle i) core in
      ground
        (arith, report_failed-Same n (i + 1) cycle core, report_failed-Same n (i + 1) cycle pushed)

  watch_phase-Same :
      (loop : LoopState) (core : HandCore Command) (cycle : ℕ)
      → Same core (watch_phase loop core cycle).1
  unfolding watch_phase push_event
  watch_phase-Same loop core cycle = ground arith

  complete_homing-lem :
      (home_hold : Command) (cycle : ℕ) (core : HandCore Command)
      → let after = complete_homing home_hold cycle core in
        let won = is_succeeded core.comms.homing.outcome in
        (after.comms ≡ core.comms)
        × (after.active_homing ≡ false)
        × (after.result_homing ≡ won)
        × (after.homing_state ≡ (if won then succeeded else failed))
        × (after.staging_command ≡ (if won then home_hold else core.staging_command))
  unfolding complete_homing push_event
  complete_homing-lem home_hold cycle core =
      elim (Bool-cases (is_succeeded core.comms.homing.outcome)) [
        | inl e ↦ rw e (refl, refl, refl, refl, refl)
        | inr e ↦ rw e (report_failed-Same actuator_count 0 cycle _)
      ]

  -- A homing that is under way for the rest of the SDK is completed in the first cycle in which its
  -- sequence is not active, and then the result, the homing state and the staged command agree with
  -- the outcome: the home hold is staged exactly on success, and after a failure the command staged
  -- before stays. In every other cycle all four are left alone, as the session is in all.
  pub watch_homing-completion :
      (home_hold : Command) (loop : LoopState) (core : HandCore Command) (cycle : ℕ)
      → let after = (watch_homing home_hold loop core cycle).1 in
        let ends = core.active_homing && not core.comms.homing.active in
        let won = is_succeeded core.comms.homing.outcome in
        (after.active_homing ≡ (core.active_homing && not ends))
        × (after.result_homing ≡ (if ends then won else core.result_homing))
        × (after.homing_state
            ≡ (if ends then if won then succeeded else failed else core.homing_state))
        × (after.staging_command ≡ (if ends && won then home_hold else core.staging_command))
        × (after.comms ≡ core.comms)
  unfolding watch_homing
  watch_homing-completion home_hold loop core cycle =
      let phased = (watch_phase loop core cycle).1 in
      ground (arith, watch_phase-Same loop core cycle, complete_homing-lem home_hold cycle phased)
