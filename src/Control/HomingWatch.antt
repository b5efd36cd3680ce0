-- ===== src/Control/HomingWatch.antt =====
-- `watch_homing`: where every homing ends for the rest of the SDK.
-- (cpp/src/hand_core/threads/hand_core_control_thread.cpp)
use Prim.Native.Nat.{bit_or}
use aidin_hand2_sdk.Base.{
  ℕ, zero, suc, ◌+◌, ◌^◌, Bool, true, false, not, ◌&&◌, ◌||◌, ◌==◌, if◌then◌else◌,
}
use aidin_hand2_sdk.Base.Arrays.{Array}
use aidin_hand2_sdk.Protocol.Frames.{actuator_count}
use aidin_hand2_sdk.Homing.Sequence.{HomingSequence, current_phase}
use aidin_hand2_sdk.Homing.Step.{is_succeeded}
use aidin_hand2_sdk.Types.Lifecycle.{running, succeeded, failed}
use aidin_hand2_sdk.Types.Events.{
  RealtimeEvent, homing_phase_entered, homing_completed, homing_failed,
}
use aidin_hand2_sdk.Control.State.{
  HandCore, LoopState, push_event, hand_event, phase_number, outcome_number,
}

-- failed_mask |= (1 << i) for each failed actuator below n.
unfoldable pub failed_mask : ℕ → Array Bool → ℕ
failed_mask zero culprits = 0
failed_mask (suc n) culprits =
    let rest = failed_mask n culprits in if culprits n then bit_or rest (2 ^ n) else rest

-- The event of one failed actuator, with the status word it failed at.
abbrev pub failure_event : HomingSequence → ℕ → ℕ → RealtimeEvent
failure_event sequence cycle i =
    record (hand_event homing_failed cycle (sequence.failed_status_snapshot i) 0 running false) {
      actuator_index = i;
    }

module _ {Command : Type 0} where
  -- The event of a phase that was entered.
  unfoldable pub watch_phase : LoopState → HandCore Command → ℕ → LoopState × HandCore Command
  watch_phase loop core cycle =
      let sequence = core.comms.homing in
      let phase = current_phase sequence in
      if sequence.active
        && (not loop.homing_was_active
            || not (phase_number phase == phase_number loop.previous_homing_phase))
      then (
        record loop { homing_was_active = true; previous_homing_phase = phase },
        push_event (hand_event homing_phase_entered cycle (phase_number phase) 0 running false)
            core,
      )
      else (record loop { homing_was_active = sequence.active }, core)

  -- The last loop: one event for each failed actuator from i on, with its status word.
  unfoldable pub report_failed : ℕ → ℕ → ℕ → HandCore Command → HandCore Command
  report_failed zero i cycle core = core
  report_failed (suc n) i cycle core =
      let sequence = core.comms.homing in
      report_failed n (i + 1) cycle
        (if sequence.failed i then push_event (failure_event sequence cycle i) core else core)

  -- The completion, with the home hold that a success stages.
  unfoldable pub complete_homing : Command → ℕ → HandCore Command → HandCore Command
  complete_homing home_hold cycle core =
      let sequence = core.comms.homing in
      let outcome = outcome_number sequence.outcome in
      let closed : HandCore Command = record core { active_homing = false } in
      if is_succeeded sequence.outcome
      then push_event (hand_event homing_completed cycle outcome 0 running false) (record closed {
        result_homing = true;
        homing_state = succeeded;
        staging_command = home_hold;
      })
      else report_failed actuator_count 0 cycle (
          push_event
            (record (hand_event homing_failed cycle outcome 0 running false) {
              actuator_mask = failed_mask actuator_count sequence.failed;
            })
            (record closed { result_homing = false; homing_state = failed }))

  unfoldable pub watch_homing :
      Command → LoopState → HandCore Command → ℕ → LoopState × HandCore Command
  watch_homing home_hold loop core cycle =
      let (loop', core') = watch_phase loop core cycle in
      if not core.active_homing || core.comms.homing.active
      then (loop', core')
      else (loop', complete_homing home_hold cycle core')
