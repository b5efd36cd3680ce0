-- ===== src/Control/Watch.antt =====
-- `watch_link`, `watch_actuator_faults`, `watch_drive_state` and `watch_stop_verdict`.
-- (cpp/src/hand_core/threads/hand_core_control_thread.cpp)
use aidin_hand2_sdk.Base.{
  ℕ, zero, suc, ◌+◌, Bool, true, false, not, ◌&&◌, ◌||◌, ◌==◌, leb, if◌then◌else◌,
}
use aidin_hand2_sdk.Base.Arrays.{set}
use aidin_hand2_sdk.Protocol.Frames.{actuator_count}
use aidin_hand2_sdk.Protocol.Observation.{ActuatorHealth}
use aidin_hand2_sdk.Comms.Cycle.{drives_enabled, quick_stop_attained}
use aidin_hand2_sdk.StopConfirmation.{
  StopConfirmation, waiting, confirmed, not_confirmed, evaluate_stop_confirmation,
}
use aidin_hand2_sdk.Types.Lifecycle.{
  HandLifecycle, connected, running, stopped, faulted, is_disconnected, is_running, is_stopped,
  is_faulted,
}
use aidin_hand2_sdk.Types.Events.{
  RealtimeEvent, receive_silence, receive_restored, actuator_fault_set, actuator_fault_cleared,
  stop_confirmed, stop_not_confirmed,
}
use aidin_hand2_sdk.Control.State.{
  HandCore, LoopState, push_event, hand_event, decode_result_number,
}

-- The loop, the core, the caller's `observed` and the answer.
pub record LinkResult (Command : Type 0) : Type 0 where
  pub loop : LoopState
  pub core : HandCore Command
  pub observed : HandLifecycle
  pub receiving : Bool

-- The event of a fault that changed on one actuator.
abbrev pub fault_event : ℕ → ℕ → HandLifecycle → ℕ → RealtimeEvent
fault_event i fault lifecycle cycle =
    record (hand_event (if fault == 0 then actuator_fault_cleared else actuator_fault_set) cycle
      fault 0 lifecycle false) { actuator_index = i }

abbrev pub is_confirmed : StopConfirmation → Bool
is_confirmed confirmed = true
is_confirmed _ = false

abbrev pub is_not_confirmed : StopConfirmation → Bool
is_not_confirmed not_confirmed = true
is_not_confirmed _ = false

module _ {Command : Type 0} where
  -- The end of the silence branch: the fault, and the event unless it would be redundant.
  unfoldable pub enter_silence : HandLifecycle → ℕ → HandCore Command → HandCore Command
  enter_silence observed cycle core =
      let anomaly = decode_result_number core.comms.last_receive_anomaly in
      let class = core.comms.last_error_frame_class in
      if is_faulted observed
      then core
      else push_event
          (hand_event receive_silence cycle anomaly class observed (is_running observed))
          (record core {
            last_stop_cause = record {
              reason = receive_silence;
              cycle = cycle;
              detail = anomaly;
              can_error_class = class;
            };
            lifecycle = faulted;
          })

  unfoldable pub leave_silence : HandLifecycle → ℕ → HandCore Command → HandCore Command
  leave_silence observed cycle core =
      push_event (hand_event receive_restored cycle 0 0 observed false) core

  -- The mirror of the first frame.
  unfoldable pub report_first_frame : LoopState → HandCore Command → LoopState × HandCore Command
  report_first_frame loop core =
      if not loop.first_frame_reported && core.comms.any_frame_received
      then (record loop { first_frame_reported = true }, record core { check_first_frame = true })
      else (loop, core)

  unfoldable pub watch_link :
      LoopState → HandCore Command → HandLifecycle → ℕ → ℕ → LinkResult Command
  watch_link loop core observed cycle loss_cycles =
      let (loop', core') = report_first_frame loop core in
      let receiving = leb core.comms.cycles_since_last_frame loss_cycles in
      if not core.comms.any_frame_received
      then record { loop = loop'; core = core'; observed = observed; receiving = false }
      else record {
        loop = record loop' { previous_receiving = receiving };
        core =
            if loop.previous_receiving && not receiving
            then enter_silence observed cycle core'
            else if not loop.previous_receiving && receiving
            then leave_silence observed cycle core'
            else core';
        observed = if loop.previous_receiving && not receiving then faulted else observed;
        receiving = receiving;
      }

  -- The loop over the actuators from i on.
  unfoldable pub watch_faults_from :
      ℕ
      → ℕ
      → LoopState
      → HandCore Command
      → ActuatorHealth
      → HandLifecycle
      → ℕ
      → LoopState × HandCore Command
  watch_faults_from zero i loop core health lifecycle cycle = (loop, core)
  watch_faults_from (suc n) i loop core health lifecycle cycle =
      let same = health.fault i == loop.previous_fault i in
      watch_faults_from n (i + 1)
        (if same
          then loop
          else record loop { previous_fault = set loop.previous_fault i (health.fault i) })
        (if same then core else push_event (fault_event i (health.fault i) lifecycle cycle) core)
        health lifecycle cycle

  unfoldable pub watch_actuator_faults :
      LoopState
      → HandCore Command
      → ActuatorHealth
      → HandLifecycle
      → ℕ
      → LoopState × HandCore Command
  watch_actuator_faults loop core health lifecycle cycle =
      watch_faults_from actuator_count 0 loop core health lifecycle cycle

  -- The lifecycle that `watch_drive_state` stores last: the two stores of one call are merged, since
  -- a second one overwrites the first.
  unfoldable pub watch_drive_state : Bool → HandCore Command → HandCore Command
  watch_drive_state receiving core =
      let observed = core.lifecycle in
      let linked : HandCore Command =
        if is_disconnected observed && core.comms.any_frame_received
        then record core { lifecycle = connected }
        else core in
      if is_faulted observed
      then core
      else if not receiving
      then linked
      else if is_running core.requested_lifecycle && not (is_running observed)
      then if drives_enabled core.comms then record linked { lifecycle = running } else linked
      else if is_stopped core.requested_lifecycle && not (is_stopped observed)
      then if quick_stop_attained core.comms then record linked { lifecycle = stopped } else linked
      else linked

  -- A latch that was not up in the cycle before begins an episode.
  unfoldable pub begin_latch : LoopState → HandCore Command → LoopState × HandCore Command
  begin_latch loop core = if loop.previous_latched then (loop, core) else (
    record loop {
      confirmation_cycles = 0;
      confirmation_by_fault = is_faulted core.lifecycle;
      confirmation_confirmed_reported = false;
      confirmation_not_confirmed_reported = false;
    },
    record core { stop_confirmation = waiting },
  )

  -- The two reports behind the verdict.
  unfoldable pub report_verdict :
      StopConfirmation
      → StopConfirmation
      → ℕ
      → LoopState
      → HandCore Command
      → LoopState × HandCore Command
  report_verdict prev next cycle loop core =
      if is_confirmed next
      then if not (is_confirmed prev)
          && loop.confirmation_by_fault
          && not loop.confirmation_confirmed_reported
        then (
          record loop { confirmation_confirmed_reported = true },
          push_event (hand_event stop_confirmed cycle 0 0 core.lifecycle false) core,
        )
        else (loop, core)
      else if is_not_confirmed next
          && not (is_not_confirmed prev)
          && loop.confirmation_by_fault
          && not loop.confirmation_not_confirmed_reported
      then (
        record loop { confirmation_not_confirmed_reported = true },
        push_event (hand_event stop_not_confirmed cycle 0 0 core.lifecycle false) core,
      )
      else (loop, core)

  -- One cycle of a latch.
  unfoldable pub judge_latch :
      Bool → ℕ → ℕ → LoopState → HandCore Command → LoopState × HandCore Command
  judge_latch receiving cycle window loop core =
      let prev = core.stop_confirmation in
      let (next, cycles) =
        evaluate_stop_confirmation prev (receiving && quick_stop_attained core.comms)
          loop.confirmation_cycles window in
      report_verdict prev next cycle (record loop { confirmation_cycles = cycles })
        (record core { stop_confirmation = next })

  unfoldable pub is_latched : HandCore Command → Bool
  is_latched core = is_stopped core.requested_lifecycle || is_faulted core.lifecycle

  unfoldable pub watch_stop_verdict :
      LoopState → HandCore Command → Bool → ℕ → ℕ → LoopState × HandCore Command
  watch_stop_verdict loop core receiving cycle window =
      let (begun, fresh) = begin_latch loop core in
      let (judged, after) = judge_latch receiving cycle window begun fresh in
      if is_latched core
      then (record judged { previous_latched = true }, after)
      else (record loop { previous_latched = false }, core)
