-- ===== src/Control/Evidence.antt =====
-- What moves the observed lifecycle: the evidence that `watch_drive_state` and `watch_link` ask for.
-- (cpp/src/hand_core/threads/hand_core_control_thread.cpp)
use aidin_hand2_sdk.Base.{
  ℕ, ◌≡◌, ◌≢◌, ◌⊎◌, Bool, true, false, not, ◌&&◌, ◌||◌, leb, ltb, if◌then◌else◌, arith,
}
use aidin_hand2_sdk.EventRing.{push}
use aidin_hand2_sdk.Comms.Cycle.{drives_enabled, quick_stop_attained}
use aidin_hand2_sdk.Types.Lifecycle.{
  HandLifecycle, disconnected, connected, running, stopped, faulted, is_running, is_faulted,
}
use aidin_hand2_sdk.Types.Events.{RealtimeEvent, receive_silence, receive_restored}
use aidin_hand2_sdk.Control.State.{
  HandCore, LoopState, push_event, hand_event, decode_result_number,
}
use aidin_hand2_sdk.Control.Watch.{
  watch_drive_state, watch_link, report_first_frame, enter_silence, leave_silence,
}

module _ {Command : Type 0} where
  -- The evidence on which a cycle may move the lifecycle, and where to.
  abbrev pub Evidence : Bool → HandCore Command → HandLifecycle → Type 0
  Evidence receiving core next =
      (next ≡ core.lifecycle)
      ⊎ ((next ≡ connected)
          × (core.lifecycle ≡ disconnected)
          × (core.comms.any_frame_received ≡ true))
      ⊎ ((next ≡ running)
          × (receiving ≡ true)
          × (core.requested_lifecycle ≡ running)
          × (drives_enabled core.comms ≡ true)
          × (core.lifecycle ≢ faulted))
      ⊎ ((next ≡ stopped)
          × (receiving ≡ true)
          × (core.requested_lifecycle ≡ stopped)
          × (quick_stop_attained core.comms ≡ true)
          × (core.lifecycle ≢ faulted))

  -- `watch_drive_state` moves the lifecycle only on evidence: to Connected from Disconnected on a
  -- decoded frame; to Running or Stopped only if that is requested, the hand is being received and the
  -- drives report the enable or the quick stop; and never out of Faulted.
  pub watch_drive_state-Evidence :
      (receiving : Bool) (core : HandCore Command)
      → Evidence receiving core (watch_drive_state receiving core).lifecycle
  unfolding watch_drive_state
  watch_drive_state-Evidence receiving core = ground arith

  -- The cycle in which a link that was alive is found silent.
  abbrev pub is_lost : LoopState → HandCore Command → ℕ → Bool
  is_lost loop core loss_cycles =
      core.comms.any_frame_received
      && loop.previous_receiving
      && ltb loss_cycles core.comms.cycles_since_last_frame

  abbrev pub is_restored : LoopState → HandCore Command → ℕ → Bool
  is_restored loop core loss_cycles =
      core.comms.any_frame_received
      && not loop.previous_receiving
      && leb core.comms.cycles_since_last_frame loss_cycles

  -- The event of a loss: what was heard last, and the state before.
  abbrev pub silence_event : HandCore Command → ℕ → RealtimeEvent
  silence_event core cycle =
      hand_event receive_silence cycle (decode_result_number core.comms.last_receive_anomaly)
        core.comms.last_error_frame_class core.lifecycle (is_running core.lifecycle)

  -- When the loop's copy of the lifecycle is current: `watch_link` leaves the hand Faulted exactly if
  -- it was so or the link is lost in this cycle, the copy with it; a loss from another state records
  -- its cause and pushes one silence event that keeps that state, a loss in Faulted pushes nothing; a
  -- return pushes one event and does not end the fault; and the link is never alive before a frame.
  pub watch_link-fault :
      (loop : LoopState) (core : HandCore Command) (cycle loss_cycles : ℕ)
      → let r = watch_link loop core core.lifecycle cycle loss_cycles in
        (is_faulted r.core.lifecycle ≡ (is_faulted core.lifecycle || is_lost loop core loss_cycles))
        × (is_faulted r.observed ≡ is_faulted r.core.lifecycle)
        × (r.core.event_ring ≡ (
            if is_lost loop core loss_cycles && not (is_faulted core.lifecycle)
            then (push (silence_event core cycle) core.event_ring).0
            else if is_restored loop core loss_cycles
            then (push
                (hand_event receive_restored cycle 0 0 core.lifecycle false)
                core.event_ring).0
            else core.event_ring))
        × (is_lost loop core loss_cycles && not (is_faulted core.lifecycle) ≡ true
            → (r.core.last_stop_cause.reason ≡ receive_silence)
              × (r.core.last_stop_cause.cycle ≡ cycle))
        × (r.receiving
            ≡ (core.comms.any_frame_received && leb core.comms.cycles_since_last_frame loss_cycles))
  unfolding watch_link report_first_frame enter_silence leave_silence push_event
  watch_link-fault loop core cycle loss_cycles = ground arith
