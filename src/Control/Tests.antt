-- ===== src/Control/Tests.antt =====
-- A core whose hand has just gone silent.
use aidin_hand2_sdk.Base.{
  ℕ, ◌≡◌, refl, true, false, not, ◌&&◌, ◌||◌, leb, ltb, if◌then◌else◌, List, [], ◌∷◌, map, none,
}
use aidin_hand2_sdk.Base.Arrays.{fill}
use aidin_hand2_sdk.Base.Lists.{length}
use aidin_hand2_sdk.EventRing.{new_ring, push}
use aidin_hand2_sdk.Protocol.Ids.{left}
use aidin_hand2_sdk.Protocol.Observation.{ActuatorHealth}
use aidin_hand2_sdk.StopConfirmation.{waiting, confirmed, not_confirmed}
use aidin_hand2_sdk.StopConfirmation.Verdict.{any_signal}
use aidin_hand2_sdk.Comms.Session.{HandComms, new_comms}
use aidin_hand2_sdk.Types.Lifecycle.{running, stopped, is_faulted, not_run}
use aidin_hand2_sdk.Types.Events.{RealtimeEvent, receive_silence, receive_restored}
use aidin_hand2_sdk.Control.State.{HandCore, new_loop, hand_event}
use aidin_hand2_sdk.Control.Watch.{watch_drive_state, watch_link, is_latched}
use aidin_hand2_sdk.Control.Evidence.{
  Evidence, watch_drive_state-Evidence, watch_link-fault, is_lost, is_restored, silence_event,
}
use aidin_hand2_sdk.Control.Latch.{LatchCycle, signal, latch_cycles, latch_cycles-verdict}

abbrev blank : RealtimeEvent
blank = hand_event receive_silence 0 0 0 running false

abbrev silent : HandComms
silent = record (new_comms none left []) { any_frame_received = true; cycles_since_last_frame = 51 }

abbrev pub core : HandCore ℕ
core = record {
  comms = silent;
  requested_lifecycle = running;
  lifecycle = running;
  event_ring = new_ring blank;
  last_stop_cause = record { reason = receive_silence; cycle = 0; detail = 0; can_error_class = 0 };
  stop_confirmation = waiting;
  homing_state = not_run;
  active_homing = true;
  result_homing = false;
  check_first_frame = true;
  request_homing = false;
  request_hold = true;
  check_communication = false;
  staging_command = 0;
}

watch_drive_state-Evidence_example : Evidence false core (watch_drive_state false core).lifecycle
watch_drive_state-Evidence_example = watch_drive_state-Evidence false core

watch_link-fault_example :
    let r = watch_link new_loop core core.lifecycle 900 50 in
    (is_faulted r.core.lifecycle ≡ (is_faulted core.lifecycle || is_lost new_loop core 50))
    × (is_faulted r.observed ≡ is_faulted r.core.lifecycle)
    × (r.core.event_ring ≡ (
        if is_lost new_loop core 50 && not (is_faulted core.lifecycle)
        then (push (silence_event core 900) core.event_ring).0
        else if is_restored new_loop core 50
        then (push (hand_event receive_restored 900 0 0 core.lifecycle false) core.event_ring).0
        else core.event_ring))
    × (is_lost new_loop core 50 && not (is_faulted core.lifecycle) ≡ true
        → (r.core.last_stop_cause.reason ≡ receive_silence) × (r.core.last_stop_cause.cycle ≡ 900))
    × (r.receiving ≡ (core.comms.any_frame_received && leb core.comms.cycles_since_last_frame 50))
watch_link-fault_example = watch_link-fault new_loop core 900 50

abbrev one_fault : ActuatorHealth
one_fault = record { enabled = fill false; fault = fill 0x7500 }

abbrev stopping : HandCore ℕ
stopping = record core { requested_lifecycle = stopped }

abbrev two_cycles : List LatchCycle
two_cycles = (silent, false, 4) ∷ (silent, true, 5) ∷ []

stopping_latched : is_latched stopping ≡ true
unfolding is_latched
stopping_latched = refl

latch_cycles-verdict_example :
    (latch_cycles 100 ((silent, false, 3) ∷ two_cycles) (new_loop, stopping)).1.stop_confirmation
    ≡ (if any_signal (map signal ((silent, false, 3) ∷ two_cycles))
        then confirmed
        else if ltb 100 (length (map signal ((silent, false, 3) ∷ two_cycles)))
        then not_confirmed
        else waiting)
latch_cycles-verdict_example =
    latch_cycles-verdict 100 (silent, false, 3) two_cycles new_loop stopping stopping_latched refl
