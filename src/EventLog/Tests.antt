-- ===== src/EventLog/Tests.antt =====
-- Two waiting events and one that is pushed meanwhile; and a full ring.
use aidin_hand2_sdk.Base.{◌+◌, ◌%◌, ◌^◌, ◌≡◌, refl, false, arith, Option, some, List, [], ◌∷◌}
use aidin_hand2_sdk.Base.Lists.{replicate}
use aidin_hand2_sdk.Types.Lifecycle.{running}
use aidin_hand2_sdk.Types.Events.{RealtimeEvent, homing_completed, actuator_fault_set}
use aidin_hand2_sdk.Control.State.{hand_event}
use aidin_hand2_sdk.Protocol.Tests.{linux}
use aidin_hand2_sdk.EventRing.{new_ring, count_dropped, push}
use aidin_hand2_sdk.Lifecycle.Phrase.{decimal, to_hex16}
use aidin_hand2_sdk.EventLog.Text.{Line, line_of, warn, fault_description, fault_name}
use aidin_hand2_sdk.EventLog.Drain.{Round, LogState, push_all, run_event_logging_loop}
use aidin_hand2_sdk.EventLog.Drops.{takes, total_refused, log_of, run_event_logging_loop-reports}

abbrev event : RealtimeEvent
event = hand_event homing_completed 7 0 0 running false

abbrev texts : RealtimeEvent → Option Line
texts = line_of linux 0x40 (λ n. "")

abbrev waiting : LogState
waiting = record { ring = (push event (new_ring event)).0; reported = 0 }

abbrev rounds : List Round
rounds = [] ∷ (event ∷ []) ∷ [] ∷ []

-- The line of an over current of actuator 3, with its fault code.
fault_line :
    texts (record event { kind = actuator_fault_set; actuator_index = 3; detail = 0x2310 })
    ≡ some (record {
      severity = warn;
      text = "[cycle 7] actuator 3 fault set (OverCurrentError 0x2310)";
    })
unfolding line_of decimal fault_description fault_name to_hex16
fault_line = refl

-- 66 events into an empty ring, then one call.
abbrev full : LogState
full = record { ring = push_all (replicate 66 event) (new_ring event); reported = 0 }

two_dropped : count_dropped full.ring ≡ 2
unfolding count_dropped push_all push new_ring
two_dropped = refl

run_event_logging_loop-reports_example :
    let (end, output) = run_event_logging_loop texts (rounds ∷ []) rounds 20 full in
    let (calls, final) = takes (rounds ∷ []) rounds full.ring 0 in
    (end.reported ≡ count_dropped end.ring)
    × (output ≡ log_of texts 20 calls final)
    × ((0 + (total_refused calls + final.refused)) % 2 ^ 64 ≡ count_dropped end.ring)
run_event_logging_loop-reports_example =
    run_event_logging_loop-reports texts (rounds ∷ []) rounds 20 full (omega (arith, two_dropped))
      (omega arith)
