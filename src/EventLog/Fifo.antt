-- ===== src/EventLog/Fifo.antt =====
-- Which events one call of `log_pending_events` takes (hand_core_event_logging_thread.cpp).
use aidin_hand2_sdk.Base.{◌≡◌, true, ◌⊎◌, none, some, List, [], ◌∷◌, ◌++◌}
use aidin_hand2_sdk.EventRing.{Ring, pop, count_dropped}
use aidin_hand2_sdk.EventRing.Queue.{Inv, events}
use aidin_hand2_sdk.Types.Events.{RealtimeEvent}
use aidin_hand2_sdk.EventLog.Drain.{Round, Drained}

-- The events of some rounds, in order.
abbrev pub all_events : List Round → Round
all_events [] = []
all_events (round ∷ rounds) = round ++ all_events rounds

-- What a pop finds.
abbrev Front : Ring RealtimeEvent → Type 0
Front r =
    let (left, front) = pop r in
    (count_dropped left ≡ count_dropped r)
    × (((front ≡ none) × (events r ≡ []) × (events left ≡ []))
        ⊎ ((event : RealtimeEvent) × (front ≡ some event) × (events r ≡ event ∷ events left)))

-- The rounds split where the loop ended: the events of the earlier ones are popped, those of the
-- later ones wait.
abbrev pub TakesAll : Ring RealtimeEvent → List Round → Drained → Type 0
TakesAll r rounds d =
    (d.ended ≡ true)
    × Inv d.ring
    × (count_dropped d.ring ≡ count_dropped r)
    × ((before : List Round) × (after : List Round) × (rounds ≡ before ++ after)
        × (d.popped ≡ events r ++ all_events before)
        × (events d.ring ≡ all_events after))
