-- ===== src/EventRing/Tests.antt =====
-- A ring whose write index wraps at 2 ^ 64.
use aidin_hand2_sdk.Base.{ℕ, ◌≡◌, ◌^◌, ◌-◌, List, [], ◌∷◌, arith}
use aidin_hand2_sdk.EventRing.{Ring, new_ring, push, pop}
use aidin_hand2_sdk.EventRing.Queue.{Inv, enqueue, dequeue, queue_of}
use aidin_hand2_sdk.EventRing.Calls.{Call, push_call, pop_call, run, run-queue}

abbrev late_ring : Ring ℕ
late_ring = record (new_ring 0) { write_index = 2 ^ 64 - 1; read_index = 2 ^ 64 - 1 }

late_ring-Inv : Inv late_ring
late_ring-Inv = record { write_lt = omega arith; read_lt = omega arith; fits = omega arith }

abbrev some_calls : List (Call ℕ)
some_calls = push_call 5 ∷ push_call 6 ∷ pop_call ∷ pop_call ∷ pop_call ∷ []

run-queue_example :
    (queue_of (run push pop some_calls late_ring).0, (run push pop some_calls late_ring).1)
    ≡ run enqueue dequeue some_calls (queue_of late_ring)
run-queue_example = run-queue some_calls late_ring late_ring-Inv
