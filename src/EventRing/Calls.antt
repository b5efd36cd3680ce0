-- ===== src/EventRing/Calls.antt =====
-- Sequences of calls of the two threads on the ring of realtime_event_ring.hpp.
use aidin_hand2_sdk.Base.{◌≡◌, refl, Bool, Option, List, [], ◌∷◌}
use aidin_hand2_sdk.EventRing.{Ring, new_ring, push, pop, count_dropped}
use aidin_hand2_sdk.EventRing.Queue.{
  enqueue, dequeue, queue_of, Inv, push-Inv, pop-Inv, push-enqueue, pop-dequeue, events,
}

module _ {ℓ} (A : Type ℓ) where
  pub data Call : Type ℓ where
    push_call : A → Call
    pop_call : Call

  pub data Answer : Type ℓ where
    pushed : Bool → Answer
    popped : Option A → Answer

module _ {ℓ} {A : Type ℓ} where
  -- One call of a queue that has the two operations, and a sequence of them.
  pub call {κ} : {Q : Type κ} → (A → Q → Q × Bool) → (Q → Q × Option A) → Call A → Q → Q × Answer A
  call put get (push_call event) q = let (q', ok) = put event q in (q', pushed ok)
  call put get pop_call q = let (q', got) = get q in (q', popped got)

  pub run {κ} :
      {Q : Type κ}
      → (A → Q → Q × Bool)
      → (Q → Q × Option A)
      → List (Call A)
      → Q
      → Q × List (Answer A)
  run put get [] q = (q, [])
  run put get (c ∷ calls) q =
      let (q', answer) = call put get c q in
      let (end, answers) = run put get calls q' in (end, answer ∷ answers)

  call-Inv : (c : Call A) (r : Ring A) → Inv r → Inv (call push pop c r).0
  unfolding call
  call-Inv (push_call event) r h = push-Inv event r h
  call-Inv pop_call r h = pop-Inv r h

  call-queue :
      (c : Call A) (r : Ring A)
      → Inv r
      → (queue_of (call push pop c r).0, (call push pop c r).1)
        ≡ call enqueue dequeue c (queue_of r)
  unfolding call
  call-queue (push_call event) r h =
      λ i. ((push-enqueue event r h i).0, pushed (push-enqueue event r h i).1)
  call-queue pop_call r h = λ i. ((pop-dequeue r h i).0, popped (pop-dequeue r h i).1)

  -- From any ring that satisfies the invariant, in particular from a new one and from one whose
  -- 64-bit indices are about to wrap, a sequence of push and pop calls gives exactly the answers, the
  -- waiting events in order and the count of refused events of a first-in first-out queue that holds
  -- at most 64 events, refuses a push when full and counts it (modulo 2 ^ 64).
  pub run-queue :
      (calls : List (Call A)) (r : Ring A)
      → Inv r
      → (queue_of (run push pop calls r).0, (run push pop calls r).1)
        ≡ run enqueue dequeue calls (queue_of r)
  unfolding run
  run-queue [] r h = refl
  run-queue (c ∷ calls) r h = rw (← call-queue c r h) (λ i.
      let rest = run-queue calls (call push pop c r).0 (call-Inv c r h) i in
      (rest.0, (call push pop c r).1 ∷ rest.1))

  -- A new ring is the empty queue.
  pub queue_of-new_ring : (event : A) → queue_of (new_ring event) ≡ ([], 0)
  unfolding new_ring events count_dropped
  queue_of-new_ring event = refl
