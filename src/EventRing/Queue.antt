-- ===== src/EventRing/Queue.antt =====
-- The ring of realtime_event_ring.hpp seen as a bounded queue: its events, oldest first.
use aidin_hand2_sdk.Base.{
  ℕ, zero, suc, ◌+◌, ◌%◌, ◌^◌, ◌≤◌, ◌<◌, ◌≡◌, ◌≢◌, refl, sym, ap, inl, inr, Bool, true, false,
  Option, none, some, leb, ◌==◌, if◌then◌else◌, List, [], ◌∷◌, ◌++◌, arith, Bool-cases,
}
use aidin_hand2_sdk.Base.Arrays.{Array, set}
use aidin_hand2_sdk.Base.Lists.{length}
use aidin_hand2_sdk.EventRing.{Ring, capacity, u64, sub_u64, new_ring, push, pop, count_dropped}

-- How the number of waiting events moves.
size_after_push :
    (w r : ℕ)
    → w < 2 ^ 64
    → r < 2 ^ 64
    → sub_u64 w r < capacity
    → (sub_u64 (u64 (w + 1)) r ≡ suc (sub_u64 w r)) × (w % capacity ≡ (r + sub_u64 w r) % capacity)
size_after_push w r hw hr h = omega arith

size_before_pop :
    (w r : ℕ)
    → w < 2 ^ 64
    → r < 2 ^ 64
    → r ≢ w
    → (sub_u64 w r ≡ suc (sub_u64 w (u64 (r + 1)))) × (u64 (r + 1) % capacity ≡ (r + 1) % capacity)
size_before_pop w r hw hr h = omega arith

size_empty : (w r : ℕ) → w < 2 ^ 64 → (r == w) ≡ true → sub_u64 w r ≡ 0
size_empty w r hw h = ground arith

-- The bounded queue: its events, oldest first, and how many were refused.
abbrev pub BoundedQueue {ℓ} : Type ℓ → Type ℓ
BoundedQueue A = List A × ℕ

module _ {ℓ} {A : Type ℓ} where
  abbrev pub enqueue : A → BoundedQueue A → BoundedQueue A × Bool
  enqueue event (q, refused) =
      if leb capacity (length q)
      then ((q, u64 (refused + 1)), false)
      else ((q ++ event ∷ [], refused), true)

  abbrev pub dequeue : BoundedQueue A → BoundedQueue A × Option A
  dequeue ([], refused) = (([], refused), none)
  dequeue (event ∷ q, refused) = ((q, refused), some event)

  pub record Inv (r : Ring A) : Type ℓ where
    pub write_lt : r.write_index < 2 ^ 64
    pub read_lt : r.read_index < 2 ^ 64
    pub fits : sub_u64 r.write_index r.read_index ≤ capacity

  -- n events from the index i on, oldest first.
  abbrev events_from : Array A → ℕ → ℕ → List A
  events_from slots i zero = []
  events_from slots i (suc n) = slots (i % capacity) ∷ events_from slots (i + 1) n

  unfoldable pub events : Ring A → List A
  events r = events_from r.slots r.read_index (sub_u64 r.write_index r.read_index)

  -- The number of the slot is all that counts, so an index that wraps at 2 ^ 64 is as good.
  events_from-mod :
      (slots : Array A) (i j n : ℕ)
      → i % capacity ≡ j % capacity
      → events_from slots i n ≡ events_from slots j n
  events_from-mod slots i j zero h = refl
  events_from-mod slots i j (suc n) h =
      rw (h, events_from-mod slots (i + 1) (j + 1) n (omega arith))

  length-events_from : (slots : Array A) (i n : ℕ) → length (events_from slots i n) ≡ n
  length-events_from slots i zero = refl
  length-events_from slots i (suc n) = ap suc (length-events_from slots (i + 1) n)

  -- Writing the slot behind n events that leave room appends an event.
  events_from-set :
      (slots : Array A) (i n w : ℕ) (event : A)
      → n < capacity
      → w % capacity ≡ (i + n) % capacity
      → events_from (set slots (w % capacity) event) i (suc n) ≡ events_from slots i n ++ event ∷ []
  events_from-set slots i zero w event lt h = ground arith
  events_from-set slots i (suc n) w event lt h =
      rw (events_from-set slots (i + 1) n w event (omega arith) (omega arith))
        (ground (arith, other))
    where
      other : ((i % capacity == w % capacity) ≡ false)
      other = ground arith

  pub push-Inv : (event : A) (r : Ring A) → Inv r → Inv (push event r).0
  unfolding push
  push-Inv event r h = ground arith

  pub pop-Inv : (r : Ring A) → Inv r → Inv (pop r).0
  unfolding pop
  pop-Inv r h = ground arith

  pub new_ring-Inv : (event : A) → Inv (new_ring event)
  unfolding new_ring
  new_ring-Inv event = ground arith

  push-events :
      (event : A) (r : Ring A)
      → Inv r
      → sub_u64 r.write_index r.read_index < capacity
      → events_from
          (set r.slots (r.write_index % capacity) event)
          r.read_index
          (sub_u64 (u64 (r.write_index + 1)) r.read_index)
        ≡ events_from r.slots r.read_index (sub_u64 r.write_index r.read_index) ++ event ∷ []
  push-events event r h room =
      let (size, slot) = size_after_push r.write_index r.read_index h.write_lt h.read_lt room in
      rw size (
        events_from-set r.slots r.read_index (sub_u64 r.write_index r.read_index) r.write_index
          event room slot)

  pop-events :
      (r : Ring A)
      → Inv r
      → r.read_index ≢ r.write_index
      → events_from r.slots r.read_index (sub_u64 r.write_index r.read_index)
        ≡ r.slots (r.read_index % capacity)
          ∷ events_from r.slots
              (u64 (r.read_index + 1))
              (sub_u64 r.write_index (u64 (r.read_index + 1)))
  pop-events r h ne =
      let (size, slot) = size_before_pop r.write_index r.read_index h.write_lt h.read_lt ne in
      rw size (
        ap (◌∷◌ (r.slots (r.read_index % capacity))) (
          sym (
            events_from-mod r.slots (u64 (r.read_index + 1)) (r.read_index + 1)
              (sub_u64 r.write_index (u64 (r.read_index + 1))) slot)))

  length-events : (r : Ring A) → length (events r) ≡ sub_u64 r.write_index r.read_index
  unfolding events
  length-events r = length-events_from r.slots r.read_index (sub_u64 r.write_index r.read_index)

  abbrev pub queue_of : Ring A → BoundedQueue A
  queue_of r = (events r, count_dropped r)

  pub push-enqueue :
      (event : A) (r : Ring A)
      → Inv r
      → (queue_of (push event r).0, (push event r).1) ≡ enqueue event (queue_of r)
  unfolding push count_dropped
  push-enqueue event r h = elim (Bool-cases (leb capacity (sub_u64 r.write_index r.read_index))) [
    | inl full ↦ rw (length-events r, full) (unfold events in refl)
    | inr room ↦
        rw (length-events r, room)
          (unfold events in λ i. ((push-events event r h (ground arith) i, r.dropped), true))
  ]

  pub pop-dequeue : (r : Ring A) → Inv r → (queue_of (pop r).0, (pop r).1) ≡ dequeue (queue_of r)
  unfolding pop events count_dropped
  pop-dequeue r h = elim (Bool-cases (r.read_index == r.write_index)) [
    | inl empty ↦ rw (empty, size_empty r.write_index r.read_index h.write_lt empty) refl
    | inr left ↦ rw (left, pop-events r h (ground arith)) refl
  ]
