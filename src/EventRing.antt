-- ===== src/EventRing.antt =====
-- cpp/src/types/realtime_event_ring.hpp: the fixed-capacity queue from the realtime loop to the
-- logging thread. The slots carry any type of event.
pub mod Queue
pub mod Calls
mod Tests
use aidin_hand2_sdk.Base.{
  ℕ, ◌+◌, ◌-◌, ◌%◌, ◌^◌, Bool, true, false, Option, none, some, leb, ◌==◌, if◌then◌else◌,
}
use aidin_hand2_sdk.Base.Arrays.{Array, set}

abbrev pub capacity : ℕ
capacity = 64

-- uint64_t arithmetic wraps.
abbrev pub u64 : ℕ → ℕ
u64 n = n % 2 ^ 64

abbrev pub sub_u64 : ℕ → ℕ → ℕ
sub_u64 a b = (a + 2 ^ 64 - b) % 2 ^ 64

module _ {ℓ} (A : Type ℓ) where
  pub record Ring : Type ℓ where
    pub slots : Array A
    pub write_index : ℕ
    pub read_index : ℕ
    pub dropped : ℕ

module _ {ℓ} {A : Type ℓ} where
  -- The member initialisers, the slots holding a default event.
  unfoldable pub new_ring : A → Ring A
  new_ring event = record { slots = λ _. event; write_index = 0; read_index = 0; dropped = 0 }

  unfoldable pub push : A → Ring A → Ring A × Bool
  push event r =
      if leb capacity (sub_u64 r.write_index r.read_index)
      then (record r { dropped = u64 (r.dropped + 1) }, false)
      else (
        record r {
          slots = set r.slots (r.write_index % capacity) event;
          write_index = u64 (r.write_index + 1);
        },
        true,
      )

  unfoldable pub pop : Ring A → Ring A × Option A
  pop r = if r.read_index == r.write_index then (r, none) else (
    record r { read_index = u64 (r.read_index + 1) },
    some (r.slots (r.read_index % capacity)),
  )

  unfoldable pub count_dropped : Ring A → ℕ
  count_dropped r = r.dropped
