-- ===== src/RealtimeBuffer/Mailbox.antt =====
-- The buffer of realtime_buffer.hpp seen as a mailbox that holds at most one value: `write` puts its
-- value, replacing one that was not read, and `read` takes it.
use aidin_hand2_sdk.Base.{◌≡◌, refl, Option, none, some, arith, if◌then◌else◌}
use aidin_hand2_sdk.Base.Arrays.{Array}
use aidin_hand2_sdk.RealtimeBuffer.Word.{rdy, rd, fresh}
use aidin_hand2_sdk.RealtimeBuffer.Steps.{
  Buffer, Writer, Reader, Step, Reach, outside, writing, publishing, taking, copying, load_write,
  scribble, fill_slot, publish_fails, publish, load_stale, load_fresh, take_fails, take, copy,
  new_buffer,
}
use aidin_hand2_sdk.RealtimeBuffer.Handoff.{
  Inv, Reach-Inv, new_buffer-Inv, published_lem, taken_lem,
}

module _ {A : Type 0} where
  -- The value that waits to be read.
  abbrev pub mailbox : Buffer A → Option A
  mailbox b = if fresh b.state then some (b.slots (rdy b.state)) else none

  -- The value that the consumer has taken and not returned.
  abbrev held_by : Array A → Reader A → Option A
  held_by slots outside = none
  held_by slots (taking cur) = none
  held_by slots (copying next) = some (slots (rd next))

  abbrev pub held : Buffer A → Option A
  held b = held_by b.slots b.reader

  -- The value of the `write` call that is under way.
  abbrev offered_by : Writer A → Option A
  offered_by outside = none
  offered_by (writing v s) = some v
  offered_by (publishing v cur) = some v

  abbrev pub offered : Buffer A → Option A
  offered b = offered_by b.writer

  -- What one step is for the mailbox.
  pub data Handed (b c : Buffer A) : Type 0 where
    stays : mailbox c ≡ mailbox b → held c ≡ held b → c.out ≡ b.out → Handed b c
    puts :
        (v : A)
        → offered b ≡ some v
        → mailbox c ≡ some v
        → held c ≡ held b
        → offered c ≡ none
        → c.out ≡ b.out
        → Handed b c
    takes :
        (v : A)
        → mailbox b ≡ some v
        → mailbox c ≡ none
        → held c ≡ some v
        → c.out ≡ b.out
        → Handed b c
    returns :
        (v : A)
        → held b ≡ some v
        → held c ≡ none
        → mailbox c ≡ mailbox b
        → c.out ≡ some v
        → Handed b c

  Step-Handed : {b c : Buffer A} → Inv b → Step b c → Handed b c
  Step-Handed h (load_write v e q) = rw q (stays refl refl refl)
  Step-Handed h (scribble v s garbage e q) =
      rw q (stays (ground (arith, h)) (ground (arith, h)) refl)
  Step-Handed h (fill_slot v s e q) = rw q (stays (ground (arith, h)) (ground (arith, h)) refl)
  Step-Handed h (publish_fails v cur e q) = rw q (stays refl refl refl)
  Step-Handed {b} h (publish v cur e k q) =
      rw (q, ← k)
        (puts v (ground arith) (ground (arith, h, published_lem b.state h.distinct)) refl refl refl)
  Step-Handed h (load_stale e f q) = rw q (stays refl refl refl)
  Step-Handed h (load_fresh e f q) = rw q (stays refl (ground arith) refl)
  Step-Handed h (take_fails cur e q) = rw q (stays refl (ground arith) refl)
  Step-Handed {b} h (take cur e k q) =
      rw (q, ← k)
        (takes (b.slots (rdy b.state)) (ground (arith, h))
          (ground (arith, h, taken_lem b.state h.distinct))
          (ground (arith, h, taken_lem b.state h.distinct)) refl)
  Step-Handed {b} h (copy word e q) =
      rw q (returns (b.slots (rd word)) (ground arith) refl refl refl)

  -- In every interleaving from a new buffer, a step of either thread leaves the mailbox and the value
  -- held by the consumer alone, or publishes: the value of the `write` under way becomes the one in
  -- the mailbox; or takes: the mailbox's value becomes the one held and the mailbox is empty, so no
  -- value is taken twice; or returns exactly the value held, whatever was written meanwhile.
  pub buffer-mailbox :
      (slots : Array A) (b c : Buffer A) → Reach (new_buffer slots) b → Step b c → Handed b c
  buffer-mailbox slots b c r st = Step-Handed (Reach-Inv (new_buffer-Inv slots) r) st
