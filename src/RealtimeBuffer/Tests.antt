-- ===== src/RealtimeBuffer/Tests.antt =====
-- A write, a read in the middle of its copy, and a second write in the middle of its own.
use aidin_hand2_sdk.Base.{ℕ, ◌≡◌, ◌≢◌, ◌<◌, refl, true, some}
use aidin_hand2_sdk.Base.Arrays.{Array, fill, set}
use aidin_hand2_sdk.RealtimeBuffer.Word.{pack, wr, rdy, rd, fresh}
use aidin_hand2_sdk.RealtimeBuffer.Steps.{
  Buffer, Reach, here, more, outside, writing, publishing, taking, copying, load_write, fill_slot,
  publish, load_fresh, take, copy, new_buffer, published, taken,
}
use aidin_hand2_sdk.RealtimeBuffer.Handoff.{slots_disjoint}
use aidin_hand2_sdk.RealtimeBuffer.Mailbox.{Handed, buffer-mailbox}

abbrev slots : Array ℕ
slots = fill 0

abbrev first : Buffer ℕ
first = new_buffer slots

abbrev loaded : Buffer ℕ
loaded = record first { writer = writing 7 first.state }

abbrev filled : Buffer ℕ
filled = record loaded {
  slots = set loaded.slots (wr first.state) 7;
  writer = publishing 7 first.state;
}

abbrev waiting : Buffer ℕ
waiting = record filled { state = published filled.state; writer = outside }

abbrev reading : Buffer ℕ
reading = record waiting { reader = taking waiting.state }

abbrev took : Buffer ℕ
took = record reading { state = taken reading.state; reader = copying (taken reading.state) }

abbrev both : Buffer ℕ
both = record took { writer = writing 8 took.state }

idle :
    (first.writer ≡ outside)
    × (waiting.reader ≡ outside)
    × (fresh waiting.state ≡ true)
    × (took.writer ≡ outside)
unfolding new_buffer published fresh pack rdy wr rd
idle = (refl, refl, refl, refl)

first-both : Reach first both
first-both =
    more
      (more
        (more
          (more (more (more here (load_write 7 idle.0 refl)) (fill_slot 7 first.state refl refl))
            (publish 7 first.state refl refl refl))
          (load_fresh idle.1 idle.2 refl))
        (take waiting.state refl refl refl))
      (load_write 8 idle.3 refl)

slots_disjoint_example :
    (wr took.state ≢ rd (taken waiting.state))
    × (wr took.state < 3)
    × (rd (taken waiting.state) < 3)
slots_disjoint_example =
    slots_disjoint slots both 8 took.state (taken waiting.state) first-both refl refl

buffer-mailbox_example :
    Handed both
      (record both { reader = outside; out = some (both.slots (rd (taken waiting.state))) })
buffer-mailbox_example =
    buffer-mailbox slots both _ first-both (copy (taken waiting.state) refl refl)
