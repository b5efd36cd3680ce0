-- ===== src/RealtimeBuffer/Handoff.antt =====
-- Where the two threads of realtime_buffer.hpp stand between their steps, and the slots they use.
use aidin_hand2_sdk.Base.{ℕ, ◌<◌, ◌≡◌, ◌≢◌, true, false, arith}
use aidin_hand2_sdk.Base.Arrays.{Array}
use aidin_hand2_sdk.RealtimeBuffer.Word.{wr, rdy, rd, fresh, unpack-pack}
use aidin_hand2_sdk.RealtimeBuffer.Steps.{
  Buffer, Writer, Reader, Step, Reach, outside, writing, publishing, taking, copying, load_write,
  scribble, fill_slot, publish_fails, publish, load_stale, load_fresh, take_fails, take, copy, here,
  more, new_buffer, published, taken,
}

-- Three different slot numbers.
pub record IsDistinct (s : ℕ) : Type 0 where
  pub wr_lt : wr s < 3
  pub rdy_lt : rdy s < 3
  pub rd_lt : rd s < 3
  pub wr_ne_rdy : wr s ≢ rdy s
  pub wr_ne_rd : wr s ≢ rd s
  pub rdy_ne_rd : rdy s ≢ rd s

pub published_lem :
    (s : ℕ)
    → IsDistinct s
    → (wr (published s) ≡ rdy s)
      × (rdy (published s) ≡ wr s)
      × (rd (published s) ≡ rd s)
      × (fresh (published s) ≡ true)
unfolding published
published_lem s h = unpack-pack (rdy s) (wr s) (rd s) true (omega arith) (omega arith) (omega arith)

pub taken_lem :
    (s : ℕ)
    → IsDistinct s
    → (wr (taken s) ≡ wr s)
      × (rdy (taken s) ≡ rd s)
      × (rd (taken s) ≡ rdy s)
      × (fresh (taken s) ≡ false)
unfolding taken
taken_lem s h = unpack-pack (wr s) (rd s) (rdy s) false (omega arith) (omega arith) (omega arith)

published-IsDistinct : (s : ℕ) → IsDistinct s → IsDistinct (published s)
published-IsDistinct s h = ground (arith, published_lem s h)

taken-IsDistinct : (s : ℕ) → IsDistinct s → IsDistinct (taken s)
taken-IsDistinct s h = ground (arith, taken_lem s h)

module _ {A : Type 0} where
  -- What the producer and the consumer know of the state word while they work.
  abbrev WriterKnows : Buffer A → Writer A → Type 0
  WriterKnows b outside = Unit {0}
  WriterKnows b (writing v s) = wr s ≡ wr b.state
  WriterKnows b (publishing v cur) = (wr cur ≡ wr b.state) × (b.slots (wr b.state) ≡ v)

  abbrev ReaderKnows : Buffer A → Reader A → Type 0
  ReaderKnows b outside = Unit {0}
  ReaderKnows b (taking cur) = fresh b.state ≡ true
  ReaderKnows b (copying taken_word) = rd taken_word ≡ rd b.state

  pub record Inv (b : Buffer A) : Type 0 where
    pub distinct : IsDistinct b.state
    pub writer_knows : WriterKnows b b.writer
    pub reader_knows : ReaderKnows b b.reader

  pub new_buffer-Inv : (slots : Array A) → Inv (new_buffer slots)
  unfolding new_buffer
  new_buffer-Inv slots = ground (arith, unpack-pack 0 1 2 false)

  Step-Inv : {b c : Buffer A} → Step b c → Inv b → Inv c
  Step-Inv (load_write v e q) h = rw q (ground (arith, h))
  Step-Inv (scribble v s garbage e q) h = rw q (ground (arith, h))
  Step-Inv (fill_slot v s e q) h = rw q (ground (arith, h))
  Step-Inv (publish_fails v cur e q) h = rw q (ground (arith, h))
  Step-Inv {b} (publish v cur e k q) h =
      rw (q, ← k) (ground (arith, h, published_lem b.state, published-IsDistinct b.state))
  Step-Inv (load_stale e f q) h = rw q h
  Step-Inv (load_fresh e f q) h = rw q (ground (arith, h))
  Step-Inv (take_fails cur e q) h = rw q (ground (arith, h))
  Step-Inv {b} (take cur e k q) h =
      rw (q, ← k) (ground (arith, h, taken_lem b.state, taken-IsDistinct b.state))
  Step-Inv (copy word e q) h = rw q (ground (arith, h))

  pub Reach-Inv : {b c : Buffer A} → Inv b → Reach b c → Inv c
  Reach-Inv h here = h
  Reach-Inv h (more r st) = Step-Inv st (Reach-Inv h r)

  -- In every interleaving of the two threads from a new buffer, a producer that writes a slot and a
  -- consumer that copies one are at different slots, both of them among the three.
  pub slots_disjoint :
      (slots : Array A) (b : Buffer A) (v : A) (s next : ℕ)
      → Reach (new_buffer slots) b
      → b.writer ≡ writing v s
      → b.reader ≡ copying next
      → (wr s ≢ rd next) × (wr s < 3) × (rd next < 3)
  slots_disjoint slots b v s next r w e =
      let h = Reach-Inv (new_buffer-Inv slots) r in ground (arith, h)
