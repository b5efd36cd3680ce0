-- ===== src/RealtimeBuffer/Steps.antt =====
-- `write` and `read` of realtime_buffer.hpp as the atomic steps of two threads, in any interleaving:
-- each load, each attempt to exchange the state word (a weak one may fail for no reason) and each
-- access of a slot is a step. A slot that is being written can hold anything, since T is written
-- word by word. The steps are sequentially consistent; the memory orders are what makes them so.
use aidin_hand2_sdk.Base.{ℕ, ◌≡◌, true, false, Option, none, some}
use aidin_hand2_sdk.Base.Arrays.{Array, set}
use aidin_hand2_sdk.RealtimeBuffer.Word.{pack, wr, rdy, rd, fresh}

module _ (A : Type 0) where
  -- Where the producer stands: outside, in the slot write of `write(v)` with `s` loaded, in the
  -- exchange loop with `cur`.
  pub data Writer : Type 0 where
    outside : Writer
    writing : A → ℕ → Writer
    publishing : A → ℕ → Writer

  -- Where the consumer stands: outside, in the exchange loop with a fresh `cur`, behind it with
  -- `next`, about to copy the slot.
  pub data Reader : Type 0 where
    outside : Reader
    taking : ℕ → Reader
    copying : ℕ → Reader

  pub record Buffer : Type 0 where
    pub slots : Array A
    pub state : ℕ
    pub writer : Writer
    pub reader : Reader
    -- What the last read that returned true filled its argument with.
    pub out : Option A

-- What `write` publishes from `cur`, and what `read` takes from it.
unfoldable pub published : ℕ → ℕ
published cur = pack (rdy cur) (wr cur) (rd cur) true

unfoldable pub taken : ℕ → ℕ
taken cur = pack (wr cur) (rd cur) (rdy cur) false

module _ {A : Type 0} where
  -- RealtimeBuffer(), with whatever the slots hold.
  unfoldable pub new_buffer : Array A → Buffer A
  new_buffer slots = record {
    slots = slots;
    state = pack 0 1 2 false;
    writer = outside;
    reader = outside;
    out = none;
  }

  pub data Step (b c : Buffer A) : Type 0 where
    -- write(v): load the state word.
    load_write :
        (v : A) → b.writer ≡ outside → c ≡ record b { writer = writing v b.state } → Step b c
    -- A part of the slot is written.
    scribble :
        (v : A) (s : ℕ) (garbage : A)
        → b.writer ≡ writing v s
        → c ≡ record b { slots = set b.slots (wr s) garbage }
        → Step b c
    -- The slot holds the value.
    fill_slot :
        (v : A) (s : ℕ)
        → b.writer ≡ writing v s
        → c ≡ record b { slots = set b.slots (wr s) v; writer = publishing v s }
        → Step b c
    publish_fails :
        (v : A) (cur : ℕ)
        → b.writer ≡ publishing v cur
        → c ≡ record b { writer = publishing v b.state }
        → Step b c
    publish :
        (v : A) (cur : ℕ)
        → b.writer ≡ publishing v cur
        → b.state ≡ cur
        → c ≡ record b { state = published cur; writer = outside }
        → Step b c
    -- read(out): load the state word, and return false if it is not fresh.
    load_stale : b.reader ≡ outside → fresh b.state ≡ false → c ≡ b → Step b c
    load_fresh :
        b.reader ≡ outside
        → fresh b.state ≡ true
        → c ≡ record b { reader = taking b.state }
        → Step b c
    take_fails :
        (cur : ℕ) → b.reader ≡ taking cur → c ≡ record b { reader = taking b.state } → Step b c
    take :
        (cur : ℕ)
        → b.reader ≡ taking cur
        → b.state ≡ cur
        → c ≡ record b { state = taken cur; reader = copying (taken cur) }
        → Step b c
    -- `out = slot_[rd(next)]` and return true.
    copy :
        (next : ℕ)
        → b.reader ≡ copying next
        → c ≡ record b { reader = outside; out = some (b.slots (rd next)) }
        → Step b c

  pub data Reach (b : Buffer A) : Buffer A → Type 0 where
    here : Reach b b
    more : {c d : Buffer A} → Reach b c → Step c d → Reach b d
