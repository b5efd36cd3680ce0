-- ===== src/Control/Latch.antt =====
-- The stop verdict over the cycles of one latch, a requested stop or a fault.
-- (cpp/src/hand_core/threads/hand_core_control_thread.cpp)
use aidin_hand2_sdk.Base.{
  ℕ, ◌≡◌, refl, ◌∙◌, ap, Bool, true, false, ◌&&◌, ltb, if◌then◌else◌, arith, List, [], ◌∷◌, map,
}
use aidin_hand2_sdk.Base.Lists.{length}
use aidin_hand2_sdk.StopConfirmation.{
  StopConfirmation, waiting, confirmed, not_confirmed, evaluate_stop_confirmation,
}
use aidin_hand2_sdk.StopConfirmation.Verdict.{evaluate_all, evaluate_all-verdict, any_signal}
use aidin_hand2_sdk.Comms.Session.{HandComms}
use aidin_hand2_sdk.Comms.Cycle.{quick_stop_attained}
use aidin_hand2_sdk.Control.State.{HandCore, LoopState, push_event}
use aidin_hand2_sdk.Control.Watch.{
  watch_stop_verdict, begin_latch, judge_latch, report_verdict, is_latched,
}

-- What the session shows in a cycle, whether it is being received, and the cycle's number.
abbrev pub LatchCycle : Type 0
LatchCycle = HandComms × Bool × ℕ

abbrev pub signal : LatchCycle → Bool
signal (comms, receiving, cycle) = receiving && quick_stop_attained comms

module _ {Command : Type 0} (window : ℕ) where
  abbrev pub latch_cycle : LatchCycle → LoopState × HandCore Command → LoopState × HandCore Command
  latch_cycle (comms, receiving, cycle) (loop, core) =
      watch_stop_verdict loop (record core { comms = comms }) receiving cycle window

  pub latch_cycles : List LatchCycle → LoopState × HandCore Command → LoopState × HandCore Command
  latch_cycles [] s = s
  latch_cycles (c ∷ cs) s = latch_cycles cs (latch_cycle c s)

  -- What the reports leave alone.
  report_verdict-same :
      (prev next : StopConfirmation) (cycle : ℕ) (loop : LoopState) (core : HandCore Command)
      → let t = report_verdict prev next cycle loop core in
        (t.0.confirmation_cycles ≡ loop.confirmation_cycles)
        × (t.1.stop_confirmation ≡ core.stop_confirmation)
        × (t.1.requested_lifecycle ≡ core.requested_lifecycle)
        × (t.1.lifecycle ≡ core.lifecycle)
  unfolding report_verdict push_event
  report_verdict-same prev next cycle loop core = ground arith

  judge_latch-judges :
      (receiving : Bool) (cycle : ℕ) (loop : LoopState) (core : HandCore Command)
      → let t = judge_latch receiving cycle window loop core in
        let e =
          evaluate_stop_confirmation core.stop_confirmation
            (receiving && quick_stop_attained core.comms)
            loop.confirmation_cycles
            window in
        (t.0.confirmation_cycles ≡ e.1)
        × (t.1.stop_confirmation ≡ e.0)
        × (t.1.requested_lifecycle ≡ core.requested_lifecycle)
        × (t.1.lifecycle ≡ core.lifecycle)
  unfolding judge_latch
  judge_latch-judges receiving cycle loop core = report_verdict-same _ _ cycle _ _

  begin_latch-begins :
      (loop : LoopState) (core : HandCore Command)
      → let t = begin_latch loop core in
        (t.0.confirmation_cycles ≡ (if loop.previous_latched then loop.confirmation_cycles else 0))
        × (t.1.stop_confirmation
            ≡ (if loop.previous_latched then core.stop_confirmation else waiting))
        × (t.1.requested_lifecycle ≡ core.requested_lifecycle)
        × (t.1.lifecycle ≡ core.lifecycle)
        × (t.1.comms ≡ core.comms)
  unfolding begin_latch
  begin_latch-begins loop core = ground arith

  -- One cycle of a latch judges by the pure transition, an episode that begins from Waiting and 0.
  latch_cycle-judges :
      (c : LatchCycle) (loop : LoopState) (core : HandCore Command)
      → is_latched core ≡ true
      → let t = latch_cycle c (loop, core) in
        let e =
          evaluate_stop_confirmation
            (if loop.previous_latched then core.stop_confirmation else waiting)
            (signal c)
            (if loop.previous_latched then loop.confirmation_cycles else 0)
            window in
        (is_latched t.1 ≡ true)
        × (t.0.previous_latched ≡ true)
        × (t.1.stop_confirmation ≡ e.0)
        × (t.0.confirmation_cycles ≡ e.1)
  unfolding watch_stop_verdict is_latched
  latch_cycle-judges (comms, receiving, cycle) loop core h =
      let seen : HandCore Command = record core { comms = comms } in
      let begun = begin_latch loop seen in
      let (cycles, verdict, requested, lifecycle, same) = begin_latch-begins loop seen in
      let (cycles', verdict', requested', lifecycle') =
        judge_latch-judges receiving cycle begun.0 begun.1 in
      let moved : evaluate_stop_confirmation begun.1.stop_confirmation
            (receiving && quick_stop_attained begun.1.comms) begun.0.confirmation_cycles window
          ≡ evaluate_stop_confirmation
              (if loop.previous_latched then core.stop_confirmation else waiting)
              (receiving && quick_stop_attained comms)
              (if loop.previous_latched then loop.confirmation_cycles else 0) window =
        λ k.
          evaluate_stop_confirmation (verdict k) (receiving && quick_stop_attained (same k))
            (cycles k) window in
      rw h (
        rw (requested', requested, lifecycle', lifecycle) h,
        refl,
        verdict' ∙ ap (λ e. e.0) moved,
        cycles' ∙ ap (λ e. e.1) moved,
      )

  -- Within an episode.
  latch_cycles-continue :
      (cs : List LatchCycle) (loop : LoopState) (core : HandCore Command)
      → is_latched core ≡ true
      → loop.previous_latched ≡ true
      → (latch_cycles cs (loop, core)).1.stop_confirmation
        ≡ evaluate_all window (map signal cs) core.stop_confirmation loop.confirmation_cycles
  unfolding latch_cycles evaluate_all
  latch_cycles-continue [] loop core h up = refl
  latch_cycles-continue (c ∷ cs) loop core h up =
      let t = latch_cycle c (loop, core) in
      let (latched, again, verdict, cycles) = latch_cycle-judges c loop core h in
      latch_cycles-continue cs t.0 t.1 latched again ∙ rw (verdict, cycles, up) refl

  -- From the first cycle of a latch on, whether a stop was requested or a fault latched it: the stop
  -- is judged Confirmed exactly if in some cycle the hand was being received and every drive had
  -- attained the quick stop; otherwise it is Waiting for as many cycles as the window has, and
  -- NotConfirmed in later ones.
  pub latch_cycles-verdict :
      (c : LatchCycle) (cs : List LatchCycle) (loop : LoopState) (core : HandCore Command)
      → is_latched core ≡ true
      → loop.previous_latched ≡ false
      → (latch_cycles (c ∷ cs) (loop, core)).1.stop_confirmation ≡ (
          if any_signal (map signal (c ∷ cs))
          then confirmed
          else if ltb window (length (map signal (c ∷ cs)))
          then not_confirmed
          else waiting)
  unfolding latch_cycles
  latch_cycles-verdict c cs loop core h down =
      let t = latch_cycle c (loop, core) in
      let (latched, again, verdict, cycles) = latch_cycle-judges c loop core h in
      latch_cycles-continue cs t.0 t.1 latched again
      ∙ rw (verdict, cycles, down) (unfold evaluate_all in refl)
      ∙ evaluate_all-verdict window (map signal (c ∷ cs))
