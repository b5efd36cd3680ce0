-- ===== src/Core/PreserveLink.antt =====
-- `connect`, `disconnect`, `reconnect` and `close` of `HandCore` keep a consistent state consistent
-- (cpp/src/hand_core/hand_core.cpp).
use aidin_hand2_sdk.Base.{◌≡◌, refl, Bool, true, false, not, ◌&&◌, arith, if-split}
use aidin_hand2_sdk.Comms.Session
use aidin_hand2_sdk.Comms.Session.{HandComms}
use aidin_hand2_sdk.Comms.Connect.{connect-is_free}
use aidin_hand2_sdk.Types.Error.{is_ok}
use aidin_hand2_sdk.Types.Lifecycle.{
  connected, stopped, faulted, is_disconnected, is_stopped, is_faulted,
}
use aidin_hand2_sdk.Types.Events.{StopCause}
use aidin_hand2_sdk.Lifecycle.Action.{connect, disconnect, reconnect}
use aidin_hand2_sdk.Control.Command.{Doubles}
use aidin_hand2_sdk.Control.Reconnect.{reset_fault_state}
use aidin_hand2_sdk.Core.State.{
  Hand, World, is_connected, store_requested, store_lifecycle, store_comms, reset_command_to_idle,
  republish_staged, stage, check_allowed,
}
use aidin_hand2_sdk.Core.Waits.{wait_observed, wait_first_frame, stop_control_loop}
use aidin_hand2_sdk.Core.Loop.{
  ByLoop, Ended, IsFair, wait_first_frame-ByLoop, stop_control_loop-Ended,
}
use aidin_hand2_sdk.Core.Consistent.{IsConsistent, check_allowed-possible, close_comms-IsConsistent}
use aidin_hand2_sdk.Core.Preserve.{Keeps, keeps, asks-Attached, waited-Attached, not-false}
use aidin_hand2_sdk.Core.Connection.{
  start_threads, close_comms, end_session, prepare_session, undo_session, start_session,
  connect_hand, is_control_requested, finish_disconnect, disconnect_hand, reconnect_hand,
  close_hand,
}

and-left : {a : Bool} (b : Bool) → (a && b) ≡ true → a ≡ true
and-left {a = true} b e = refl
and-left {a = false} b e = cc

module _ {doubles : Doubles} where
  -- Nothing runs and the socket is closed.
  abbrev Detached : Hand doubles → Type 0
  Detached h = IsConsistent h × (h.rt_thread ≡ false)

  undo_session-IsConsistent :
      (h : Hand doubles) → h.rt_thread ≡ false → IsConsistent (undo_session (prepare_session h))
  unfolding undo_session prepare_session close_comms store_comms store_requested store_lifecycle
      republish_staged Session.disconnect
  undo_session-IsConsistent h down = ground arith

  -- The link is observed after the loop has run for a while.
  observed-IsConsistent :
      (h seen : Hand doubles)
      → ByLoop (start_threads (prepare_session h)) seen
      → IsConsistent (store_lifecycle connected seen)
  unfolding start_threads prepare_session store_requested store_lifecycle
  observed-IsConsistent h seen step = ground (arith, step.request refl)

  start_session-Keeps :
      (world : World doubles) (h : Hand doubles)
      → IsFair world
      → h.rt_thread ≡ false
      → Keeps (start_session world h)
  unfolding start_session
  start_session-Keeps world h fair down =
      let started = start_threads (prepare_session h) in
      let (seen, observed) = wait_first_frame world.frame_rounds started in
      let step = wait_first_frame-ByLoop world.frame_rounds started fair.frames in
      let ended = stop_control_loop-Ended world seen fair in
      if-split Keeps (not world.threads_start) _ _ (λ _. keeps (undo_session-IsConsistent h down))
        λ _.
          if-split Keeps observed _ _ (λ _. keeps (observed-IsConsistent h seen step))
            (λ _. keeps (close_comms-IsConsistent seen (stop_control_loop world seen) ended))

  -- Where `connect` goes on to its session, no thread runs.
  connect-unthreaded :
      (h : Hand doubles)
      → IsConsistent h
      → is_ok (check_allowed connect true h) ≡ true
      → (is_connected h.core.requested_lifecycle && is_connected h.core.lifecycle) ≡ false
      → h.rt_thread ≡ false
  connect-unthreaded h c passed apart =
      ground (arith, c, check_allowed-possible connect true h c.request)

  refuses-IsConsistent :
      (h : Hand doubles) (comms : HandComms)
      → Detached h
      → comms.is_connected ≡ false
      → IsConsistent (store_comms comms h)
  unfolding store_comms
  refuses-IsConsistent h comms (c, down) closed = ground arith

  closes-IsConsistent :
      (h : Hand doubles) (comms : HandComms)
      → Detached h
      → IsConsistent (close_comms (store_comms comms h))
  unfolding store_comms close_comms Session.disconnect
  closes-IsConsistent h comms (c, down) = ground arith

  pub connect_hand-Keeps :
      (world : World doubles) (h : Hand doubles)
      → IsFair world
      → IsConsistent h
      → Keeps (connect_hand world h)
  unfolding connect_hand
  connect_hand-Keeps world h fair c =
      let (opened, code) = Session.connect world.abi world.bus world.candidates h.core.comms in
      let (active, session) = Session.run opened in
      if-split Keeps (not (is_ok (check_allowed connect true h))) _ _ (λ _. keeps c)
        λ passed.
          if-split Keeps (is_connected h.core.requested_lifecycle && is_connected h.core.lifecycle)
            _ _ (λ _. keeps c)
            λ apart.
              let down = connect-unthreaded h c (not-false passed) apart in
              let free =
                connect-is_free world.abi world.bus world.candidates h.core.comms (c.socket down) in
              if-split Keeps (not (is_ok code)) _ _
                (λ failed. keeps (refuses-IsConsistent h opened (c, down) (ground arith)))
                λ opens.
                  if-split Keeps (not (is_ok session)) _ _
                    (λ failed. keeps (closes-IsConsistent h active (c, down)))
                    (λ _.
                      start_session-Keeps world (store_comms active h) fair
                        (unfold store_comms in down))

  -- A finished disconnect, from wherever the loop is.
  finish_disconnect-IsConsistent :
      (world : World doubles) (h : Hand doubles)
      → IsFair world
      → IsConsistent (finish_disconnect world h)
  unfolding finish_disconnect end_session close_comms store_comms store_lifecycle Session.disconnect
  finish_disconnect-IsConsistent world h fair = ground (arith, stop_control_loop-Ended world h fair)

  -- A control request stands only where a thread runs.
  control-thread :
      (h : Hand doubles) → IsConsistent h → is_control_requested h ≡ true → h.rt_thread ≡ true
  unfolding is_control_requested
  control-thread h c e = ground (arith, c)

  idles-IsConsistent : (h : Hand doubles) → IsConsistent h → IsConsistent (reset_command_to_idle h)
  unfolding reset_command_to_idle stage
  idles-IsConsistent h c = ground (arith, c)

  pub disconnect_hand-Keeps :
      (world : World doubles) (h : Hand doubles)
      → IsFair world
      → IsConsistent h
      → Keeps (disconnect_hand world h)
  unfolding disconnect_hand
  disconnect_hand-Keeps world h fair c =
      let idle = reset_command_to_idle h in
      let (seen, reached) =
        wait_observed stopped world.stop_rounds (store_requested stopped idle) in
      let fault = check_allowed disconnect true seen in
      let control = is_control_requested idle && not (is_stopped idle.core.lifecycle) in
      if-split Keeps (not (is_ok (check_allowed disconnect true h))) _ _ (λ _. keeps c)
        λ _.
          if-split Keeps (is_disconnected h.core.lifecycle) _ _ (λ _. keeps c)
            λ _.
              if-split Keeps (not control) _ _
                (λ _. keeps (finish_disconnect-IsConsistent world idle fair))
                λ asks.
                  let i = idles-IsConsistent h c in
                  let up = control-thread idle i (and-left _ (not-false asks)) in
                  let after =
                    waited-Attached stopped world.stop_rounds _ fair.stops
                      (asks-Attached idle stopped refl (i, up)) in
                  if-split Keeps reached _ _
                    (λ _. keeps (finish_disconnect-IsConsistent world seen fair))
                    λ _.
                      if-split Keeps (is_faulted seen.core.lifecycle && not (is_ok fault)) _ _
                        (λ _. keeps after.0) (λ _. keeps after.0)

  -- What `reconnect` hands to `connect`.
  rebuilds-IsConsistent :
      (world : World doubles) (h : Hand doubles)
      → IsFair world
      → let ended = end_session (stop_control_loop world h) in
        IsConsistent (reset_command_to_idle (record ended { core = reset_fault_state ended.core }))
  unfolding end_session close_comms store_comms Session.disconnect reset_fault_state
      reset_command_to_idle stage
  rebuilds-IsConsistent world h fair = ground (arith, stop_control_loop-Ended world h fair)

  faults-IsConsistent :
      (h : Hand doubles) (cause : StopCause)
      → IsConsistent h
      → IsConsistent
          (store_lifecycle faulted (record h { core = record h.core { last_stop_cause = cause } }))
  unfolding store_lifecycle
  faults-IsConsistent h cause c = ground (arith, c)

  pub reconnect_hand-Keeps :
      (world : World doubles) (h : Hand doubles)
      → IsFair world
      → IsConsistent h
      → Keeps (reconnect_hand world h)
  unfolding reconnect_hand
  reconnect_hand-Keeps world h fair c =
      let ended = end_session (stop_control_loop world h) in
      let fresh = reset_command_to_idle (record ended { core = reset_fault_state ended.core }) in
      let (after, code) = connect_hand world fresh in
      let again = connect_hand-Keeps world fresh fair (rebuilds-IsConsistent world h fair) in
      if-split Keeps (not (is_ok (check_allowed reconnect true h))) _ _ (λ _. keeps c)
        λ _.
          if-split Keeps (is_ok code) _ _ (λ _. again)
            (λ _. keeps (faults-IsConsistent after ended.core.last_stop_cause again.kept))

  ends-IsConsistent :
      (before h : Hand doubles)
      → Ended before h
      → IsConsistent (end_session (record h { event_logging_thread = false }))
  unfolding end_session close_comms store_comms Session.disconnect
  ends-IsConsistent before h end = ground arith

  destroys-IsConsistent :
      (h : Hand doubles) → IsConsistent h → IsConsistent (record h { request_destroy = true })
  destroys-IsConsistent h c = ground (arith, c)

  pub close_hand-IsConsistent :
      (world : World doubles) (h : Hand doubles)
      → IsFair world
      → IsConsistent h
      → IsConsistent (close_hand world h)
  unfolding close_hand
  close_hand-IsConsistent world h fair c =
      if-split IsConsistent h.request_destroy _ _ (λ _. destroys-IsConsistent h c)
        (λ _. ends-IsConsistent _ _ (stop_control_loop-Ended world _ fair))
