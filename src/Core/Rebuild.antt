-- ===== src/Core/Rebuild.antt =====
-- What `connect` and `reconnect` of `HandCore` answer, and what they leave behind
-- (cpp/src/hand_core/hand_core.cpp).
use aidin_hand2_sdk.Base.{◌≡◌, refl, ◌∙◌, ap, true, false, not, ◌&&◌, arith, if-split}
use aidin_hand2_sdk.Comms.Session
use aidin_hand2_sdk.Comms.Session.{HandComms}
use aidin_hand2_sdk.Types.Error.{ErrorCode, is_ok}
use aidin_hand2_sdk.Types.Lifecycle.{is_disconnected, is_faulted}
use aidin_hand2_sdk.Types.Events.{StopCause}
use aidin_hand2_sdk.Lifecycle.Action.{connect, reconnect}
use aidin_hand2_sdk.Control.Command.{Doubles}
use aidin_hand2_sdk.Control.Reconnect.{reset_fault_state}
use aidin_hand2_sdk.Core.State.{
  Hand, World, is_connected, store_requested, store_lifecycle, store_comms, reset_command_to_idle,
  stage, check_allowed,
}
use aidin_hand2_sdk.Core.Waits.{wait_first_frame, stop_control_loop}
use aidin_hand2_sdk.Core.Loop.{IsFair, stop_control_loop-Ended}
use aidin_hand2_sdk.Core.Consistent.{IsConsistent}
use aidin_hand2_sdk.Core.PreserveLink.{reconnect_hand-Keeps}
use aidin_hand2_sdk.Core.Connection.{
  close_comms, end_session, prepare_session, start_threads, undo_session, start_session,
  connect_hand, reconnect_hand,
}

module _ {doubles : Doubles} where
  -- Success is an observed link; a failure leaves no request.
  record Links (r : Hand doubles × ErrorCode) : Type 0 where
    linked : is_ok r.1 ≡ true → is_connected r.0.core.lifecycle ≡ true
    failed : is_ok r.1 ≡ false → is_disconnected r.0.core.requested_lifecycle ≡ true

  undo-disconnected :
      (h : Hand doubles) → is_disconnected (undo_session h).core.requested_lifecycle ≡ true
  unfolding undo_session close_comms store_comms store_lifecycle store_requested
  undo-disconnected h = refl

  close-disconnected :
      (h : Hand doubles)
      → is_disconnected h.core.requested_lifecycle ≡ true
      → is_disconnected (close_comms h).core.requested_lifecycle ≡ true
  unfolding close_comms store_comms
  close-disconnected h e = e

  store-disconnected :
      (comms : HandComms) (h : Hand doubles)
      → is_disconnected h.core.requested_lifecycle ≡ true
      → is_disconnected (store_comms comms h).core.requested_lifecycle ≡ true
  unfolding store_comms
  store-disconnected comms h e = e

  -- An error that leaves no request.
  fails :
      (h : Hand doubles) (code : ErrorCode)
      → not (is_ok code) ≡ true
      → is_disconnected h.core.requested_lifecycle ≡ true
      → Links (h, code)
  fails h code e down = record { linked = λ k. ground arith; failed = λ _. down }

  start_session-Links :
      (world : World doubles) (h : Hand doubles) → IsFair world → Links (start_session world h)
  unfolding start_session
  start_session-Links world h fair =
      let (seen, observed) =
        wait_first_frame world.frame_rounds (start_threads (prepare_session h)) in
      let ended = stop_control_loop-Ended world seen fair in
      if-split Links (not world.threads_start) _ _
        (λ _. record { linked = λ e. cc; failed = λ _. undo-disconnected (prepare_session h) })
        λ _.
          if-split Links observed _ _
            (λ _. record { linked = λ _. unfold store_lifecycle in refl; failed = λ e. cc })
            (λ _. record { linked = λ e. cc; failed = λ _. close-disconnected _ ended.requested })

  connect_hand-Links :
      (world : World doubles) (h : Hand doubles)
      → IsFair world
      → is_disconnected h.core.requested_lifecycle ≡ true
      → Links (connect_hand world h)
  unfolding connect_hand
  connect_hand-Links world h fair down =
      let (opened, code) = Session.connect world.abi world.bus world.candidates h.core.comms in
      let (active, session) = Session.run opened in
      if-split Links (not (is_ok (check_allowed connect true h))) _ _ (λ e. fails h _ e down)
        λ _.
          if-split Links (is_connected h.core.requested_lifecycle && is_connected h.core.lifecycle)
            _ _ (λ e. record { linked = λ _. ground arith; failed = λ k. cc })
            λ _.
              if-split Links (not (is_ok code)) _ _
                (λ e. fails _ _ e (store-disconnected opened h down))
                λ _.
                  if-split Links (not (is_ok session)) _ _
                    (λ e. fails _ _ e (close-disconnected _ (store-disconnected active h down)))
                    (λ _. start_session-Links world (store_comms active h) fair)

  -- What `reconnect` leaves: `cause` is the one that the loop ended with.
  record Rebuilds (cause : StopCause) (r : Hand doubles × ErrorCode) : Type 0 where
    linked : is_ok r.1 ≡ true → is_connected r.0.core.lifecycle ≡ true
    faulted_again : is_ok r.1 ≡ false → is_faulted r.0.core.lifecycle ≡ true
    same_cause : is_ok r.1 ≡ false → r.0.core.last_stop_cause ≡ cause
    detached : is_ok r.1 ≡ false → is_disconnected r.0.core.requested_lifecycle ≡ true

  rebuilt-disconnected :
      (world : World doubles) (h : Hand doubles)
      → IsFair world
      → let ended = end_session (stop_control_loop world h) in
        (is_disconnected
            (reset_command_to_idle
              (record ended { core = reset_fault_state ended.core })).core.requested_lifecycle
          ≡ true)
        × (ended.core.last_stop_cause ≡ (stop_control_loop world h).core.last_stop_cause)
  unfolding end_session close_comms store_comms reset_fault_state reset_command_to_idle stage
  rebuilt-disconnected world h fair = ((stop_control_loop-Ended world h fair).requested, refl)

  allowed_reconnect-Rebuilds :
      (world : World doubles) (h : Hand doubles)
      → IsFair world
      → is_ok (check_allowed reconnect true h) ≡ true
      → Rebuilds (stop_control_loop world h).core.last_stop_cause (reconnect_hand world h)
  unfolding reconnect_hand store_lifecycle
  allowed_reconnect-Rebuilds world h fair allowed =
      let cause = (stop_control_loop world h).core.last_stop_cause in
      let ended = end_session (stop_control_loop world h) in
      let fresh = reset_command_to_idle (record ended { core = reset_fault_state ended.core }) in
      let (after, code) = connect_hand world fresh in
      let before = rebuilt-disconnected world h fair in
      let links = connect_hand-Links world fresh fair before.0 in
      if-split (Rebuilds cause) (not (is_ok (check_allowed reconnect true h))) _ _ (λ no. cc)
        λ _.
          if-split (Rebuilds cause) (is_ok code) _ _
            (λ e. record {
              linked = links.linked;
              faulted_again = λ k. cc;
              same_cause = λ k. cc;
              detached = λ k. cc;
            })
            (λ e. record {
              linked = λ k. cc;
              faulted_again = λ _. refl;
              same_cause = λ _. before.1;
              detached = links.failed;
            })

  -- For a hand that satisfies `IsConsistent`, beside a control loop that keeps to `ByLoop` (`IsFair`)
  -- while the call waits and until the loop has ended, so that no retry of the link that succeeds
  -- meanwhile overwrites the request to end it: a reconnect() that is refused changes nothing. One
  -- that is let through answers None exactly with an observed link. One that fails leaves the hand
  -- Faulted with the cause that it had when the control loop had ended, with no thread and a closed
  -- socket.
  pub reconnect_hand-outcome :
      (world : World doubles) (h : Hand doubles)
      → IsFair world
      → IsConsistent h
      → let r = reconnect_hand world h in
        let allowed = check_allowed reconnect true h in
        (is_ok allowed ≡ false → r ≡ (h, allowed))
        × (is_ok allowed ≡ true → is_ok r.1 ≡ true → is_connected r.0.core.lifecycle ≡ true)
        × (is_ok allowed ≡ true
            → is_ok r.1 ≡ false
            → (is_faulted r.0.core.lifecycle ≡ true)
              × (r.0.core.last_stop_cause ≡ (stop_control_loop world h).core.last_stop_cause)
              × (r.0.rt_thread ≡ false)
              × (r.0.core.comms.is_connected ≡ false))
  unfolding reconnect_hand
  reconnect_hand-outcome world h fair c =
      let kept = (reconnect_hand-Keeps world h fair c).kept in
      (
        λ no. rw no refl,
        λ allowed. (allowed_reconnect-Rebuilds world h fair allowed).linked,
        λ allowed failed.
            let r = allowed_reconnect-Rebuilds world h fair allowed in
            let down = kept.thread ∙ ap not (r.detached failed) in
            (r.faulted_again failed, r.same_cause failed, down, kept.socket down),
      )
