-- ===== src/Core/Consistent.antt =====
-- The state that every public call of `HandCore` finds and leaves (cpp/src/hand_core/hand_core.cpp),
-- and what a check that passes says of it.
use aidin_hand2_sdk.Base.{
  ◌≡◌, sym, ◌∙◌, ap, Bool, true, false, not, ◌||◌, if◌then◌else◌, arith, Option, none, some,
}
use aidin_hand2_sdk.Comms.Session
use aidin_hand2_sdk.Types.Error.{ErrorCode, Status, is_ok}
use aidin_hand2_sdk.Types.Lifecycle.{is_disconnected, is_faulted}
use aidin_hand2_sdk.Lifecycle.Action.{HandAction}
use aidin_hand2_sdk.Lifecycle.Rules.{is_possible, refusal_code, code_of, check_action_allowed-code}
use aidin_hand2_sdk.Control.Command.{Doubles}
use aidin_hand2_sdk.Core.State.{Hand, is_homed, checked_code, check_allowed, store_comms}
use aidin_hand2_sdk.Core.Loop.{ByLoop, is_unlinked, Ended}
use aidin_hand2_sdk.Core.Connection.{close_comms, end_session}

-- A code that stands for a refusal is no success.
refusal_code-is_error :
    (observed : _) (destroyed : Bool) (cause : _)
    → is_ok (refusal_code observed destroyed cause) ≡ false
refusal_code-is_error observed destroyed cause = ground arith

checked_code-code_of :
    (checked : Option Status) (code : ErrorCode)
    → code_of checked ≡ some code
    → checked_code checked ≡ code
unfolding code_of
checked_code-code_of none code e = cc
checked_code-code_of (some status) code e = cc

module _ {doubles : Doubles} where
  abbrev pub possible : HandAction → Bool → Hand doubles → Bool
  possible action require_homed h =
      is_possible action h.core.requested_lifecycle h.core.lifecycle h.request_destroy
        (if require_homed then is_homed h.core.homing_state else true)

  pub check_allowed-possible :
      (action : HandAction) (require_homed : Bool) (h : Hand doubles)
      → is_faulted h.core.requested_lifecycle ≡ false
      → is_ok (check_allowed action require_homed h) ≡ possible action require_homed h
  unfolding check_allowed
  check_allowed-possible action require_homed h sane =
      let homed = if require_homed then is_homed h.core.homing_state else true in
      let e = checked_code-code_of _ _ (
        check_action_allowed-code action h.core.requested_lifecycle h.core.lifecycle
          h.request_destroy h.core.last_stop_cause "" homed sane) in
      ground
        (arith, e, refusal_code-is_error h.core.lifecycle h.request_destroy h.core.last_stop_cause)

  -- A thread runs exactly while a link is requested; without one the socket is closed and nothing is
  -- observed but a fault; and what is requested is never a fault, nor a link that was not observed.
  pub record IsConsistent (h : Hand doubles) : Type 0 where
    pub thread : h.rt_thread ≡ not (is_disconnected h.core.requested_lifecycle)
    pub socket : h.rt_thread ≡ false → h.core.comms.is_connected ≡ false
    pub observed :
        h.rt_thread ≡ false
        → (is_disconnected h.core.lifecycle || is_faulted h.core.lifecycle) ≡ true
    pub request : is_faulted h.core.requested_lifecycle ≡ false
    pub linked : is_unlinked h ≡ false

  pub ByLoop-IsConsistent :
      (h h' : Hand doubles) → IsConsistent h → h.rt_thread ≡ true → ByLoop h h' → IsConsistent h'
  ByLoop-IsConsistent h h' c up step = record {
    thread = step.thread ∙ c.thread ∙ ap not (sym step.ends);
    socket = λ down. cc;
    observed = λ down. cc;
    request = step.request c.request;
    linked = step.linked c.linked;
  }

  -- What has ended and closed its socket is consistent.
  pub end_session-IsConsistent :
      (before h : Hand doubles) → Ended before h → IsConsistent (end_session h)
  unfolding end_session close_comms store_comms Session.disconnect
  end_session-IsConsistent before h end = ground arith

  pub close_comms-IsConsistent :
      (before h : Hand doubles) → Ended before h → IsConsistent (close_comms h)
  unfolding close_comms store_comms Session.disconnect
  close_comms-IsConsistent before h end = ground arith
