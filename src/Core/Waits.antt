-- ===== src/Core/Waits.antt =====
-- The loops in which a public call waits for the control loop: `wait_observed`, `wait_first_frame`,
-- the loop of `home`, and the join of `stop_control_loop` (cpp/src/hand_core/hand_core.cpp). A
-- deadline is the end of the list of iterations.
use aidin_hand2_sdk.Base.{
  Bool, true, false, not, ◌&&◌, if◌then◌else◌, List, [], ◌∷◌, Option, none, some,
}
use aidin_hand2_sdk.Types.Lifecycle.{HandLifecycle, disconnected, is_running, is_faulted}
use aidin_hand2_sdk.Control.Command.{Doubles}
use aidin_hand2_sdk.Core.State.{
  Hand, Round, World, same, store_requested, store_lifecycle, is_homing,
}

module _ {doubles : Doubles} where
  unfoldable pub wait_observed :
      HandLifecycle → List (Round doubles) → Hand doubles → Hand doubles × Bool
  wait_observed target [] h = (h, same h.core.lifecycle target)
  wait_observed target (round ∷ rounds) h =
      let seen = round.between h in
      let rest = wait_observed target rounds (round.pause seen) in
      if is_faulted h.core.lifecycle
      then (seen, same seen.core.lifecycle target)
      else if same seen.core.lifecycle target
      then (seen, true)
      else rest

  unfoldable pub wait_first_frame : List (Round doubles) → Hand doubles → Hand doubles × Bool
  wait_first_frame [] h = (h, h.core.check_first_frame)
  wait_first_frame (round ∷ rounds) h =
      let rest = wait_first_frame rounds (round.pause h) in
      if h.core.check_first_frame then (h, true) else rest

  -- The condition of the loop of `home`.
  unfoldable pub still_homing : Hand doubles → Bool
  still_homing h =
      is_running h.core.requested_lifecycle && not (is_faulted h.core.lifecycle) && is_homing h

  -- This loop has no deadline: none while it has not ended.
  unfoldable pub wait_homing : List (Round doubles) → Hand doubles → Option (Hand doubles)
  wait_homing [] h = if still_homing h then none else some h
  wait_homing (round ∷ rounds) h =
      let rest = wait_homing rounds (round.pause h) in if still_homing h then rest else some h

  unfoldable pub stop_control_loop : World doubles → Hand doubles → Hand doubles
  stop_control_loop world h =
      let asked = store_requested disconnected h in
      store_lifecycle disconnected
        (record (if asked.rt_thread then world.ending asked else asked) { rt_thread = false })
