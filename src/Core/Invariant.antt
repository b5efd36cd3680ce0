-- ===== src/Core/Invariant.antt =====
-- The threads, the socket and the two lifecycles of a hand agree after every history of calls
-- (cpp/src/hand_core/hand_core.cpp).
use aidin_hand2_sdk.Base.{refl, subst, arith, Option, none, some}
use aidin_hand2_sdk.Types.Error.{ErrorCode}
use aidin_hand2_sdk.Control.Command.{Doubles, Targets}
use aidin_hand2_sdk.Comms.Session.{new_comms}
use aidin_hand2_sdk.Core.State.{Hand, World, stage}
use aidin_hand2_sdk.Core.Command.{
  set_hand_command, drop_invalid_command, set_max_effort, set_controller_config, set_bias,
  reset_bias, request_bias,
}
use aidin_hand2_sdk.Core.Calls
use aidin_hand2_sdk.Core.Calls.{Call, perform, hand_of, Reach, new_hand, new_core}
use aidin_hand2_sdk.Core.Loop.{IsFair}
use aidin_hand2_sdk.Core.Consistent.{IsConsistent, ByLoop-IsConsistent}
use aidin_hand2_sdk.Core.Preserve.{
  KeepsIf, stop_hand-IsConsistent, run_hand-Keeps, home_hand-Keeps, start_homing-Starts,
}
use aidin_hand2_sdk.Core.PreserveLink.{
  connect_hand-Keeps, disconnect_hand-Keeps, reconnect_hand-Keeps, close_hand-IsConsistent,
}

module _ (doubles : Doubles) where
  abbrev AllConsistent : Option (Hand doubles) → Type 0
  AllConsistent none = Unit {0}
  AllConsistent (some h) = IsConsistent h

  hand_of-AllConsistent :
      (r : Option (Hand doubles × ErrorCode)) → KeepsIf r → AllConsistent (hand_of doubles r)
  hand_of-AllConsistent none k = tt
  hand_of-AllConsistent (some r) k = k.kept

  module _ (clamp : Targets doubles → Targets doubles) where
    set_hand_command-IsConsistent :
        (command : _) (h : Hand doubles)
        → IsConsistent h
        → IsConsistent (set_hand_command doubles clamp command h).0
    unfolding set_hand_command stage drop_invalid_command
    set_hand_command-IsConsistent command h c = ground (arith, c)

    perform-AllConsistent :
        (call : Call doubles) (world : World doubles) (h : Hand doubles)
        → IsFair world
        → IsConsistent h
        → AllConsistent (perform doubles clamp call world h)
    unfolding perform set_bias reset_bias request_bias set_max_effort set_controller_config
    perform-AllConsistent Calls.connect world h fair c = (connect_hand-Keeps world h fair c).kept
    perform-AllConsistent Calls.disconnect world h fair c =
        (disconnect_hand-Keeps world h fair c).kept
    perform-AllConsistent Calls.reconnect world h fair c =
        (reconnect_hand-Keeps world h fair c).kept
    perform-AllConsistent Calls.close world h fair c = close_hand-IsConsistent world h fair c
    perform-AllConsistent Calls.run world h fair c =
        hand_of-AllConsistent _ (run_hand-Keeps world h fair c)
    perform-AllConsistent Calls.stop world h fair c = (stop_hand-IsConsistent world h fair c).kept
    perform-AllConsistent Calls.home world h fair c =
        hand_of-AllConsistent _ (home_hand-Keeps world h fair c)
    perform-AllConsistent Calls.home_async world h fair c = (start_homing-Starts h c).kept
    perform-AllConsistent Calls.set_bias_call world h fair c = ground (arith, c)
    perform-AllConsistent Calls.reset_bias_call world h fair c = ground (arith, c)
    perform-AllConsistent (Calls.set_command command) world h fair c =
        set_hand_command-IsConsistent command h c
    perform-AllConsistent (Calls.set_effort limit) world h fair c = ground (arith, c)
    perform-AllConsistent (Calls.set_config config) world h fair c = ground (arith, c)

    -- After any history of public calls, each waiting beside a control loop that keeps to `ByLoop`:
    -- the control thread exists exactly while a lifecycle other than Disconnected is requested; where
    -- it does not, the socket is closed and nothing but Disconnected or Faulted is observed; Faulted is
    -- never requested; and where Connected is requested, Connected or Faulted is observed.
    pub Reach-IsConsistent : {h : Hand doubles} → Reach doubles clamp h → IsConsistent h
    unfolding new_hand new_core new_comms
    Reach-IsConsistent (Calls.created config workspace_clamp controller_config) = record {
      thread = refl;
      socket = λ _. refl;
      observed = λ _. refl;
      request = refl;
      linked = refl;
    }
    Reach-IsConsistent (Calls.by_loop r up step) =
        ByLoop-IsConsistent _ _ (Reach-IsConsistent r) up step
    Reach-IsConsistent (Calls.called call world r fair e) =
        subst AllConsistent e (perform-AllConsistent call world _ fair (Reach-IsConsistent r))
