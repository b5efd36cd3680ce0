-- ===== src/Core/Tests.antt =====
-- Calls of a left hand over whole numbers in place of doubles, on a quiet bus.
use aidin_hand2_sdk.Base.{◌≡◌, refl, true, false, ◌&&◌, if◌then◌else◌, [], ◌∷◌, some, arith}
use aidin_hand2_sdk.Base.Arrays.{fill}
use aidin_hand2_sdk.Protocol.Ids.{left}
use aidin_hand2_sdk.Protocol.Tests.{linux}
use aidin_hand2_sdk.Types.Error.{communication_lost, is_ok}
use aidin_hand2_sdk.Types.Lifecycle.{
  connected, running, stopped, faulted, in_progress, succeeded, is_running, is_stopped, is_faulted,
}
use aidin_hand2_sdk.Lifecycle.Action.{home, reconnect}
use aidin_hand2_sdk.Control.Command.{ControllerCommand, actuator_position}
use aidin_hand2_sdk.Control.CycleTests.{numbers}
use aidin_hand2_sdk.Control.ReconnectTests.{quiet_bus}
use aidin_hand2_sdk.Core.State.{
  Hand, World, ControllerConfig, is_connected, store_requested, store_lifecycle, check_allowed,
  is_homing, store_comms, republish_staged,
}
use aidin_hand2_sdk.Core.Waits.{stop_control_loop, wait_first_frame}
use aidin_hand2_sdk.Core.Connection
use aidin_hand2_sdk.Comms.Session
use aidin_hand2_sdk.Lifecycle.Action
use aidin_hand2_sdk.Base.Bits.{is_set}
use aidin_hand2_sdk.Core.Operation.{start_homing}
use aidin_hand2_sdk.Core.Connection.{connect_hand, reconnect_hand}
use aidin_hand2_sdk.Core.Calls.{HandConfig, connect, created, called, perform, new_hand, new_core}
use aidin_hand2_sdk.Core.Loop.{ByLoop, ByLoop-refl, IsFair}
use aidin_hand2_sdk.Core.Consistent.{IsConsistent}
use aidin_hand2_sdk.Core.Invariant.{Reach-IsConsistent}
use aidin_hand2_sdk.Core.CycleLoop.{alike}
use aidin_hand2_sdk.Core.Rebuild.{reconnect_hand-outcome}
use aidin_hand2_sdk.Core.Staging.{start_homing-dead_link}

abbrev pub default_config : ControllerConfig numbers
default_config = record {
  filter_enabled = true;
  cutoff_freq = 0;
  deadband = 0;
  stiffness = fill 0;
  damping = fill 0;
}

abbrev left_config : HandConfig
left_config = record {
  interface_name = some "can0";
  hand_side = left;
  disabled_actuators = [];
  auto_home = false;
}

abbrev pub fresh : Hand numbers
fresh = new_hand numbers left_config true default_config

-- The loop mirrors the first frame, and later confirms the quick stop.
abbrev hears_frame : Hand numbers → Hand numbers
hears_frame h = record h { core = record h.core { check_first_frame = true } }

abbrev confirms_stop : Hand numbers → Hand numbers
confirms_stop h = record h {
  core = record h.core {
    lifecycle = if is_stopped h.core.requested_lifecycle then stopped else h.core.lifecycle;
  };
}

abbrev nothing : Hand numbers → Hand numbers
nothing h = h

abbrev quiet : World numbers
quiet = record {
  abi = linux;
  bus = quiet_bus;
  candidates = [];
  threads_start = true;
  ending = nothing;
  frame_rounds = record { between = nothing; pause = hears_frame } ∷ [];
  enable_rounds = [];
  stop_rounds = record { between = nothing; pause = confirms_stop } ∷ [];
  homing_rounds = [];
}

hears_frame-ByLoop : (h : Hand numbers) → ByLoop h (hears_frame h)
hears_frame-ByLoop h = alike h _ refl refl refl (record { requested = refl; linked = λ e. e })

confirms_stop-ByLoop : (h : Hand numbers) → ByLoop h (confirms_stop h)
confirms_stop-ByLoop h =
    alike h _ refl refl refl (record { requested = refl; linked = λ e. ground arith })

quiet-IsFair : IsFair quiet
quiet-IsFair = record {
  ending = ByLoop-refl;
  frames = (ByLoop-refl, hears_frame-ByLoop, tt);
  enables = tt;
  stops = (ByLoop-refl, confirms_stop-ByLoop, tt);
  homings = tt;
}

abbrev pub linked : Hand numbers
linked = (connect_hand quiet fresh).0

linked_check : (linked.core.lifecycle ≡ connected) × (linked.rt_thread ≡ true)
unfolding connect_hand check_allowed Action.check_action_allowed Action.action_rule is_set new_hand
    new_core Session.connect Session.connect_found Session.resolve Session.new_comms
    Session.disable_each Session.connect_channel Session.watch Session.watch_for Session.run
    Session.reset_session Connection.start_session Connection.start_threads
    Connection.prepare_session wait_first_frame republish_staged store_comms store_lifecycle
    store_requested
linked_check = (refl, refl)

Reach-IsConsistent_example : IsConsistent linked
Reach-IsConsistent_example =
    Reach-IsConsistent numbers (λ target. target)
      (called connect quiet (created left_config true default_config) quiet-IsFair connects)
  where
    connects : perform numbers (λ target. target) connect quiet fresh ≡ some linked
    connects = unfold perform in refl

-- A hand that runs, is homed and was asked to.
abbrev pub active : Hand numbers
active = store_requested running (
    store_lifecycle running (record linked {
      core = record linked.core { homing_state = succeeded; check_communication = true };
    }))

abbrev dropped : Hand numbers
dropped = store_lifecycle faulted fresh

dropped-IsConsistent : IsConsistent dropped
unfolding store_lifecycle new_hand new_core Session.new_comms
dropped-IsConsistent = record {
  thread = refl;
  socket = λ _. refl;
  observed = λ _. refl;
  request = refl;
  linked = refl;
}

reconnect_hand-outcome_example :
    let r = reconnect_hand quiet dropped in
    let allowed = check_allowed reconnect true dropped in
    (is_ok allowed ≡ false → r ≡ (dropped, allowed))
    × (is_ok allowed ≡ true → is_ok r.1 ≡ true → is_connected r.0.core.lifecycle ≡ true)
    × (is_ok allowed ≡ true
        → is_ok r.1 ≡ false
        → (is_faulted r.0.core.lifecycle ≡ true)
          × (r.0.core.last_stop_cause ≡ (stop_control_loop quiet dropped).core.last_stop_cause)
          × (r.0.rt_thread ≡ false)
          × (r.0.core.comms.is_connected ≡ false))
reconnect_hand-outcome_example =
    reconnect_hand-outcome quiet dropped quiet-IsFair dropped-IsConsistent

abbrev half_way : ControllerCommand numbers
half_way = actuator_position (fill 40)

-- The link has died before the hand was ever run.
abbrev silent : Hand numbers
silent = store_requested connected (store_lifecycle connected fresh)

silent_checks :
    (is_ok (check_allowed home true silent) ≡ true)
    × ((is_running silent.core.requested_lifecycle && is_running silent.core.lifecycle) ≡ false)
    × (silent.core.check_communication ≡ false)
unfolding check_allowed Action.check_action_allowed Action.action_rule is_set new_hand new_core
    store_lifecycle store_requested
silent_checks = (refl, refl, refl)

start_homing-dead_link_example :
    let r = start_homing silent in
    (r.1 ≡ communication_lost)
    × (r.0.core.homing_state ≡ in_progress)
    × (is_homing r.0 ≡ is_homing silent)
    × (r.0.core.requested_lifecycle ≡ silent.core.requested_lifecycle)
start_homing-dead_link_example =
    start_homing-dead_link silent silent_checks.0 silent_checks.1 silent_checks.2
