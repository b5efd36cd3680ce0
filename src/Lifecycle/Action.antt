-- ===== src/Lifecycle/Action.antt =====
-- The rule table of action_check.cpp and `check_action_allowed`. A reason is a C string that can be
-- null; making a std::string of a null one is undefined, and is `none` here.
use Prim.Native.Nat.{bit_or}
use Prim.Native.String.{String, ◌++◌}
use aidin_hand2_sdk.Base.{ℕ, Bool, true, false, not, ◌&&◌, if◌then◌else◌, Option, none, some}
use aidin_hand2_sdk.Base.Bits.{is_set}
use aidin_hand2_sdk.Types.Error.{
  ErrorCode, Status, ok, wrong_call_order, communication_lost, control_loop_fault,
}
use aidin_hand2_sdk.Types.Lifecycle.{
  HandLifecycle, disconnected, connected, running, stopped, faulted, is_disconnected, is_running,
  is_faulted,
}
use aidin_hand2_sdk.Types.Events.{StopCause, RealtimeEventKind, receive_silence, transmit_failure}

pub data HandAction : Type 0 where
  connect disconnect run stop home reconnect set_command set_tactile_bias reset_tactile_bias :
      HandAction

abbrev pub bit : HandLifecycle → ℕ
bit disconnected = 1
bit connected = 2
bit running = 4
bit stopped = 8
bit faulted = 16

pub record ActionRule : Type 0 where
  pub allowed_states : ℕ
  pub faulted_reason : Option String
  pub disconnected_reason : Option String
  pub other_reason : Option String

-- kDisc | kConn, kDisc | kConn | kRun | kStop, and so on.
abbrev not_controlled : ℕ
not_controlled = bit_or (bit disconnected) (bit connected)

abbrev linked : ℕ
linked = bit_or (bit_or (bit connected) (bit running)) (bit stopped)

-- kActionTable.
unfoldable pub action_rule : HandAction → ActionRule
action_rule connect = record {
  allowed_states = not_controlled;
  faulted_reason = some " — call reconnect() to rebuild";
  disconnected_reason = none;
  other_reason = some "already connected — call disconnect() first to rebuild the link";
}
action_rule disconnect = record {
  allowed_states = bit_or (bit_or not_controlled (bit running)) (bit stopped);
  faulted_reason = some " — use reconnect() or destroy";
  disconnected_reason = none;
  other_reason = none;
}
action_rule run = record {
  allowed_states = linked;
  faulted_reason = some " — call reconnect(), then run()";
  disconnected_reason = some "not connected — call connect() first";
  other_reason = none;
}
action_rule stop = record {
  allowed_states = bit_or (bit running) (bit stopped);
  faulted_reason = some " — call reconnect()";
  disconnected_reason = some "not connected — call connect() first";
  other_reason = some "control not running — call run() first";
}
action_rule home = record {
  allowed_states = linked;
  faulted_reason = some " — call reconnect() first";
  disconnected_reason = some "not connected — call connect() first";
  other_reason = none;
}
action_rule reconnect = record {
  allowed_states = bit faulted;
  faulted_reason = none;
  disconnected_reason = some "not connected yet — call connect()";
  other_reason = some "not faulted — reconnect() recovers from Faulted only";
}
action_rule set_command = record {
  allowed_states = bit running;
  faulted_reason = some " — call reconnect()";
  disconnected_reason = some "not connected yet — call connect(), then run()";
  other_reason = some "not running — call run() first";
}
action_rule set_tactile_bias = record {
  allowed_states = linked;
  faulted_reason = some " — call reconnect()";
  disconnected_reason = some "not connected — call connect() first";
  other_reason = none;
}
action_rule reset_tactile_bias = record {
  allowed_states = linked;
  faulted_reason = some " — call reconnect()";
  disconnected_reason = some "not connected — call connect() first";
  other_reason = none;
}

-- kActionPhrase.
abbrev pub action_phrase : HandAction → String
action_phrase connect = "connect hand"
action_phrase disconnect = "disconnect hand"
action_phrase run = "run hand"
action_phrase stop = "stop hand"
action_phrase home = "home hand"
action_phrase reconnect = "reconnect hand"
action_phrase set_command = "set command"
action_phrase set_tactile_bias = "set tactile bias"
action_phrase reset_tactile_bias = "reset tactile bias"

unfoldable pub reject : HandAction → ErrorCode → Option String → Option Status
reject action code none = none
reject action code (some reason) =
    some (record { code = code; message = "Cannot " ++ action_phrase action ++ ": " ++ reason })

abbrev pub no_error : Status
no_error = record { code = ok; message = "" }

-- The reason of a refusal in Faulted.
unfoldable pub faulted_phrase : String → Option String → Option String
faulted_phrase phrase none = none
faulted_phrase phrase (some reason) = some ("hand faulted (" ++ phrase ++ ")" ++ reason)

abbrev pub is_communication : RealtimeEventKind → Bool
is_communication receive_silence = true
is_communication transmit_failure = true
is_communication _ = false

abbrev pub is_set_command : HandAction → Bool
is_set_command set_command = true
is_set_command _ = false

-- `phrase` is stop_cause_phrase(stop_cause).
unfoldable pub check_action_allowed :
    HandAction → HandLifecycle → HandLifecycle → Bool → StopCause → String → Bool → Option Status
check_action_allowed action requested observed destroyed stop_cause phrase homed =
    let rule = action_rule action in
    if destroyed
    then reject action wrong_call_order (some "hand is destroyed — create a hand")
    else if is_faulted observed
    then if is_set rule.allowed_states (bit faulted)
      then some no_error
      else reject action
          (if is_communication stop_cause.reason then communication_lost else control_loop_fault)
          (faulted_phrase phrase rule.faulted_reason)
    else if not (is_set rule.allowed_states (bit requested))
    then reject action wrong_call_order
        (if is_disconnected requested then rule.disconnected_reason else rule.other_reason)
    else if is_set_command action && not (is_running observed)
    then reject action wrong_call_order rule.other_reason
    else if is_set_command action && not homed
    then reject action wrong_call_order (some "not homed — call home() first")
    else some no_error
