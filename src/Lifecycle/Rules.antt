-- ===== src/Lifecycle/Rules.antt =====
-- Which calls `check_action_allowed` accepts, and what a refusal says.
use Prim.Native.String.{String}
use aidin_hand2_sdk.Base.{
  ◌≡◌, refl, Bool, true, false, not, ◌&&◌, ◌||◌, if◌then◌else◌, arith, Option, none, some,
}
use aidin_hand2_sdk.Base.Bits.{is_set}
use aidin_hand2_sdk.Types.Error.{
  ErrorCode, Status, ok, wrong_call_order, communication_lost, control_loop_fault,
}
use aidin_hand2_sdk.Types.Lifecycle.{
  HandLifecycle, disconnected, connected, running, stopped, faulted, is_faulted, is_running,
  is_disconnected,
}
use aidin_hand2_sdk.Types.Events.{StopCause}
use aidin_hand2_sdk.Lifecycle.Action.{
  HandAction, connect, disconnect, run, stop, home, reconnect, set_command, set_tactile_bias,
  reset_tactile_bias, check_action_allowed, action_rule, reject, faulted_phrase, is_communication,
  is_set_command, no_error, bit,
}

-- The requested lifecycles in which a call makes sense.
abbrev pub accepts : HandAction → HandLifecycle → Bool
accepts connect disconnected = true
accepts connect connected = true
accepts connect _ = false
accepts disconnect faulted = false
accepts disconnect _ = true
accepts stop running = true
accepts stop stopped = true
accepts stop _ = false
accepts reconnect faulted = true
accepts reconnect _ = false
accepts set_command running = true
accepts set_command _ = false
accepts run disconnected = false
accepts run faulted = false
accepts run _ = true
accepts home disconnected = false
accepts home faulted = false
accepts home _ = true
accepts set_tactile_bias disconnected = false
accepts set_tactile_bias faulted = false
accepts set_tactile_bias _ = true
accepts reset_tactile_bias disconnected = false
accepts reset_tactile_bias faulted = false
accepts reset_tactile_bias _ = true

-- The call is possible now.
abbrev pub is_possible : HandAction → HandLifecycle → HandLifecycle → Bool → Bool → Bool
is_possible action requested observed destroyed homed =
    not destroyed
    && (if is_faulted observed
        then accepts action faulted
        else accepts action requested
          && (not (is_set_command action) || (is_running observed && homed)))

abbrev pub refusal_code : HandLifecycle → Bool → StopCause → ErrorCode
refusal_code observed destroyed cause =
    if not destroyed && is_faulted observed
    then if is_communication cause.reason then communication_lost else control_loop_fault
    else wrong_call_order

each_state :
    (P : HandLifecycle → Type 0)
    → P disconnected × P connected × P running × P stopped × P faulted
    → (state : HandLifecycle) → P state
each_state P h disconnected = h.0
each_state P h connected = h.1
each_state P h running = h.2
each_state P h stopped = h.3
each_state P h faulted = h.4

-- The bit masks of the table say the same.
rules-accepts :
    (action : HandAction) (state : HandLifecycle)
    → is_set (action_rule action).allowed_states (bit state) ≡ accepts action state
unfolding is_set action_rule
rules-accepts connect = each_state _ (refl, refl, refl, refl, refl)
rules-accepts disconnect = each_state _ (refl, refl, refl, refl, refl)
rules-accepts run = each_state _ (refl, refl, refl, refl, refl)
rules-accepts stop = each_state _ (refl, refl, refl, refl, refl)
rules-accepts home = each_state _ (refl, refl, refl, refl, refl)
rules-accepts reconnect = each_state _ (refl, refl, refl, refl, refl)
rules-accepts set_command = each_state _ (refl, refl, refl, refl, refl)
rules-accepts set_tactile_bias = each_state _ (refl, refl, refl, refl, refl)
rules-accepts reset_tactile_bias = each_state _ (refl, refl, refl, refl, refl)

-- The reason for a refusal in a requested state.
abbrev reason_for : HandAction → HandLifecycle → Option String
reason_for action requested =
    if is_disconnected requested
    then (action_rule action).disconnected_reason
    else (action_rule action).other_reason

abbrev is_some : Option String → Bool
is_some none = false
is_some (some text) = true

-- A reason is null only where it is not read.
reasons-given :
    (action : HandAction) (state : HandLifecycle)
    → ((is_faulted state || accepts action state || is_some (reason_for action state)) ≡ true)
      × ((accepts action faulted || is_some (action_rule action).faulted_reason) ≡ true)
unfolding action_rule
reasons-given connect =
    each_state _ ((refl, refl), (refl, refl), (refl, refl), (refl, refl), (refl, refl))
reasons-given disconnect =
    each_state _ ((refl, refl), (refl, refl), (refl, refl), (refl, refl), (refl, refl))
reasons-given run =
    each_state _ ((refl, refl), (refl, refl), (refl, refl), (refl, refl), (refl, refl))
reasons-given stop =
    each_state _ ((refl, refl), (refl, refl), (refl, refl), (refl, refl), (refl, refl))
reasons-given home =
    each_state _ ((refl, refl), (refl, refl), (refl, refl), (refl, refl), (refl, refl))
reasons-given reconnect =
    each_state _ ((refl, refl), (refl, refl), (refl, refl), (refl, refl), (refl, refl))
reasons-given set_command =
    each_state _ ((refl, refl), (refl, refl), (refl, refl), (refl, refl), (refl, refl))
reasons-given set_tactile_bias =
    each_state _ ((refl, refl), (refl, refl), (refl, refl), (refl, refl), (refl, refl))
reasons-given reset_tactile_bias =
    each_state _ ((refl, refl), (refl, refl), (refl, refl), (refl, refl), (refl, refl))

command_reason :
    (action : HandAction)
    → (not (is_set_command action) || is_some (action_rule action).other_reason) ≡ true
unfolding action_rule
command_reason connect = refl
command_reason disconnect = refl
command_reason run = refl
command_reason stop = refl
command_reason home = refl
command_reason reconnect = refl
command_reason set_command = refl
command_reason set_tactile_bias = refl
command_reason reset_tactile_bias = refl

unfoldable pub code_of : Option Status → Option ErrorCode
code_of none = none
code_of (some status) = some status.code

code_of-no_error : code_of (some no_error) ≡ some ok
unfolding code_of
code_of-no_error = refl

reject-code :
    (action : HandAction) (code : ErrorCode) (reason : Option String)
    → is_some reason ≡ true
    → code_of (reject action code reason) ≡ some code
unfolding reject code_of
reject-code action code none h = cc
reject-code action code (some reason) h = refl

faulted_phrase-is_some :
    (phrase : String) (reason : Option String)
    → is_some (faulted_phrase phrase reason) ≡ is_some reason
unfolding faulted_phrase
faulted_phrase-is_some phrase none = refl
faulted_phrase-is_some phrase (some reason) = refl

-- For every call, request and observation (Faulted is observed, never requested), the check returns a
-- status, so no null reason is ever read: None exactly if the hand is not destroyed and either an
-- observed fault leaves only reconnect(), or the request accepts the call and, for a command, Running
-- was observed and the hand is homed; a refusal for a fault carries CommunicationLost or
-- ControlLoopFault by its cause, and every other one WrongCallOrder.
pub check_action_allowed-code :
    (action : HandAction) (requested observed : HandLifecycle) (destroyed : Bool)
    (stop_cause : StopCause) (phrase : String) (homed : Bool)
    → is_faulted requested ≡ false
    → code_of (check_action_allowed action requested observed destroyed stop_cause phrase homed)
      ≡ some (
          if is_possible action requested observed destroyed homed
          then ok
          else refusal_code observed destroyed stop_cause)
unfolding check_action_allowed
check_action_allowed-code action requested observed destroyed stop_cause phrase homed h =
    let rule = action_rule action in
    let fault_code : ErrorCode =
      if is_communication stop_cause.reason then communication_lost else control_loop_fault in
    ground (
      arith,
      rules-accepts action faulted,
      rules-accepts action requested,
      reasons-given action requested,
      command_reason action,
      faulted_phrase-is_some phrase rule.faulted_reason,
      code_of-no_error,
      reject-code action wrong_call_order (some "hand is destroyed — create a hand"),
      reject-code action wrong_call_order (some "not homed — call home() first"),
      reject-code action wrong_call_order rule.other_reason,
      reject-code action wrong_call_order (reason_for action requested),
      reject-code action fault_code (faulted_phrase phrase rule.faulted_reason),
    )
