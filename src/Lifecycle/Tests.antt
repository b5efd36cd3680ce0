-- ===== src/Lifecycle/Tests.antt =====
-- A command after a lost link.
use aidin_hand2_sdk.Base.{◌≡◌, refl, true, false, if◌then◌else◌, some}
use aidin_hand2_sdk.Types.Error.{ok}
use aidin_hand2_sdk.Types.Lifecycle.{running, faulted}
use aidin_hand2_sdk.Types.Events.{StopCause, receive_silence}
use aidin_hand2_sdk.Lifecycle.Action.{set_command, check_action_allowed}
use aidin_hand2_sdk.Lifecycle.Rules.{check_action_allowed-code, code_of, is_possible, refusal_code}

abbrev silence : StopCause
silence = record { reason = receive_silence; cycle = 812; detail = 1; can_error_class = 0 }

check_action_allowed-code_example :
    code_of
      (check_action_allowed set_command running faulted false silence "no RX since cycle 812" true)
    ≡ some (
        if is_possible set_command running faulted false true
        then ok
        else refusal_code faulted false silence)
check_action_allowed-code_example =
    check_action_allowed-code set_command running faulted false silence "no RX since cycle 812" true
      refl
