-- ===== src/EventLog/Text.antt =====
-- The texts of hand_core_event_logging_thread.cpp. A signed number is its bit pattern; a line of the
-- log is its severity and its text, without the hand's side.
use Prim.Native.String.{String, ◌++◌, len}
use aidin_hand2_sdk.Base.{
  ℕ, zero, suc, ◌+◌, ◌-◌, ◌%◌, ◌^◌, Bool, ◌==◌, leb, if◌then◌else◌, Option, none, some,
}
use aidin_hand2_sdk.Base.Bits.{is_set}
use aidin_hand2_sdk.Types.Lifecycle.{faulted, stopped, connected}
use aidin_hand2_sdk.Types.Events.{
  RealtimeEvent, RealtimeEventKind, receive_silence, transmit_failure, control_loop_failure,
  stop_confirmed, stop_not_confirmed, receive_restored, actuator_fault_set, actuator_fault_cleared,
  homing_phase_entered, homing_completed, tactile_bias_set, tactile_bias_reset,
}
use aidin_hand2_sdk.Protocol.Ids.{CanAbi}
use aidin_hand2_sdk.Protocol.Frames.{actuator_count}
use aidin_hand2_sdk.Homing.Sequence.{
  HomingOutcome, HomingPhase, preparing, preloading_to_hard_stop, setting_origin, enable_timeout,
  clear_timeout, homing_failed, trigger_timeout, homing_failure_phase,
}
use aidin_hand2_sdk.Lifecycle.Phrase.{
  Platform, to_string, to_hex16, receive_anomaly_suffix, transmit_errno_suffix,
}

pub data Severity : Type 0 where
  debug info warn critical : Severity

pub record Line : Type 0 where
  pub severity : Severity
  pub text : String

-- The switch on ActuatorFault, which is a uint16_t.
unfoldable pub fault_name : ℕ → String
fault_name fault =
    if fault == 0x0000
    then "None"
    else if fault == 0x2310
    then "OverCurrentError"
    else if fault == 0x3210
    then "OverVoltageError"
    else if fault == 0x3220
    then "UnderVoltageError"
    else if fault == 0x4210
    then "OverTemperatureError"
    else if fault == 0x5210
    then "CurrentDetectionError"
    else if fault == 0x7310
    then "SpeedError"
    else if fault == 0x7500
    then "CommunicationError"
    else if fault == 0x8611
    then "FollowingError"
    else if fault == 0xFF01
    then "HallSensorError"
    else if fault == 0xFF02
    then "OverLoadError"
    else if fault == 0xFF03
    then "PositiveLimitSwitchError"
    else if fault == 0xFF04
    then "NegativeLimitSwitchError"
    else if fault == 0xFF05
    then "EmergencySwitchError"
    else if fault == 0xFF06
    then "Sto1Error"
    else if fault == 0xFF07
    then "Sto2Error"
    else if fault == 0xFF24
    then "SerialEncoderChannelAError"
    else if fault == 0xFF25
    then "SerialEncoderChannelADisconnectedError"
    else if fault == 0xFF26
    then "SerialEncoderChannelBError"
    else if fault == 0xFF27
    then "SerialEncoderChannelBDisconnectedError"
    else "UnknownError"

unfoldable pub fault_description : ℕ → String
fault_description fault_code =
    fault_name (fault_code % 2 ^ 16) ++ " " ++ to_hex16 (fault_code % 2 ^ 16)

abbrev is_empty : String → Bool
is_empty text = len text == 0

-- The loop of actuator_mask_text from the actuator i on, behind the list so far.
unfoldable pub mask_text_from : ℕ → ℕ → ℕ → String → String
mask_text_from zero i mask list = list
mask_text_from (suc count) i mask list = mask_text_from count (i + 1) mask (
    if is_set mask (2 ^ i)
    then list ++ (if is_empty list then "" else ", ") ++ to_string i
    else list)

unfoldable pub actuator_mask_text : ℕ → String
actuator_mask_text mask = mask_text_from actuator_count 0 mask ""

unfoldable pub homing_phase_text : HomingPhase → String
homing_phase_text preparing = "step (1/3) preparing actuators"
homing_phase_text preloading_to_hard_stop = "step (2/3) pressing to hard stop"
homing_phase_text setting_origin = "step (3/3) setting origin"

-- static_cast<HomingPhase>(event.detail) as a text.
unfoldable pub phase_text : ℕ → String
phase_text detail =
    if detail == 0
    then homing_phase_text preparing
    else if detail == 1
    then homing_phase_text preloading_to_hard_stop
    else if detail == 2
    then homing_phase_text setting_origin
    else "step"

unfoldable pub homing_failure_reason : HomingOutcome → String
homing_failure_reason enable_timeout = "no actuator could be brought under control"
homing_failure_reason clear_timeout = "some actuators could not be prepared for homing"
homing_failure_reason homing_failed = "some actuators reported a homing error"
homing_failure_reason trigger_timeout = "some actuators did not finish homing"
homing_failure_reason HomingOutcome.in_progress = "homing did not complete"
homing_failure_reason HomingOutcome.succeeded = "homing did not complete"

-- static_cast<HomingOutcome>(event.detail), in both of its uses.
unfoldable pub failure_text : ℕ → String
failure_text detail =
    let of = λ (outcome : HomingOutcome).
      homing_phase_text (homing_failure_phase outcome) ++ ": " ++ homing_failure_reason outcome in
    if detail == 2
    then of enable_timeout
    else if detail == 3
    then of clear_timeout
    else if detail == 4
    then of homing_failed
    else if detail == 5
    then of trigger_timeout
    else of HomingOutcome.in_progress

-- std::to_string of an int32_t.
abbrev int_text : ℕ → String
int_text n = if leb (2 ^ 31) n then "-" ++ to_string (2 ^ 32 - n) else to_string n

abbrev line : Severity → String → Option Line
line severity text = some (record { severity = severity; text = text })

-- The cases of ReceiveSilence, behind the base.
unfoldable pub silence_line : RealtimeEvent → String → Line
silence_line event base =
    let as_critical : String → Line = λ text. record { severity = critical; text = base ++ text } in
    if event.stop_latched
    then as_critical " — sending quick stop; awaiting confirmation"
    else elim event.lifecycle [
      | stopped ↦
          as_critical " while stopped — hand is no longer observable; call reconnect() to recover"
      | connected ↦
          as_critical " while connected — hand is no longer observable; call reconnect() to recover"
      | _ ↦ record { severity = warn; text = base ++ " — check CAN link and hand power" }
    ]

-- The line of HomingFailed.
unfoldable pub failure_line : RealtimeEvent → String → Line
failure_line event prefix =
    let actuators = actuator_mask_text event.actuator_mask in
    if leb (2 ^ 31) event.actuator_index
    then record {
      severity = warn;
      text =
          prefix
          ++ "homing failed at "
          ++ failure_text event.detail
          ++ (if is_empty actuators then "" else " (actuators " ++ actuators ++ ")")
          ++ " — home position NOT established; retry home()";
    }
    else record {
      severity = debug;
      text =
          prefix
          ++ "homing failed: actuator "
          ++ to_string event.actuator_index
          ++ " status "
          ++ to_hex16 (event.detail % 2 ^ 16);
    }

module _ (abi : CanAbi) (bus_off : ℕ) (platform : Platform) where
  -- The switch of `log_pending_events` on one event.
  unfoldable pub line_of : RealtimeEvent → Option Line
  line_of event =
      let prefix = "[cycle " ++ to_string event.cycle ++ "] " in
      elim event.kind [
        | actuator_fault_set ↦ line warn (
            prefix
            ++ "actuator "
            ++ int_text event.actuator_index
            ++ " fault set ("
            ++ fault_description event.detail
            ++ ")")
        | actuator_fault_cleared ↦
            line info (prefix ++ "actuator " ++ int_text event.actuator_index ++ " fault cleared")
        | receive_silence ↦ some (
            silence_line event (
              prefix
              ++ "communication lost (no RX"
              ++ receive_anomaly_suffix abi bus_off event.detail event.can_error_class
              ++ ")"))
        | receive_restored ↦ line info (
            prefix ++ "communication restored (RX resumed)" ++ elim event.lifecycle [
              | faulted ↦ " — call reconnect() to recover"
              | stopped ↦ " — call run() to resume"
              | _ ↦ ""
            ])
        | transmit_failure ↦ line critical (
            prefix
            ++ "CAN TX failed"
            ++ transmit_errno_suffix platform event.detail
            ++ " — cannot deliver quick stop, retrying; drives may hold last command")
        | stop_confirmed ↦ line info (
            prefix
            ++ "quick stop attained — drives torque-free"
            ++ elim event.lifecycle [ faulted ↦ "; call reconnect() to recover" | _ ↦ "" ])
        | stop_not_confirmed ↦ line critical (
            prefix ++ "quick stop NOT confirmed"
            ++ " — drives may hold last torque command; restore CAN link or power off the hand")
        | control_loop_failure ↦ none
        | homing_phase_entered ↦ line info (prefix ++ "homing: " ++ phase_text event.detail)
        | homing_completed ↦ line info (prefix ++ "homing complete — home position established")
        | RealtimeEventKind.homing_failed ↦ some (failure_line event prefix)
        | tactile_bias_set ↦
            line info (prefix ++ "tactile bias set — current tactile values are now zero")
        | tactile_bias_reset ↦
            line info (prefix ++ "tactile bias reset — tactile values are raw again")
      ]
