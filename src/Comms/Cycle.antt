-- ===== src/Comms/Cycle.antt =====
-- What `HandComms` does in each control cycle: `read`, `write`, `quick_stop_attained` and
-- `drives_enabled` of hand_comms.cpp. The frames that the socket holds and what its sends return are
-- arguments.
use Prim.Native.Nat.{bit_and, bit_or}
use aidin_hand2_sdk.Base.{
  ℕ, ◌+◌, ◌-◌, ◌^◌, Bool, true, false, not, ◌&&◌, ◌||◌, ◌==◌, ltb, if◌then◌else◌, List, [], ◌∷◌,
}
use aidin_hand2_sdk.Base.Arrays.{Array, all_below}
use aidin_hand2_sdk.Base.Bits.{is_set}
use aidin_hand2_sdk.Cia402.{
  ControlWordMode, enable, shutdown, quick_stop, compute_control_word, quick_stop_active,
  enable_settled,
}
use aidin_hand2_sdk.Protocol.Frames.{CommandFrames, actuator_count}
use aidin_hand2_sdk.Protocol.Ids.{CanAbi, CanFrame}
use aidin_hand2_sdk.Protocol.Codec.{DecodeResult, error, decode, TxFrames, encode}
use aidin_hand2_sdk.Protocol.Observation.{
  Observation, ActuatorHealth, frames_to_hand_state, frames_to_actuator_health,
}
use aidin_hand2_sdk.Homing.Sequence.{cancel}
use aidin_hand2_sdk.Homing.Step.{step}
use aidin_hand2_sdk.Comms.Session.{HandComms, is_decoded}
use aidin_hand2_sdk.Types.Error.{ErrorCode, ok, wrong_call_order, interface_unavailable}

unfoldable pub quick_stop_attained : HandComms → Bool
quick_stop_attained h = all_below actuator_count (λ i.
    h.actuator_disabled i
    || not (h.quick_stop_seen_high i)
    || not (is_set (h.rx_frames.status_word i) quick_stop_active))

unfoldable pub drives_enabled : HandComms → Bool
drives_enabled h =
    enable_settled actuator_count h.rx_frames.status_word h.rx_frames.error_code h.actuator_disabled

abbrev pub is_error : DecodeResult → Bool
is_error error = true
is_error _ = false

-- The error class of an error frame, a missing ACK put into its class bit.
unfoldable pub error_frame_class : CanAbi → CanFrame → ℕ
error_frame_class abi rx =
    let class = bit_and rx.can_id abi.err_mask in
    if is_set rx.can_id abi.err_prot && ltb 3 rx.len && rx.payload 3 == abi.err_prot_loc_ack
    then bit_or class abi.err_ack
    else class

-- One frame of the loop of `read`, beside `received_any`.
unfoldable pub receive : CanAbi → CanFrame → HandComms × Bool → HandComms × Bool
receive abi rx (h, received_any) =
    let (frames, result) = decode abi h.ids rx h.rx_frames in
    if is_decoded result then (record h { rx_frames = frames }, true) else (
      record h {
        rx_frames = frames;
        last_receive_anomaly = result;
        last_error_frame_class =
            if is_error result then error_frame_class abi rx else h.last_error_frame_class;
      },
      received_any,
    )

unfoldable pub drain : CanAbi → List CanFrame → HandComms × Bool → HandComms × Bool
drain abi [] s = s
drain abi (rx ∷ queue) s = drain abi queue (receive abi rx s)

abbrev pub uint32_max : ℕ
uint32_max = 2 ^ 32 - 1

-- What follows the loop: the silence counter and the actuators seen with bit 5 high.
unfoldable pub count_cycle : HandComms × Bool → HandComms
count_cycle (h, received_any) = record h {
  cycles_since_last_frame =
      if received_any
      then 0
      else if ltb h.cycles_since_last_frame uint32_max
      then h.cycles_since_last_frame + 1
      else h.cycles_since_last_frame;
  any_frame_received = received_any || h.any_frame_received;
  quick_stop_seen_high =
      λ i. is_set (h.rx_frames.status_word i) quick_stop_active || h.quick_stop_seen_high i;
}

-- A disabled actuator's status word does not reach its health.
unfoldable pub mask_disabled : Array Bool → ActuatorHealth → ActuatorHealth
mask_disabled disabled health = record {
  enabled = λ i. if disabled i then false else health.enabled i;
  fault = λ i. if disabled i then 0 else health.fault i;
}

pub record ReadResult : Type 0 where
  pub comms : HandComms
  pub hand_state : Observation
  pub actuator_health : ActuatorHealth
  pub code : ErrorCode

-- `read`, from what the caller's two structures hold before.
unfoldable pub read : CanAbi → List CanFrame → HandComms → Observation → ActuatorHealth → ReadResult
read abi queue h hand_state actuator_health =
    let after = count_cycle (drain abi queue (h, false)) in
    if h.is_connected
    then record {
      comms = after;
      hand_state = frames_to_hand_state after.rx_frames;
      actuator_health =
          mask_disabled after.actuator_disabled (frames_to_actuator_health after.rx_frames);
      code = ok;
    }
    else record {
      comms = h;
      hand_state = hand_state;
      actuator_health = actuator_health;
      code = wrong_call_order;
    }

-- What the cycle sends before the control words: a quick stop, a homing step, or the command.
unfoldable pub choose_frames :
    CommandFrames → Bool → HandComms → HandComms × CommandFrames × ControlWordMode
choose_frames command stopping h =
    let (sequence, frames, mode) = step h.rx_frames command h.homing in
    if stopping
    then (record h { homing = cancel h.homing }, command, quick_stop)
    else if h.homing.active
    then (record h { homing = sequence }, frames, mode)
    else (h, command, enable)

-- The loop over the actuators: one control word each.
unfoldable pub choose_words : ControlWordMode → HandComms → Array ℕ
choose_words mode h i =
    compute_control_word (if h.actuator_disabled i then shutdown else mode)
      (h.rx_frames.status_word i) (h.last_control_word i)

-- The gen2 order.
unfoldable pub in_send_order : TxFrames → List CanFrame
in_send_order tx =
    tx.mode_of_operation ∷ tx.homing_method ∷ tx.target_position ∷ tx.target_effort
    ∷ tx.control_word ∷ []

-- What the five sends return, and last_send_errno() behind them.
pub record Sends : Type 0 where
  pub accepted : Array Bool
  pub errno : ℕ

pub record WriteResult : Type 0 where
  pub comms : HandComms
  pub sent : List CanFrame
  pub code : ErrorCode

-- The rest of `write`: the words, the payloads and the sends.
unfoldable pub send_frames : HandComms → CommandFrames → ControlWordMode → Sends → WriteResult
send_frames h frames mode sends =
    let words = choose_words mode h in
    let tx = encode (record frames { control_word = words }) h.tx_frames in
    let after = record h { last_control_word = words; tx_frames = tx } in
    if all_below 5 sends.accepted
    then record { comms = after; sent = in_send_order tx; code = ok }
    else record {
      comms = record after { last_transmit_errno = sends.errno };
      sent = in_send_order tx;
      code = interface_unavailable;
    }

unfoldable pub write : CommandFrames → Bool → Sends → HandComms → WriteResult
write command stopping sends h =
    let (chosen, frames, mode) = choose_frames command stopping h in
    if h.is_connected
    then send_frames chosen frames mode sends
    else record { comms = h; sent = []; code = wrong_call_order }
