-- ===== src/Comms/Session.antt =====
-- The state of `HandComms` (hand_comms.hpp), its constructor, `connect`, `disconnect`, `run`, `stop`
-- and `home`. The kernel's CAN sockets (transport.cpp) are the argument `bus`: for each interface name
-- whether a socket opens and takes the filters and the error mask, and what it receives while
-- `connect` watches it. The time that passes is no part of the state.
use aidin_hand2_sdk.Base.{
  ℕ, zero, suc, ◌+◌, ◌^◌, Bool, true, false, not, ◌&&◌, ◌||◌, leb, if◌then◌else◌, List, [], ◌∷◌,
  Option, none, some,
}
use Prim.Native.String.{String}
use aidin_hand2_sdk.Base.Arrays.{Array, fill, set}
use aidin_hand2_sdk.Protocol.Frames.{StateFrames, no_state_frames, actuator_count}
use aidin_hand2_sdk.Protocol.Ids.{CanAbi, CanFrame, HandSide, HandCanIds, hand_can_ids}
use aidin_hand2_sdk.Protocol.Codec.{
  DecodeResult, decoded, conflicting_command, decode, TxFrames, no_tx_frames, init_tx,
}
use aidin_hand2_sdk.Homing.Sequence.{HomingSequence, new_sequence, start, cancel}
use aidin_hand2_sdk.Types.Error.{ErrorCode, ok, wrong_call_order, interface_unavailable}

pub record HandComms : Type 0 where
  -- config_.interface_name, none for "auto".
  pub interface_name : Option String
  pub ids : HandCanIds
  pub actuator_disabled : Array Bool
  -- transport_.is_open().
  pub is_connected : Bool
  pub tx_frames : TxFrames
  pub rx_frames : StateFrames
  pub last_control_word : Array ℕ
  pub quick_stop_seen_high : Array Bool
  pub homing : HomingSequence
  pub control_active : Bool
  pub cycles_since_last_frame : ℕ
  pub any_frame_received : Bool
  pub last_receive_anomaly : DecodeResult
  pub last_error_frame_class : ℕ
  pub last_transmit_errno : ℕ

-- The constructor's loop: an index out of range, negative ones included, is dropped.
unfoldable pub disable_each : List ℕ → Array Bool → Array Bool
disable_each [] mask = mask
disable_each (index ∷ indices) mask =
    disable_each indices
      (if leb (2 ^ 31) index || leb actuator_count index then mask else set mask index true)

unfoldable pub new_comms : Option String → HandSide → List ℕ → HandComms
new_comms interface_name side disabled_actuators = record {
  interface_name = interface_name;
  ids = hand_can_ids side;
  actuator_disabled = disable_each disabled_actuators (fill false);
  is_connected = false;
  tx_frames = no_tx_frames;
  rx_frames = no_state_frames;
  last_control_word = fill 0;
  quick_stop_seen_high = fill false;
  homing = new_sequence;
  control_active = false;
  cycles_since_last_frame = 0;
  any_frame_received = false;
  last_receive_anomaly = decoded;
  last_error_frame_class = 0;
  last_transmit_errno = 0;
}

-- One CAN interface: what the socket calls return, and the frames that arrive in each iteration of
-- the two loops of `connect`.
pub record Channel : Type 0 where
  pub opens : Bool
  pub takes_filters : Bool
  pub takes_error_mask : Bool
  pub observed : ℕ → List CanFrame
  pub probed : ℕ → List CanFrame

abbrev pub Bus : Type 0
Bus = String → Channel

abbrev pub is_decoded : DecodeResult → Bool
is_decoded decoded = true
is_decoded _ = false

abbrev pub is_conflicting : DecodeResult → Bool
is_conflicting conflicting_command = true
is_conflicting _ = false

-- The inner loop of a watch: frames are decoded until one has the result that is looked for.
unfoldable pub watch_for :
    (DecodeResult → Bool) → CanAbi → HandCanIds → List CanFrame → StateFrames → StateFrames × Bool
watch_for wanted abi ids [] frames = (frames, false)
watch_for wanted abi ids (rx ∷ queue) frames =
    let (frames', result) = decode abi ids rx frames in
    let rest = watch_for wanted abi ids queue frames' in
    if wanted result then (frames', true) else rest

-- The outer loop, its iterations counted from `index` on.
unfoldable pub watch :
    (DecodeResult → Bool)
    → CanAbi
    → HandCanIds
    → (ℕ → List CanFrame)
    → ℕ
    → ℕ
    → StateFrames
    → StateFrames × Bool
watch wanted abi ids arrives zero index frames = (frames, false)
watch wanted abi ids arrives (suc n) index frames =
    let (frames', found) = watch_for wanted abi ids (arrives index) frames in
    let rest = watch wanted abi ids arrives n (index + 1) frames' in
    if found then (frames', true) else rest

-- kObserveIterations and kProbeIterations.
abbrev pub observe_iterations : ℕ
observe_iterations = 15

abbrev pub probe_iterations : ℕ
probe_iterations = 15

-- `discover_interface`: the first candidate that opens, takes the filters and decodes a frame.
unfoldable pub discover_interface : CanAbi → HandCanIds → Bus → List String → Option String
discover_interface abi ids bus [] = none
discover_interface abi ids bus (candidate ∷ candidates) =
    let channel = bus candidate in
    let seen = (watch is_decoded abi ids channel.observed observe_iterations 0 no_state_frames).1 in
    let rest = discover_interface abi ids bus candidates in
    if channel.opens && channel.takes_filters && seen then some candidate else rest

-- The reset behind the probe, and the transmit headers.
unfoldable pub reset_session : CanAbi → HandComms → HandComms
reset_session abi h = record h {
  is_connected = true;
  rx_frames = no_state_frames;
  quick_stop_seen_high = fill false;
  last_control_word = fill 0;
  cycles_since_last_frame = 0;
  any_frame_received = false;
  last_receive_anomaly = decoded;
  last_error_frame_class = 0;
  last_transmit_errno = 0;
  homing = cancel h.homing;
  tx_frames = init_tx abi h.ids;
}

-- `connect` on one channel, from the opening of the socket on: a socket that is open already is left
-- alone (`Transport::open`), and a step that fails closes the socket again.
unfoldable pub connect_channel : CanAbi → Channel → HandComms → HandComms × ErrorCode
connect_channel abi channel h =
    let (frames, conflict) =
      watch is_conflicting abi h.ids channel.probed probe_iterations 0 h.rx_frames in
    if h.is_connected
    then (h, wrong_call_order)
    else if not channel.opens || not channel.takes_filters || not channel.takes_error_mask
    then (h, interface_unavailable)
    else if conflict
    then (record h { rx_frames = frames }, interface_unavailable)
    else (reset_session abi h, ok)

-- What follows the discovery: the name found is pinned.
unfoldable pub connect_found : CanAbi → Bus → Option String → HandComms → HandComms × ErrorCode
connect_found abi bus none h = (h, interface_unavailable)
connect_found abi bus (some name) h =
    connect_channel abi (bus name) (record h { interface_name = some name })

-- The name of the interface, or of the one that the discovery finds among the candidates.
unfoldable pub resolve : CanAbi → Bus → List String → HandComms → Option String
resolve abi bus candidates h = elim h.interface_name [
  | some name ↦ some name
  | none ↦ discover_interface abi h.ids bus candidates
]

unfoldable pub connect : CanAbi → Bus → List String → HandComms → HandComms × ErrorCode
connect abi bus candidates h = connect_found abi bus (resolve abi bus candidates h) h

unfoldable pub disconnect : HandComms → HandComms
disconnect h = record h { is_connected = false; control_active = false }

unfoldable pub run : HandComms → HandComms × ErrorCode
run h = if h.is_connected then (record h { control_active = true }, ok) else (h, wrong_call_order)

unfoldable pub stop : HandComms → HandComms × ErrorCode
stop h = (record h { control_active = false }, ok)

unfoldable pub home : HandComms → HandComms × ErrorCode
home h =
    if h.control_active
    then (record h { homing = start h.actuator_disabled h.homing }, ok)
    else (h, wrong_call_order)
