-- ===== src/Transport/Socket.antt =====
-- The methods of `Transport`. What the kernel answers to a call is an argument; the descriptors that
-- the process has open are part of the state.
use Prim.Native.String.{String, ◌++◌}
use aidin_hand2_sdk.Base.{ℕ, Bool, true, false, not, ◌||◌, ◌==◌, if◌then◌else◌, Option, none, some}
use aidin_hand2_sdk.Base.Arrays.{Array, set}
use aidin_hand2_sdk.Types.Error.{ErrorCode, ok, wrong_call_order, interface_unavailable, is_ok}
use aidin_hand2_sdk.Lifecycle.Phrase.{Platform}
use aidin_hand2_sdk.InterfaceSetup.Request.{NetlinkAbi}
use aidin_hand2_sdk.InterfaceSetup.Setup.{SetupErrno, Kernel, ensure_interface_up}

-- A call's result that is not negative, or its errno.
pub data Answer : Type 0 where
  gives : ℕ → Answer
  fails : ℕ → Answer

-- fd_ is none where it is negative.
pub record Transport : Type 0 where
  pub fd : Option ℕ
  pub bound_interface_index : ℕ
  pub last_send_errno : ℕ
  pub descriptors : Array Bool

-- The member initialisers.
abbrev pub new_transport : Array Bool → Transport
new_transport descriptors = record {
  fd = none;
  bound_interface_index = 0;
  last_send_errno = 0;
  descriptors = descriptors;
}

-- The answers to the calls of one `open`, in their order.
pub record SocketCalls : Type 0 where
  pub socket : Answer
  pub enable_canfd : Answer
  pub interface_index : Answer
  pub bind : Answer

-- The Status of `open`: None, the guard, that of ensure_interface_up, or `open_failure` with an errno.
pub data OpenStatus : Type 0 where
  opened : OpenStatus
  already_open : OpenStatus
  not_ready : ErrorCode → OpenStatus
  open_failure : ℕ → OpenStatus

unfoldable pub open_code : OpenStatus → ErrorCode
open_code opened = ok
open_code already_open = wrong_call_order
open_code (not_ready code) = code
open_code (open_failure errno) = interface_unavailable

-- The errno values that `open_failure` tells apart.
pub record OpenErrno : Type 0 where
  pub enodev : ℕ
  pub eperm : ℕ
  pub eacces : ℕ
  pub eafnosupport : ℕ
  pub eprotonosupport : ℕ
  pub enoprotoopt : ℕ

unfoldable pub open_failure_text : OpenErrno → Platform → String → ℕ → String
open_failure_text errno platform interface err =
    if err == errno.enodev
    then "CAN interface '" ++ interface
      ++ "' not found (check the name with `ip link`, and that it exists)"
    else if err == errno.eperm || err == errno.eacces
    then "permission denied opening CAN socket on '" ++ interface ++ "' (need root or CAP_NET_RAW)"
    else if err == errno.eafnosupport || err == errno.eprotonosupport
    then "CAN not supported by the kernel (try `modprobe can can_raw`)"
    else if err == errno.enoprotoopt
    then "kernel or interface '" ++ interface
      ++ "' is not configured for CAN-FD (CAN_RAW_FD_FRAMES);"
      ++ " check with `ip -details link show " ++ interface ++ "`"
    else "failed to open CAN interface '" ++ interface ++ "': " ++ platform err

-- ::close.
unfoldable pub close_descriptor : ℕ → Transport → Transport
close_descriptor fd t = record t { descriptors = set t.descriptors fd false }

-- Steps 4 to 6 of `open`, on the socket's descriptor.
unfoldable pub set_up_socket : SocketCalls → ℕ → Transport → Transport × OpenStatus
set_up_socket calls fd t = elim calls.enable_canfd [
  | fails errno ↦ (close_descriptor fd t, open_failure errno)
  | gives _ ↦ elim calls.interface_index [
    | fails errno ↦ (close_descriptor fd t, open_failure errno)
    | gives index ↦ elim calls.bind [
      | fails errno ↦ (close_descriptor fd t, open_failure errno)
      | gives _ ↦ (record t { fd = some fd; bound_interface_index = index }, opened)
    ]
  ]
]

unfoldable pub open_transport :
    SetupErrno → NetlinkAbi → Kernel → SocketCalls → Transport → Transport × OpenStatus
open_transport errno abi kernel calls t = elim t.fd [
  | some _ ↦ (t, already_open)
  | none ↦
      let (ready, sent, left) = ensure_interface_up errno abi kernel t.descriptors in
      let readied : Transport = record t { descriptors = left } in
      if not (is_ok ready) then (readied, not_ready ready) else elim calls.socket [
        | fails errno ↦ (readied, open_failure errno)
        | gives fd ↦ set_up_socket calls fd (record readied { descriptors = set left fd true })
      ]
]

unfoldable pub close_transport : Transport → Transport
close_transport t = elim t.fd [ none ↦ t | some fd ↦ record (close_descriptor fd t) { fd = none } ]

-- The two sizes of a CAN frame, CANFD_MTU and CAN_MTU of linux/can.h.
pub record MtuAbi : Type 0 where
  pub canfd_mtu : ℕ
  pub can_mtu : ℕ

module _ (mtu : MtuAbi) where
  -- Whether a frame was received.
  unfoldable pub recv : Answer → Transport → Bool
  recv answer t = elim t.fd [
    | none ↦ false
    | some fd ↦ elim answer [
      | fails _ ↦ false
      | gives count ↦ (count == mtu.canfd_mtu) || (count == mtu.can_mtu)
    ]
  ]

  -- sizeof(canfd_frame) is CANFD_MTU.
  unfoldable pub send : Answer → Transport → Transport × Bool
  send answer t = elim t.fd [
    | none ↦ (t, false)
    | some fd ↦ elim answer [
      | fails errno ↦ (record t { last_send_errno = errno }, false)
      | gives count ↦
          if count == mtu.canfd_mtu then (t, true) else (record t { last_send_errno = 0 }, false)
    ]
  ]

-- `set_id_filters` and `set_error_mask`: whether the option was set.
unfoldable pub set_option : Answer → Transport → Bool
set_option answer t = elim t.fd [
  | none ↦ false
  | some fd ↦ elim answer [ gives result ↦ result == 0 | fails _ ↦ false ]
]
