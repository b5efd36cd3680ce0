-- ===== src/InterfaceSetup/Setup.antt =====
-- `ensure_interface_up` of interface_setup.cpp. What the kernel answers is an argument; a status is
-- its code, and a result is an int32_t as its bit pattern.
use aidin_hand2_sdk.Base.{
  ℕ, ◌-◌, ◌^◌, Bool, true, false, not, ◌&&◌, ◌==◌, leb, if◌then◌else◌, List, [], ◌∷◌, Option, none,
  some,
}
use aidin_hand2_sdk.Base.Arrays.{Array, set}
use aidin_hand2_sdk.Types.Error.{ErrorCode, ok, interface_unavailable, is_ok}
use aidin_hand2_sdk.InterfaceSetup.Request.{
  NetlinkAbi, NetlinkRequest, configure_request, up_request,
}

-- What comes of a message: an error of send or recv with its errno, a reply too short to be one, an
-- NLMSG_ERROR with its error, and any other reply.
pub data Reply : Type 0 where
  send_failed : ℕ → Reply
  receive_failed : ℕ → Reply
  short : Reply
  answered : ℕ → Reply
  unexpected : Reply

-- EBADMSG; which other numbers stand for a missing permission only tells the texts apart.
pub record SetupErrno : Type 0 where
  pub ebadmsg : ℕ

-- if_nametoindex of the interface, 0 if there is none; the descriptor of the CAN socket that asks for
-- the flags, if it opens, whether they are answered, and say that the interface is up; the descriptor
-- of the netlink socket, if it opens; and the replies.
pub record Kernel : Type 0 where
  pub interface_index : ℕ
  pub probe_socket : Option ℕ
  pub reads_flags : Bool
  pub is_up : Bool
  pub netlink_socket : Option ℕ
  pub reply : NetlinkRequest → Reply

-- The descriptors that the process has open, after ::socket and after ::close.
abbrev pub Descriptors : Type 0
Descriptors = Array Bool

unfoldable pub opened : ℕ → Descriptors → Descriptors
opened fd descriptors = set descriptors fd true

unfoldable pub closed : ℕ → Descriptors → Descriptors
closed fd descriptors = set descriptors fd false

abbrev pub negative : ℕ → ℕ
negative errno = 2 ^ 32 - errno

abbrev pub is_negative : ℕ → Bool
is_negative result = leb (2 ^ 31) result

-- A socket that does not open reads no flags.
unfoldable pub is_interface_up : Kernel → Descriptors → Bool × Descriptors
is_interface_up kernel descriptors = elim kernel.probe_socket [
  | none ↦ (false, descriptors)
  | some fd ↦ (kernel.reads_flags && kernel.is_up, closed fd (opened fd descriptors))
]

module _ (errno : SetupErrno) where
  unfoldable pub send_and_acknowledge : Reply → ℕ
  send_and_acknowledge (send_failed code) = negative code
  send_and_acknowledge (receive_failed code) = negative code
  send_and_acknowledge short = negative errno.ebadmsg
  send_and_acknowledge (answered error) = error
  send_and_acknowledge unexpected = negative errno.ebadmsg

  -- The code of `configure_protocol_constants` and of `bring_link_up`; the guidance for the user, which
  -- a missing permission gets, carries the same one.
  unfoldable pub result_code : ℕ → ErrorCode
  result_code result = if is_negative result then interface_unavailable else ok

  module _ (abi : NetlinkAbi) where
    -- The code, the messages sent, and the descriptors that are open afterwards.
    unfoldable pub ensure_interface_up :
        Kernel → Descriptors → ErrorCode × List NetlinkRequest × Descriptors
    ensure_interface_up kernel descriptors =
        let index = kernel.interface_index in
        let configure = configure_request abi index in
        let up = up_request abi index in
        let configured = result_code (send_and_acknowledge (kernel.reply configure)) in
        let raised = result_code (send_and_acknowledge (kernel.reply up)) in
        let (is_up, probed) = is_interface_up kernel descriptors in
        if index == 0
        then (interface_unavailable, [], descriptors)
        else if is_up
        then (ok, [], probed)
        else elim kernel.netlink_socket [
          | none ↦ (interface_unavailable, [], probed)
          | some fd ↦
              let left = closed fd (opened fd probed) in
              if not (is_ok configured)
              then (configured, configure ∷ [], left)
              else (raised, configure ∷ up ∷ [], left)
        ]
