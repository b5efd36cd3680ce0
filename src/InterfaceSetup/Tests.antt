-- ===== src/InterfaceSetup/Tests.antt =====
-- The constants of a 64-bit Linux, and a kernel that acknowledges.
use aidin_hand2_sdk.Base.{
  ◌+◌, ◌*◌, ◌/◌, ◌≤◌, ◌≡◌, refl, not, ◌&&◌, ◌||◌, ◌==◌, if◌then◌else◌, true, false, arith, ltb,
  some, [], ◌∷◌, ◌++◌,
}
use aidin_hand2_sdk.Types.Error.{is_ok}
use aidin_hand2_sdk.InterfaceSetup.Request.{
  NetlinkAbi, buffer_size, word_bytes, configure_request, up_request,
}
use aidin_hand2_sdk.InterfaceSetup.Setup.{SetupErrno, Kernel, answered, ensure_interface_up}
use aidin_hand2_sdk.InterfaceSetup.Layout.{IsLinux, place_all, can_link, configure_request-layout}
use aidin_hand2_sdk.InterfaceSetup.Outcome.{
  acknowledges, is_some, found_up, ensure_interface_up-outcome,
}

abbrev pub linux_netlink : NetlinkAbi
linux_netlink = record {
  align = λ n. (n + 3) / 4 * 4;
  attribute_header = 4;
  link_header = 32;
  rtm_newlink = 16;
  request_flags = 5;
  iff_up = 1;
  ifla_txqlen = 13;
  ifla_linkinfo = 18;
  ifla_info_kind = 1;
  ifla_info_data = 2;
  ifla_can_bittiming = 1;
  ifla_can_data_bittiming = 9;
  ifla_can_ctrlmode = 5;
  can_ctrlmode_fd = 0x20;
  bittiming_bytes = λ rate point width.
      word_bytes rate
      ++ word_bytes point
      ++ word_bytes 0
      ++ word_bytes 0
      ++ word_bytes 0
      ++ word_bytes 0
      ++ word_bytes width
      ++ word_bytes 0;
  ctrlmode_bytes = λ mask flags. word_bytes mask ++ word_bytes flags;
}

linux_netlink-IsLinux : IsLinux linux_netlink
linux_netlink-IsLinux = record {
  aligns = λ n. refl;
  attribute_header = refl;
  link_header = refl;
  bittiming = λ rate point width. refl;
  ctrlmode = λ mask flags. refl;
}

configure_request-layout_example :
    let request = configure_request linux_netlink 3 in
    let laid_out = place_all 32 (can_link linux_netlink) in
    (request.attributes ≡ laid_out.0)
    × (request.message_size ≡ laid_out.1)
    × (request.message_size ≤ 32 + buffer_size)
configure_request-layout_example = configure_request-layout linux_netlink 3 linux_netlink-IsLinux

abbrev pub linux_errno : SetupErrno
linux_errno = record { ebadmsg = 74 }

-- An interface that is down.
abbrev pub idle_link : Kernel
idle_link = record {
  interface_index = 3;
  probe_socket = some 3;
  reads_flags = true;
  is_up = false;
  netlink_socket = some 3;
  reply = λ request. answered 0;
}

ensure_interface_up-outcome_example :
    let configure = configure_request linux_netlink idle_link.interface_index in
    let up = up_request linux_netlink idle_link.interface_index in
    let r = ensure_interface_up linux_errno linux_netlink idle_link (λ n. ltb n 3) in
    let there = not (idle_link.interface_index == 0) in
    let opens = is_some idle_link.netlink_socket in
    let asks = there && not (found_up idle_link) && opens in
    let configured = acknowledges (idle_link.reply configure) in
    (is_ok r.0 ≡ (
      there && (found_up idle_link || (opens && configured && acknowledges (idle_link.reply up)))))
    × (r.1 ≡ (if asks then if configured then configure ∷ up ∷ [] else configure ∷ [] else []))
ensure_interface_up-outcome_example =
    ensure_interface_up-outcome linux_errno linux_netlink idle_link (λ n. ltb n 3)
      ((omega arith), (omega arith)) tt tt
