-- ===== src/InterfaceSetup/Request.antt =====
-- The rtnetlink messages of interface_setup.cpp. A message is its header and the attributes appended
-- so far, each with its offset from the start of the request: a place that is written twice would
-- show as two attributes that overlap.
use aidin_hand2_sdk.Base.{ℕ, ◌+◌, ◌-◌, ◌/◌, ◌%◌, ◌^◌, ◌==◌, if◌then◌else◌, List, [], ◌∷◌, ◌++◌, map}
use aidin_hand2_sdk.Base.Lists.{length}

-- The macros and constants of linux/netlink.h, linux/rtnetlink.h, linux/can/netlink.h and net/if.h:
-- `align` is NLMSG_ALIGN and RTA_ALIGN, `attribute_header` is RTA_LENGTH(0) and `link_header` is
-- NLMSG_LENGTH(sizeof(ifinfomsg)).
pub record NetlinkAbi : Type 0 where
  pub align : ℕ → ℕ
  pub attribute_header : ℕ
  pub link_header : ℕ
  pub rtm_newlink : ℕ
  pub request_flags : ℕ
  pub iff_up : ℕ
  pub ifla_txqlen : ℕ
  pub ifla_linkinfo : ℕ
  pub ifla_info_kind : ℕ
  pub ifla_info_data : ℕ
  pub ifla_can_bittiming : ℕ
  pub ifla_can_data_bittiming : ℕ
  pub ifla_can_ctrlmode : ℕ
  pub can_ctrlmode_fd : ℕ
  -- can_bittiming with its bitrate, sample_point and sjw set, and can_ctrlmode with its mask and
  -- flags, as bytes.
  pub bittiming_bytes : ℕ → ℕ → ℕ → List ℕ
  pub ctrlmode_bytes : ℕ → ℕ → List ℕ

pub record Attribute : Type 0 where
  pub offset : ℕ
  pub kind : ℕ
  -- rta_len, an unsigned short.
  pub size : ℕ
  pub payload : List ℕ

pub record NetlinkRequest : Type 0 where
  -- nlmsg_len, nlmsg_type and nlmsg_flags.
  pub message_size : ℕ
  pub message_kind : ℕ
  pub message_flags : ℕ
  -- ifi_index, ifi_flags and ifi_change; ifi_family stays AF_UNSPEC.
  pub interface_index : ℕ
  pub interface_flags : ℕ
  pub interface_change : ℕ
  pub attributes : List Attribute

-- sizeof(NetlinkRequest::attribute_buffer).
abbrev pub buffer_size : ℕ
buffer_size = 512

-- kNominalBitrate and the constants below it.
abbrev pub nominal_bitrate : ℕ
nominal_bitrate = 1000000

abbrev pub nominal_sample_point_per_mille : ℕ
nominal_sample_point_per_mille = 875

abbrev pub nominal_sync_jump_width : ℕ
nominal_sync_jump_width = 10

abbrev pub data_bitrate : ℕ
data_bitrate = 5000000

abbrev pub data_sample_point_per_mille : ℕ
data_sample_point_per_mille = 875

abbrev pub data_sync_jump_width : ℕ
data_sync_jump_width = 2

abbrev pub transmit_queue_length : ℕ
transmit_queue_length = 1000

-- The bytes of a uint32_t, little-endian.
abbrev pub word_bytes : ℕ → List ℕ
word_bytes n = n % 256 ∷ n / 256 % 256 ∷ n / 2 ^ 16 % 256 ∷ n / 2 ^ 24 % 256 ∷ []

-- "can", as characters.
abbrev pub can_kind : List ℕ
can_kind = b'c' ∷ b'a' ∷ b'n' ∷ []

module _ (abi : NetlinkAbi) where
  unfoldable pub make_newlink_request : ℕ → NetlinkRequest
  make_newlink_request interface_index = record {
    message_size = abi.link_header;
    message_kind = abi.rtm_newlink;
    message_flags = abi.request_flags;
    interface_index = interface_index;
    interface_flags = 0;
    interface_change = 0;
    attributes = [];
  }

  unfoldable pub add_attribute : ℕ → List ℕ → NetlinkRequest → NetlinkRequest
  add_attribute kind payload request =
      let size = (abi.attribute_header + length payload) % 2 ^ 16 in
      record request {
        message_size = abi.align request.message_size + abi.align size;
        attributes =
            request.attributes
            ++ record {
              offset = abi.align request.message_size;
              kind = kind;
              size = size;
              payload = payload;
            }
              ∷ [];
      }

  -- The offset that is returned stands for the pointer.
  unfoldable pub begin_nested_attribute : ℕ → NetlinkRequest → NetlinkRequest × ℕ
  begin_nested_attribute kind request =
      (add_attribute kind [] request, abi.align request.message_size)

  abbrev pub resize : ℕ → ℕ → Attribute → Attribute
  resize offset size attribute =
      if attribute.offset == offset then record attribute { size = size } else attribute

  unfoldable pub end_nested_attribute : ℕ → NetlinkRequest → NetlinkRequest
  end_nested_attribute offset request = record request {
    attributes =
        map (resize offset ((abi.align request.message_size - offset) % 2 ^ 16)) request.attributes;
  }

  -- The message of `configure_protocol_constants`.
  unfoldable pub configure_request : ℕ → NetlinkRequest
  configure_request interface_index =
      let queue =
        add_attribute abi.ifla_txqlen (word_bytes transmit_queue_length)
          (make_newlink_request interface_index) in
      let (opened, link_info) = begin_nested_attribute abi.ifla_linkinfo queue in
      let (inner, info_data) =
        begin_nested_attribute abi.ifla_info_data
          (add_attribute abi.ifla_info_kind can_kind opened) in
      let nominal =
        add_attribute abi.ifla_can_bittiming
          (abi.bittiming_bytes nominal_bitrate nominal_sample_point_per_mille
            nominal_sync_jump_width)
          inner in
      let timed =
        add_attribute abi.ifla_can_data_bittiming
          (abi.bittiming_bytes data_bitrate data_sample_point_per_mille data_sync_jump_width)
          nominal in
      let complete =
        add_attribute abi.ifla_can_ctrlmode
          (abi.ctrlmode_bytes abi.can_ctrlmode_fd abi.can_ctrlmode_fd) timed in
      end_nested_attribute link_info (end_nested_attribute info_data complete)

  -- The message of `bring_link_up`.
  unfoldable pub up_request : ℕ → NetlinkRequest
  up_request interface_index = record (make_newlink_request interface_index) {
    interface_flags = abi.iff_up;
    interface_change = abi.iff_up;
  }
