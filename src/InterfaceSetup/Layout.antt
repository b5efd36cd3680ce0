-- ===== src/InterfaceSetup/Layout.antt =====
-- The configuration message as a tree of attributes (interface_setup.cpp).
use aidin_hand2_sdk.Base.{
  ℕ, ◌+◌, ◌-◌, ◌*◌, ◌/◌, ◌≤◌, ◌≡◌, refl, arith, List, [], ◌∷◌, ◌++◌, fun_ext,
}
use aidin_hand2_sdk.Base.Lists.{length}
use aidin_hand2_sdk.InterfaceSetup.Request.{
  NetlinkAbi, Attribute, buffer_size, make_newlink_request, add_attribute, begin_nested_attribute,
  end_nested_attribute, configure_request, word_bytes, can_kind, transmit_queue_length,
  nominal_bitrate, nominal_sample_point_per_mille, nominal_sync_jump_width, data_bitrate,
  data_sample_point_per_mille, data_sync_jump_width,
}

-- What linux/netlink.h, linux/rtnetlink.h and linux/can/netlink.h document: lengths are rounded up to
-- four bytes, an attribute's header takes four, a link message's headers 32, and the two structs of a
-- CAN link 32 and 8.
pub record IsLinux (abi : NetlinkAbi) : Type 0 where
  pub aligns : (n : ℕ) → abi.align n ≡ (n + 3) / 4 * 4
  pub attribute_header : abi.attribute_header ≡ 4
  pub link_header : abi.link_header ≡ 32
  pub bittiming : (rate point width : ℕ) → length (abi.bittiming_bytes rate point width) ≡ 32
  pub ctrlmode : (mask flags : ℕ) → length (abi.ctrlmode_bytes mask flags) ≡ 8

-- Attributes as the kernel reads them: a nested one holds its children.
mutual
  pub data Tree : Type 0 where
    leaf : ℕ → List ℕ → Tree
    nest : ℕ → Forest → Tree

  pub data Forest : Type 0 where
    nil : Forest
    cons : Tree → Forest → Forest

-- One attribute behind the other, each from a multiple of four on; the size of a nested one is its
-- header and its children.
unfoldable mutual
  pub place : ℕ → Tree → List Attribute × ℕ
  place offset (leaf kind payload) = (
    record { offset = offset; kind = kind; size = 4 + length payload; payload = payload } ∷ [],
    offset + (4 + length payload + 3) / 4 * 4,
  )
  place offset (nest kind children) =
      let (inside, end) = place_all (offset + 4) children in
      (record { offset = offset; kind = kind; size = end - offset; payload = [] } ∷ inside, end)

  pub place_all : ℕ → Forest → List Attribute × ℕ
  place_all offset nil = ([], offset)
  place_all offset (cons tree trees) =
      let (first, next) = place offset tree in
      let (rest, end) = place_all next trees in (first ++ rest, end)

module _ (abi : NetlinkAbi) where
  -- IFLA_TXQLEN, and IFLA_LINKINFO over the kind and the CAN data.
  abbrev pub can_link : Forest
  can_link = cons (leaf abi.ifla_txqlen (word_bytes transmit_queue_length)) (
      cons
        (nest abi.ifla_linkinfo (
          cons (leaf abi.ifla_info_kind can_kind) (
            cons
              (nest abi.ifla_info_data (
                cons
                  (leaf abi.ifla_can_bittiming (
                    abi.bittiming_bytes nominal_bitrate nominal_sample_point_per_mille
                      nominal_sync_jump_width))
                  (cons
                    (leaf abi.ifla_can_data_bittiming (
                      abi.bittiming_bytes data_bitrate data_sample_point_per_mille
                        data_sync_jump_width))
                    (cons
                      (leaf abi.ifla_can_ctrlmode
                        (abi.ctrlmode_bytes abi.can_ctrlmode_fd abi.can_ctrlmode_fd))
                      nil))))
              nil)))
        nil)

  -- On Linux, for every interface: the configuration message, built by appending attributes and
  -- patching the sizes of the open ones, is the tree of the CAN link written out attribute by
  -- attribute behind the headers; it is as long as that tree, and fits into the buffer.
  pub configure_request-layout :
      (interface_index : ℕ)
      → IsLinux abi
      → let request = configure_request abi interface_index in
        let laid_out = place_all 32 can_link in
        (request.attributes ≡ laid_out.0)
        × (request.message_size ≡ laid_out.1)
        × (request.message_size ≤ 32 + buffer_size)
  unfolding configure_request make_newlink_request add_attribute begin_nested_attribute
      end_nested_attribute place
  configure_request-layout interface_index linux =
      rw
        (
          fun_ext linux.aligns,
          linux.attribute_header,
          linux.link_header,
          linux.bittiming nominal_bitrate nominal_sample_point_per_mille nominal_sync_jump_width,
          linux.bittiming data_bitrate data_sample_point_per_mille data_sync_jump_width,
          linux.ctrlmode abi.can_ctrlmode_fd abi.can_ctrlmode_fd,
        )
        (refl, refl, omega arith)
