-- ===== src/InterfaceSetup/Outcome.antt =====
-- What `ensure_interface_up` answers and sends (interface_setup.cpp).
use aidin_hand2_sdk.Base.{
  ℕ, ◌^◌, ◌≤◌, ◌<◌, ◌≡◌, refl, sym, ◌∙◌, inl, inr, ==_iff, Bool-cases, Option, none, some,
  Option-cases, Bool, true, false, not, ◌&&◌, ◌||◌, ◌==◌, if◌then◌else◌, arith, [], ◌∷◌,
}
use aidin_hand2_sdk.Types.Error.{is_ok}
use aidin_hand2_sdk.InterfaceSetup.Request.{NetlinkAbi, configure_request, up_request}
use aidin_hand2_sdk.InterfaceSetup.Setup.{
  Reply, send_failed, receive_failed, short, answered, unexpected, SetupErrno, Kernel, Descriptors,
  opened, closed, is_negative, is_interface_up, send_and_acknowledge, result_code,
  ensure_interface_up,
}

abbrev pub IsErrno : ℕ → Type 0
IsErrno code = (0 < code) × (code ≤ 2 ^ 31)

-- An errno is a positive int.
abbrev pub IsReply : Reply → Type 0
IsReply (send_failed code) = IsErrno code
IsReply (receive_failed code) = IsErrno code
IsReply _ = Unit {0}

-- The kernel acknowledges with an NLMSG_ERROR that carries no error.
abbrev pub acknowledges : Reply → Bool
acknowledges (answered error) = not (is_negative error)
acknowledges _ = false

result_code-acknowledges :
    (errno : SetupErrno) (reply : Reply)
    → IsErrno errno.ebadmsg
    → IsReply reply
    → is_ok (result_code errno (send_and_acknowledge errno reply)) ≡ acknowledges reply
unfolding result_code send_and_acknowledge
result_code-acknowledges errno (send_failed code) bad valid = ground arith
result_code-acknowledges errno (receive_failed code) bad valid = ground arith
result_code-acknowledges errno short bad valid = ground arith
result_code-acknowledges errno (answered error) bad valid = ground arith
result_code-acknowledges errno unexpected bad valid = ground arith

abbrev pub is_some : Option ℕ → Bool
is_some none = false
is_some (some n) = true

-- An interface that a probe of its flags finds up.
abbrev pub found_up : Kernel → Bool
found_up kernel = is_some kernel.probe_socket && kernel.reads_flags && kernel.is_up

-- The kernel gives descriptors that are not open.
abbrev pub GivesFresh : Kernel → Descriptors → Type 0
GivesFresh kernel descriptors =
    ((fd : ℕ) → kernel.probe_socket ≡ some fd → descriptors fd ≡ false)
    × ((fd : ℕ) → kernel.netlink_socket ≡ some fd → descriptors fd ≡ false)

is_interface_up-found :
    (kernel : Kernel) (descriptors : Descriptors)
    → (is_interface_up kernel descriptors).0 ≡ found_up kernel
unfolding is_interface_up
is_interface_up-found kernel descriptors = elim (Option-cases kernel.probe_socket) [
  | inl e ↦ rw e refl
  | inr (fd, e) ↦ rw e refl
]

-- Closing a descriptor that was not open before restores the others.
pub closed-opened :
    (fd : ℕ) (descriptors : Descriptors) (n : ℕ)
    → descriptors fd ≡ false
    → closed fd (opened fd descriptors) n ≡ descriptors n
unfolding closed opened
closed-opened fd descriptors n fresh = elim (Bool-cases (n == fd)) [
  | inl e ↦ rw (e, (==_iff n fd).0 e) (sym fresh)
  | inr e ↦ rw e refl
]

is_interface_up-restores :
    (kernel : Kernel) (descriptors : Descriptors) (n : ℕ)
    → GivesFresh kernel descriptors
    → (is_interface_up kernel descriptors).1 n ≡ descriptors n
unfolding is_interface_up
is_interface_up-restores kernel descriptors n (probes, _) =
    elim (Option-cases kernel.probe_socket) [
      | inl e ↦ rw e refl
      | inr (fd, e) ↦ rw e (closed-opened fd descriptors n (probes fd e))
    ]

module _ (errno : SetupErrno) (abi : NetlinkAbi) where
  -- Where the errno values and the kernel's errors are in their ranges (`IsErrno`, `IsReply`): an
  -- interface that is there and not found up gets the configuration if the netlink socket opens, and
  -- is brought up only once that is acknowledged; one that is found up or missing is sent nothing. The
  -- answer is None exactly if the interface is there, and is found up or the socket opens and both
  -- messages are acknowledged.
  pub ensure_interface_up-outcome :
      (kernel : Kernel) (descriptors : Descriptors)
      → let configure = configure_request abi kernel.interface_index in
        let up = up_request abi kernel.interface_index in
        IsErrno errno.ebadmsg
        → IsReply (kernel.reply configure)
        → IsReply (kernel.reply up)
        → let r = ensure_interface_up errno abi kernel descriptors in
          let there = not (kernel.interface_index == 0) in
          let opens = is_some kernel.netlink_socket in
          let asks = there && not (found_up kernel) && opens in
          let configured = acknowledges (kernel.reply configure) in
          (is_ok r.0 ≡ (
            there && (found_up kernel || (opens && configured && acknowledges (kernel.reply up)))))
          × (r.1
              ≡ (if asks then if configured then configure ∷ up ∷ [] else configure ∷ [] else []))
  unfolding ensure_interface_up
  ensure_interface_up-outcome kernel descriptors bad first second =
      let configure = configure_request abi kernel.interface_index in
      let up = up_request abi kernel.interface_index in
      let configured = result_code-acknowledges errno (kernel.reply configure) bad first in
      let raised = result_code-acknowledges errno (kernel.reply up) bad second in
      let found = is_interface_up-found kernel descriptors in
      elim (Option-cases kernel.netlink_socket) [
        | inl e ↦ rw e (ground (arith, configured, raised, found))
        | inr (fd, e) ↦ rw e (ground (arith, configured, raised, found))
      ]

  -- On every path the sockets that were opened are closed.
  pub ensure_interface_up-restores :
      (kernel : Kernel) (descriptors : Descriptors) (n : ℕ)
      → GivesFresh kernel descriptors
      → (ensure_interface_up errno abi kernel descriptors).2 n ≡ descriptors n
  unfolding ensure_interface_up
  ensure_interface_up-restores kernel descriptors n fresh =
      let probed = (is_interface_up kernel descriptors).1 in
      let kept = λ (k : ℕ). is_interface_up-restores kernel descriptors k fresh in
      elim (Option-cases kernel.netlink_socket) [
        | inl e ↦ rw e (ground (arith, kept n))
        | inr (fd, e) ↦
            let left = closed-opened fd probed n (kept fd ∙ fresh.1 fd e) in
            rw e (ground (arith, kept n, left))
      ]
