-- ===== src/Transport/Ownership.antt =====
-- Which descriptors a transport of transport.cpp holds, over all histories of its calls.
use aidin_hand2_sdk.Base.{
  ℕ, ◌≡◌, refl, sym, ap, ◌∙◌, Bool, true, false, ◌&&◌, ◌==◌, ==_iff, if◌then◌else◌, arith, ◌⊎◌, inl,
  inr, Bool-cases, none, some, Option-cases,
}
use aidin_hand2_sdk.Base.Arrays.{Array, set}
use aidin_hand2_sdk.Types.Error.{is_ok}
use aidin_hand2_sdk.InterfaceSetup.Request.{NetlinkAbi}
use aidin_hand2_sdk.InterfaceSetup.Setup.{SetupErrno, Kernel, ensure_interface_up}
use aidin_hand2_sdk.InterfaceSetup.Outcome.{GivesFresh, ensure_interface_up-restores}
use aidin_hand2_sdk.Transport.Socket.{
  Answer, gives, fails, Transport, new_transport, SocketCalls, OpenStatus, open_code,
  close_descriptor, set_up_socket, open_transport, close_transport, MtuAbi, send,
}

-- The kernel gives a descriptor that is not open.
abbrev pub IsFresh : SocketCalls → Array Bool → Type 0
IsFresh calls descriptors = (fd : ℕ) → calls.socket ≡ gives fd → descriptors fd ≡ false

abbrev pub is_given : Answer → Bool
is_given (gives _) = true
is_given (fails _) = false

abbrev pub all_given : SocketCalls → Bool
all_given calls =
    is_given calls.socket
    && is_given calls.enable_canfd
    && is_given calls.interface_index
    && is_given calls.bind

abbrev pub is_closed : Transport → Bool
is_closed t = elim t.fd [ none ↦ true | some _ ↦ false ]

-- Beside the descriptors that were open before, it has exactly its own one, if any.
abbrev pub Owns : Array Bool → Transport → Type 0
Owns base t =
    ((t.fd ≡ none) × ((n : ℕ) → t.descriptors n ≡ base n))
    ⊎ ((fd : ℕ) × (t.fd ≡ some fd)
        × (base fd ≡ false)
        × ((n : ℕ) → t.descriptors n ≡ (if n == fd then true else base n)))

Answer-cases : (a : Answer) → ((n : ℕ) × (a ≡ gives n)) ⊎ ((e : ℕ) × (a ≡ fails e))
Answer-cases (gives n) = inl (n, refl)
Answer-cases (fails e) = inr (e, refl)

-- Closing a fresh descriptor again.
set-restores :
    (descriptors : Array Bool) (fd n : ℕ)
    → descriptors fd ≡ false
    → set (set descriptors fd true) fd false n ≡ descriptors n
set-restores descriptors fd n fresh = elim (Bool-cases (n == fd)) [
  | inl e ↦ rw (e, (==_iff n fd).0 e) (sym fresh)
  | inr e ↦ rw e refl
]

-- What is left of a set-up that fails, and what one that succeeds adds.
abbrev Outcome : Transport → Transport × OpenStatus → Bool → Type 0
Outcome t r expected =
    let succeeds = is_ok (open_code r.1) in
    (succeeds ≡ expected)
    × (succeeds ≡ false → (r.0.fd ≡ t.fd) × ((n : ℕ) → r.0.descriptors n ≡ t.descriptors n))
    × (succeeds ≡ true
        → (fd : ℕ) × (r.0.fd ≡ some fd)
          × (t.descriptors fd ≡ false)
          × ((n : ℕ) → r.0.descriptors n ≡ (if n == fd then true else t.descriptors n)))

set_up_socket-Outcome :
    (calls : SocketCalls) (fd : ℕ) (t : Transport)
    → t.descriptors fd ≡ false
    → Outcome t
        (set_up_socket calls fd (record t { descriptors = set t.descriptors fd true }))
        (is_given calls.enable_canfd && is_given calls.interface_index && is_given calls.bind)
unfolding set_up_socket open_code close_descriptor
set_up_socket-Outcome calls fd t fresh =
    let restored : (n : ℕ) → set (set t.descriptors fd true) fd false n ≡ t.descriptors n =
      λ n. set-restores t.descriptors fd n fresh in
    elim (Answer-cases calls.enable_canfd) [
      | inr (_, e) ↦ rw e (refl, λ _. (refl, restored), λ h. cc h)
      | inl (_, e) ↦ elim (Answer-cases calls.interface_index) [
        | inr (_, f) ↦ rw (e, f) (refl, λ _. (refl, restored), λ h. cc h)
        | inl (_, f) ↦ elim (Answer-cases calls.bind) [
          | inr (_, g) ↦ rw (e, f, g) (refl, λ _. (refl, restored), λ h. cc h)
          | inl (_, g) ↦ rw (e, f, g) (refl, λ h. cc h, λ _. (fd, refl, fresh, λ n. refl))
        ]
      ]
    ]

-- The same, from the descriptors before the interface was set up.
Outcome-moved :
    (t u : Transport) (r : Transport × OpenStatus) (expected : Bool)
    → u.fd ≡ t.fd
    → ((n : ℕ) → u.descriptors n ≡ t.descriptors n)
    → Outcome u r expected
    → Outcome t r expected
Outcome-moved t u r expected held kept (answer, failed, succeeded) = (
  answer,
  λ e. let (same, all) = failed e in (same ∙ held, λ n. all n ∙ kept n),
  λ e.
      let (fd, now, unused, all) = succeeded e in
      (
        fd,
        now,
        sym (kept fd) ∙ unused,
        λ n. all n ∙ ap (λ b. if n == fd then true else b) (kept n),
      ),
)

module _ (errno : SetupErrno) (abi : NetlinkAbi) where
  -- A history of calls.
  pub data Reach (base : Array Bool) : Transport → Type 0 where
    start : Reach base (new_transport base)
    open_step :
        (t : Transport) (kernel : Kernel) (calls : SocketCalls)
        → GivesFresh kernel t.descriptors
        → IsFresh calls t.descriptors
        → Reach base t
        → Reach base (open_transport errno abi kernel calls t).0
    close_step : (t : Transport) → Reach base t → Reach base (close_transport t)
    send_step :
        (t : Transport) (mtu : MtuAbi) (answer : Answer)
        → Reach base t
        → Reach base (send mtu answer t).0

  -- Where the kernel never gives a descriptor that is open: a call of `open` succeeds exactly if the
  -- transport was closed, the interface is up or was brought up, and every call of the kernel for the
  -- socket succeeded. Where it fails, the transport's descriptor and the open descriptors are what they
  -- were; where it succeeds, exactly the descriptor that the transport holds then was opened. The
  -- sockets that the setup of the interface opens are counted.
  pub open_transport-outcome :
      (kernel : Kernel) (calls : SocketCalls) (t : Transport)
      → GivesFresh kernel t.descriptors
      → IsFresh calls t.descriptors
      → let r = open_transport errno abi kernel calls t in
        let succeeds = is_ok (open_code r.1) in
        (succeeds ≡ (
          is_closed t
          && is_ok (ensure_interface_up errno abi kernel t.descriptors).0
          && all_given calls))
        × (succeeds ≡ false → (r.0.fd ≡ t.fd) × ((n : ℕ) → r.0.descriptors n ≡ t.descriptors n))
        × (succeeds ≡ true
            → (fd : ℕ) × (r.0.fd ≡ some fd)
              × (t.descriptors fd ≡ false)
              × ((n : ℕ) → r.0.descriptors n ≡ (if n == fd then true else t.descriptors n)))
  unfolding open_transport open_code
  open_transport-outcome kernel calls t gives_fresh fresh =
      let left = (ensure_interface_up errno abi kernel t.descriptors).2 in
      let kept =
        λ (n : ℕ). ensure_interface_up-restores errno abi kernel t.descriptors n gives_fresh in
      let idle : Transport = record t { fd = none } in
      let readied : Transport = record idle { descriptors = left } in
      elim (Option-cases t.fd) [
        | inr (_, e) ↦ rw e (refl, λ _. (refl, λ n. refl), λ h. cc h)
        | inl e ↦ elim (Bool-cases (is_ok (ensure_interface_up errno abi kernel t.descriptors).0)) [
          | inr g ↦ rw (e, g) (g, λ _. (refl, kept), λ h. cc h)
          | inl g ↦ elim (Answer-cases calls.socket) [
            | inr (_, f) ↦ rw (e, g, f) (refl, λ _. (refl, kept), λ h. cc h)
            | inl (fd, f) ↦
                rw (e, g, f)
                  (Outcome-moved idle readied
                    (set_up_socket calls fd (record readied { descriptors = set left fd true })) _
                    refl kept (set_up_socket-Outcome calls fd readied (kept fd ∙ fresh fd f)))
          ]
        ]
      ]

  open-Owns :
      (base : Array Bool) (kernel : Kernel) (calls : SocketCalls) (t : Transport)
      → GivesFresh kernel t.descriptors
      → IsFresh calls t.descriptors
      → Owns base t
      → Owns base (open_transport errno abi kernel calls t).0
  open-Owns base kernel calls t gives_fresh fresh owns =
      let r = open_transport errno abi kernel calls t in
      let (answer, failed, succeeded) = open_transport-outcome kernel calls t gives_fresh fresh in
      elim (Bool-cases (is_ok (open_code r.1))) [
        | inr e ↦
            let (same, kept) = failed e in
            elim owns [
              | inl (closed, all) ↦ inl (same ∙ closed, λ n. kept n ∙ all n)
              | inr (fd, held, unused, all) ↦ inr (fd, same ∙ held, unused, λ n. kept n ∙ all n)
            ]
        | inl e ↦
            let (fd, held, unused, all) = succeeded e in
            elim owns [
              | inl (closed, before) ↦ inr (
                fd,
                held,
                sym (before fd) ∙ unused,
                λ n. all n ∙ ap (λ b. if n == fd then true else b) (before n),
              )
              | inr (other, held, _, _) ↦ absurd (was_closed t other held (sym answer ∙ e))
            ]
      ]
    where
      was_closed :
          (t : Transport) (fd : ℕ)
          → t.fd ≡ some fd
          → (is_closed t
              && is_ok (ensure_interface_up errno abi kernel t.descriptors).0
              && all_given calls)
            ≡ true
          → ⊥
      was_closed t fd held h = ground (arith, held, h)

  close-releases :
      (base : Array Bool) (t : Transport)
      → Owns base t
      → let c = close_transport t in (c.fd ≡ none) × ((n : ℕ) → c.descriptors n ≡ base n)
  unfolding close_transport close_descriptor
  close-releases base t owns = elim owns [
    | inl (closed, all) ↦ rw closed (refl, all)
    | inr (fd, held, unused, all) ↦ rw held (
      refl,
      λ n. elim (Bool-cases (n == fd)) [
        | inl e ↦ rw (e, (==_iff n fd).0 e) (sym unused)
        | inr e ↦ rw e (all n ∙ rw e refl)
      ],
    )
  ]

  send-Owns :
      (base : Array Bool) (mtu : MtuAbi) (answer : Answer) (t : Transport)
      → Owns base t
      → Owns base (send mtu answer t).0
  unfolding send
  send-Owns base mtu answer t owns = elim (Option-cases t.fd) [
    | inl e ↦ rw (send, e) owns
    | inr (fd, e) ↦ elim (Answer-cases answer) [
      | inr (_, f) ↦ rw (send, e, f) owns
      | inl (count, f) ↦ elim (Bool-cases (count == mtu.canfd_mtu)) [
        | inl g ↦ rw (send, e, f, g) owns
        | inr g ↦ rw (send, e, f, g) owns
      ]
    ]
  ]

  -- After every history of calls of a new transport, the sockets of the setup of its interface
  -- included, where the kernel never gives a descriptor that is open: the process has, beside the
  -- descriptors it had before, exactly the one that the transport holds, if it holds one; and a further
  -- close, which the destructor is, gives it back.
  pub Reach-Owns :
      (base : Array Bool) (t : Transport)
      → Reach base t
      → Owns base t
        × ((close_transport t).fd ≡ none)
        × ((n : ℕ) → (close_transport t).descriptors n ≡ base n)
  Reach-Owns base t reach =
      let owns = owned t reach in
      let (closed, restored) = close-releases base t owns in (owns, closed, restored)
    where
      owned : (t : Transport) → Reach base t → Owns base t
      owned t start = inl (refl, λ n. refl)
      owned t (open_step u kernel calls gives_fresh fresh reach) =
          open-Owns base kernel calls u gives_fresh fresh (owned u reach)
      owned t (close_step u reach) = inl (close-releases base u (owned u reach))
      owned t (send_step u mtu answer reach) = send-Owns base mtu answer u (owned u reach)
