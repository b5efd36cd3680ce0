-- ===== src/Transport/Tests.antt =====
-- A process with the three standard descriptors open, and an interface that is down.
use aidin_hand2_sdk.Base.{
  ℕ, ◌≡◌, Bool, true, false, ◌&&◌, ◌==◌, ltb, if◌then◌else◌, arith, some, none,
}
use aidin_hand2_sdk.Base.Arrays.{Array}
use aidin_hand2_sdk.Types.Error.{is_ok}
use aidin_hand2_sdk.InterfaceSetup.Setup.{ensure_interface_up}
use aidin_hand2_sdk.InterfaceSetup.Tests.{linux_netlink, linux_errno, idle_link}
use aidin_hand2_sdk.InterfaceSetup.Outcome.{GivesFresh}
use aidin_hand2_sdk.Transport.Socket.{
  gives, fails, new_transport, SocketCalls, open_code, open_transport, close_transport,
}
use aidin_hand2_sdk.Transport.Ownership.{
  IsFresh, is_closed, all_given, Owns, start, open_step, open_transport-outcome, Reach-Owns,
}

abbrev standard : Array Bool
standard n = ltb n 3

-- The bind fails, with ENODEV.
abbrev refused_calls : SocketCalls
refused_calls = record {
  socket = gives 3;
  enable_canfd = gives 0;
  interface_index = gives 5;
  bind = fails 19;
}

refused_calls-IsFresh : IsFresh refused_calls standard
refused_calls-IsFresh fd e = ground (arith, given 3 fd e)
  where
    given : (m n : ℕ) → gives m ≡ gives n → m ≡ n
    given m n e = cc e

idle_link-GivesFresh : GivesFresh idle_link standard
idle_link-GivesFresh =
    ((λ fd e. ground (arith, given 3 fd e)), λ fd e. ground (arith, given 3 fd e))
  where
    given : (m n : ℕ) → some m ≡ some n → m ≡ n
    given m n e = cc e

open_transport-outcome_example :
    let t = new_transport standard in
    let r = open_transport linux_errno linux_netlink idle_link refused_calls t in
    let succeeds = is_ok (open_code r.1) in
    (succeeds ≡ (
      is_closed t
      && is_ok (ensure_interface_up linux_errno linux_netlink idle_link standard).0
      && all_given refused_calls))
    × (succeeds ≡ false → (r.0.fd ≡ none) × ((n : ℕ) → r.0.descriptors n ≡ standard n))
    × (succeeds ≡ true
        → (fd : ℕ) × (r.0.fd ≡ some fd)
          × (standard fd ≡ false)
          × ((n : ℕ) → r.0.descriptors n ≡ (if n == fd then true else standard n)))
open_transport-outcome_example =
    open_transport-outcome linux_errno linux_netlink idle_link refused_calls
      (new_transport standard) idle_link-GivesFresh refused_calls-IsFresh

Reach-Owns_example :
    let t =
      (open_transport linux_errno linux_netlink idle_link refused_calls
        (new_transport standard)).0 in
    Owns standard t
    × ((close_transport t).fd ≡ none)
    × ((n : ℕ) → (close_transport t).descriptors n ≡ standard n)
Reach-Owns_example =
    Reach-Owns linux_errno linux_netlink standard
      (open_transport linux_errno linux_netlink idle_link refused_calls (new_transport standard)).0
      (open_step (new_transport standard) idle_link refused_calls idle_link-GivesFresh
        refused_calls-IsFresh start)
