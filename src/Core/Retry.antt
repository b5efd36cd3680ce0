-- ===== src/Core/Retry.antt =====
-- What a retry of the link does to the request, and to what the public calls rely on
-- (cpp/src/hand_core/threads/hand_core_control_thread.cpp).
use Prim.Native.String.{String}
use aidin_hand2_sdk.Base.{
  ℕ, Bool, Option, ◌≡◌, refl, sym, ap, ◌∙◌, Bool-cases, inl, inr, true, false, List,
}
use aidin_hand2_sdk.Base.Arrays.{Array}
use aidin_hand2_sdk.Protocol.Ids.{CanAbi, CanFrame}
use aidin_hand2_sdk.Comms.Session.{Bus}
use aidin_hand2_sdk.Types.Lifecycle.{is_disconnected, running, connected, not_run, is_faulted}
use aidin_hand2_sdk.Control.Command.{Doubles, HandCommand, ControllerCommand, Controllers, idle}
use aidin_hand2_sdk.Control.State.{HandCore}
use aidin_hand2_sdk.Control.Reconnect.{try_reconnect_once}
use aidin_hand2_sdk.Control.Recovery.{try_reconnect_once-recovers}
use aidin_hand2_sdk.Core.State.{Hand, is_connected}
use aidin_hand2_sdk.Core.Supervise.{LoopConfig, Rt, retry, loop_head, cycles}
use aidin_hand2_sdk.Core.Cycle.{take_input}
use aidin_hand2_sdk.Core.Loop.{ByLoop}
use aidin_hand2_sdk.Core.CycleLoop.{alike}

module _ {doubles : Doubles} where
  -- HandCommand with Idle{} and the caps that are staged.
  abbrev pub idle_command : Hand doubles → HandCommand doubles
  idle_command h = record { controller = idle; max_effort_pct = h.max_effort_pct }

  -- What try_reconnect_once leaves of the core and of the buffer, and whether it recovered the link.
  abbrev attempt :
      (abi : CanAbi) (bus : Bus) (candidates : List String) (arrives : ℕ → List CanFrame)
      (config : LoopConfig)
      → Hand doubles
      → HandCore (ControllerCommand doubles) × Option (HandCommand doubles) × Bool
  attempt abi bus candidates arrives config h =
      try_reconnect_once abi bus candidates arrives idle (idle_command h) config.auto_reconnect_home
        h.core h.command_buffer

module _ {doubles : Doubles} {controllers : Controllers doubles} (abi : CanAbi) (bus : Bus)
    (candidates : List String) (arrives : ℕ → List CanFrame) (config : LoopConfig) where
  pub retry-ByLoop :
      (rt : Rt doubles controllers) (h : Hand doubles)
      → is_disconnected h.core.requested_lifecycle ≡ false
      → ByLoop h (retry abi bus candidates arrives config rt h).1
  unfolding retry
  retry-ByLoop rt h going =
      let known =
        try_reconnect_once-recovers abi bus candidates arrives idle (idle_command h)
          config.auto_reconnect_home h.core h.command_buffer in
      elim (Bool-cases (attempt abi bus candidates arrives config h).2) [
        | inl e ↦ record {
          thread = refl;
          logging = refl;
          destroy = refl;
          ends = ap is_disconnected (known.1 e).3 ∙ sym going;
          request = λ _. ap is_faulted (known.1 e).3;
          link = λ _. ap is_connected (known.1 e).3;
          linked = λ _. rw (known.1 e).3 refl;
        }
        | inr e ↦ alike h _ refl refl refl (record {
          requested = (known.2 e).1;
          linked = λ same. rw ((known.2 e).1, (known.2 e).0) same;
        })
      ]

  -- Whatever was requested while a retry of the link ran, Disconnected included: if the retry
  -- succeeds, Running is requested after it and the next iteration is an ordinary cycle, so the loop
  -- goes on; if it fails, the request stands.
  pub retry-overwrites :
      (rt : Rt doubles controllers) (h : Hand doubles) (started checked : ℕ)
      → let recovered =
          (try_reconnect_once abi bus candidates arrives idle
            (idle_command h)
            config.auto_reconnect_home
            h.core
            h.command_buffer).2 in
        let (rt', h') = retry abi bus candidates arrives config rt h in
        (recovered ≡ true
          → (h'.core.requested_lifecycle ≡ running)
            × ((loop_head config h'.core.requested_lifecycle h'.core.lifecycle
                  h'.core.last_stop_cause started checked rt').0
                ≡ cycles))
        × (recovered ≡ false → h'.core.requested_lifecycle ≡ h.core.requested_lifecycle)
  unfolding retry loop_head
  retry-overwrites rt h started checked =
      let known =
        try_reconnect_once-recovers abi bus candidates arrives idle (idle_command h)
          config.auto_reconnect_home h.core h.command_buffer in
      (λ e. ((known.1 e).3, rw ((known.1 e).3, (known.1 e).2) refl), λ e. (known.2 e).1)

  -- A retry of the link that succeeds leaves an open session in which a frame has been decoded, the
  -- lifecycle at Connected with Running requested and no homing active; and whatever command the loop
  -- was following, the user had staged or the buffer held, the command of the next cycle is Idle with
  -- the staged caps, and not the one from before the drop. One that fails leaves the lifecycle, the
  -- request, the staged command, the buffer and the loop's command as they were, and the socket
  -- closed.
  pub retry-recovers :
      (fk : Array ℕ → Array doubles.Double) (rt : Rt doubles controllers) (h : Hand doubles)
      → let recovered =
          (try_reconnect_once abi bus candidates arrives idle
            (idle_command h)
            config.auto_reconnect_home
            h.core
            h.command_buffer).2 in
        let (rt', h') = retry abi bus candidates arrives config rt h in
        let fed = (take_input controllers fk rt' h').0 in
        (h'.core.comms.is_connected ≡ recovered)
        × (recovered ≡ true
            → (h'.core.comms.any_frame_received ≡ true)
              × (h'.core.lifecycle ≡ connected)
              × (h'.core.requested_lifecycle ≡ running)
              × (h'.core.homing_state ≡ not_run)
              × (h'.core.active_homing ≡ false)
              × (h'.core.staging_command ≡ idle)
              × (fed.active_command ≡ idle_command h))
        × (recovered ≡ false
            → (h'.core.lifecycle ≡ h.core.lifecycle)
              × (h'.core.requested_lifecycle ≡ h.core.requested_lifecycle)
              × (h'.core.staging_command ≡ h.core.staging_command)
              × (h'.command_buffer ≡ h.command_buffer)
              × (rt'.active_command ≡ rt.active_command))
  unfolding retry take_input
  retry-recovers fk rt h =
      let (linked, succeeded, failed) =
        try_reconnect_once-recovers abi bus candidates arrives idle (idle_command h)
          config.auto_reconnect_home h.core h.command_buffer in
      (
        linked,
        λ e.
            let (frame, active, lifecycle, request, staged, buffer, homing, ended, asks) =
              succeeded e in
            (frame, lifecycle, request, homing, ended, staged, rw buffer refl),
        λ e.
            let (lifecycle, request, staged, buffer) = failed e in
            (lifecycle, request, staged, buffer, rw e refl),
      )
