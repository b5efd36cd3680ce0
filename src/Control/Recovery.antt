-- ===== src/Control/Recovery.antt =====
-- What a reconnect of the control loop leaves behind
-- (cpp/src/hand_core/threads/hand_core_control_thread.cpp).
use Prim.Native.String.{String}
use aidin_hand2_sdk.Base.{
  ℕ, zero, suc, ◌+◌, ◌≡◌, refl, Bool, true, false, arith, List, Option, some,
}
use aidin_hand2_sdk.Protocol.Ids.{CanAbi, CanFrame}
use aidin_hand2_sdk.Comms.Session.{HandComms, Bus, connect, disconnect, run}
use aidin_hand2_sdk.Comms.Silence.{after_read, after_read-Counted}
use aidin_hand2_sdk.Comms.Connect.{connect-is_free}
use aidin_hand2_sdk.Types.Lifecycle.{connected, running, not_run}
use aidin_hand2_sdk.Control.State.{HandCore}
use aidin_hand2_sdk.Control.Reconnect.{
  await_frame, try_reconnect_once, resume_control, reset_fault_state, first_frame_cycles,
}

await_frame-connected :
    (abi : CanAbi) (arrives : ℕ → List CanFrame) (n index : ℕ) (h : HandComms)
    → h.is_connected ≡ true
    → (await_frame abi arrives n index h).is_connected ≡ true
unfolding await_frame
await_frame-connected abi arrives zero index h up = up
await_frame-connected abi arrives (suc n) index h up =
    let t = after_read-Counted abi (arrives index) h up in
    ground (
      arith,
      t.connected,
      await_frame-connected abi arrives n (index + 1) (after_read abi (arrives index) h)
          t.connected,
    )

run-active : (h : HandComms) → h.is_connected ≡ true → (run h).0.control_active ≡ true
unfolding run
run-active h up = ground arith

run-same :
    (h : HandComms)
    → ((run h).0.is_connected ≡ h.is_connected)
      × ((run h).0.any_frame_received ≡ h.any_frame_received)
unfolding run
run-same h = ground arith

module _ {Command Published : Type 0} (abi : CanAbi) (bus : Bus) (candidates : List String)
    (arrives : ℕ → List CanFrame) (idle : Command) (published : Published) (home : Bool) where
  -- A retry of the link that succeeds leaves an open session in which a frame has been decoded, the
  -- lifecycle at Connected with Running requested, Idle staged and written into the buffer, and no
  -- homing to be reported. One that fails leaves the lifecycle, the request, the staged command and
  -- the buffer as they were, and the socket closed.
  pub try_reconnect_once-recovers :
      (core : HandCore Command) (buffer : Option Published)
      → let r = try_reconnect_once abi bus candidates arrives idle published home core buffer in
        (r.0.comms.is_connected ≡ r.2)
        × (r.2 ≡ true
            → (r.0.comms.any_frame_received ≡ true)
              × (r.0.comms.control_active ≡ true)
              × (r.0.lifecycle ≡ connected)
              × (r.0.requested_lifecycle ≡ running)
              × (r.0.staging_command ≡ idle)
              × (r.1 ≡ some published)
              × (r.0.homing_state ≡ not_run)
              × (r.0.active_homing ≡ false)
              × (r.0.request_homing ≡ home))
        × (r.2 ≡ false
            → (r.0.lifecycle ≡ core.lifecycle)
              × (r.0.requested_lifecycle ≡ core.requested_lifecycle)
              × (r.0.staging_command ≡ core.staging_command)
              × (r.1 ≡ buffer))
  unfolding try_reconnect_once resume_control reset_fault_state
  try_reconnect_once-recovers core buffer =
      let (opened, code) = connect abi bus candidates (disconnect core.comms) in
      let heard = await_frame abi arrives first_frame_cycles 0 opened in
      ground (
        arith,
        connect-is_free abi bus candidates (disconnect core.comms) (closed core.comms),
        await_frame-connected abi arrives first_frame_cycles 0 opened,
        run-active heard,
        run-same heard,
        closed heard,
      )
    where
      closed : (h : HandComms) → (disconnect h).is_connected ≡ false
      closed h = unfold disconnect in refl
