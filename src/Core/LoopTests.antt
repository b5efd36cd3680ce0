-- ===== src/Core/LoopTests.antt =====
-- The control loop of a hand over whole numbers, in a cycle that receives nothing and in a retry.
use aidin_hand2_sdk.Base.{◌≡◌, true, false, []}
use aidin_hand2_sdk.Base.Arrays.{fill}
use aidin_hand2_sdk.Protocol.Tests.{linux}
use aidin_hand2_sdk.Protocol.Observation.{no_observation}
use aidin_hand2_sdk.Types.Lifecycle.{disconnected, connected, running, faulted, not_run}
use aidin_hand2_sdk.Control.State.{new_loop}
use aidin_hand2_sdk.Control.Command.{no_command, idle}
use aidin_hand2_sdk.Control.Reconnect.{try_reconnect_once}
use aidin_hand2_sdk.Control.CycleTests.{numbers, no_controllers, linux_errno, all_sent, reach}
use aidin_hand2_sdk.Control.ReconnectTests.{quiet_bus, third_read}
use aidin_hand2_sdk.Core.State.{Hand, store_requested, store_lifecycle}
use aidin_hand2_sdk.Core.Loop.{ByLoop, is_unlinked}
use aidin_hand2_sdk.Core.Supervise.{LoopConfig, Rt, retry, loop_head, cycles}
use aidin_hand2_sdk.Core.Cycle.{CycleWorld, run_cycle, take_input}
use aidin_hand2_sdk.Core.CycleLoop.{run_cycle-ByLoop}
use aidin_hand2_sdk.Core.Retry.{idle_command, retry-overwrites, retry-recovers}
use aidin_hand2_sdk.Core.Tests.{default_config, linked, active}

abbrev keeps_trying : LoopConfig
keeps_trying = record {
  auto_reconnect = true;
  auto_reconnect_timeout_ms = 0;
  auto_reconnect_home = false;
  communication_loss_cycles = 50;
  confirmation_window_cycles = 100;
}

abbrev new_rt : Rt numbers no_controllers
new_rt = record {
  loop = new_loop;
  active_command = no_command numbers;
  active_controller_config = default_config;
  auto_reconnect_deadline = 0;
  auto_reconnect_started = false;
  deadline_misses = 0;
  cycle_count = 0;
  controllers_state = 0;
  last_valid_joint_rad = fill 0;
  tactile_bias = no_observation.tactile;
}

-- A stop() lands between the loads of the request.
abbrev nothing_arrives : CycleWorld
nothing_arrives = record {
  abi = linux;
  errno_abi = linux_errno;
  arrived = [];
  sends = all_sent;
  requested = running;
  latest = disconnected;
  echoed = disconnected;
  overran = false;
}

run_cycle-ByLoop_example :
    let after =
      (run_cycle no_controllers
        (λ position joint. 0)
        keeps_trying
        nothing_arrives
        running
        new_rt
        active).hand in
    ByLoop active after
    × (after.core.requested_lifecycle ≡ active.core.requested_lifecycle)
    × (after.rt_thread ≡ active.rt_thread)
    × (after.event_logging_thread ≡ active.event_logging_thread)
    × (after.request_destroy ≡ active.request_destroy)
    × (is_unlinked active ≡ false → is_unlinked after ≡ false)
run_cycle-ByLoop_example =
    run_cycle-ByLoop (λ position joint. 0) keeps_trying nothing_arrives running new_rt active

-- reconnect() has asked the loop to end while it retries the link.
abbrev asked_to_end : Hand numbers
asked_to_end = store_requested disconnected (store_lifecycle faulted linked)

retry-overwrites_example :
    let recovered =
      (try_reconnect_once linux quiet_bus [] third_read idle
        (idle_command asked_to_end)
        false
        asked_to_end.core
        asked_to_end.command_buffer).2 in
    let (rt', h') = retry linux quiet_bus [] third_read keeps_trying new_rt asked_to_end in
    (recovered ≡ true
      → (h'.core.requested_lifecycle ≡ running)
        × ((loop_head keeps_trying h'.core.requested_lifecycle h'.core.lifecycle
              h'.core.last_stop_cause 7 7 rt').0
            ≡ cycles))
    × (recovered ≡ false → h'.core.requested_lifecycle ≡ asked_to_end.core.requested_lifecycle)
retry-overwrites_example =
    retry-overwrites linux quiet_bus [] third_read keeps_trying new_rt asked_to_end 7 7

-- A hand that was following a pose as the link dropped.
abbrev following : Rt numbers no_controllers
following = record new_rt { active_command = reach }

retry-recovers_example :
    let recovered =
      (try_reconnect_once linux quiet_bus [] third_read idle
        (idle_command asked_to_end)
        false
        asked_to_end.core
        asked_to_end.command_buffer).2 in
    let (rt', h') = retry linux quiet_bus [] third_read keeps_trying following asked_to_end in
    let fed = (take_input no_controllers (λ position joint. 0) rt' h').0 in
    (h'.core.comms.is_connected ≡ recovered)
    × (recovered ≡ true
        → (h'.core.comms.any_frame_received ≡ true)
          × (h'.core.lifecycle ≡ connected)
          × (h'.core.requested_lifecycle ≡ running)
          × (h'.core.homing_state ≡ not_run)
          × (h'.core.active_homing ≡ false)
          × (h'.core.staging_command ≡ idle)
          × (fed.active_command ≡ idle_command asked_to_end))
    × (recovered ≡ false
        → (h'.core.lifecycle ≡ asked_to_end.core.lifecycle)
          × (h'.core.requested_lifecycle ≡ asked_to_end.core.requested_lifecycle)
          × (h'.core.staging_command ≡ asked_to_end.core.staging_command)
          × (h'.command_buffer ≡ asked_to_end.command_buffer)
          × (rt'.active_command ≡ following.active_command))
retry-recovers_example =
    retry-recovers linux quiet_bus [] third_read keeps_trying (λ position joint. 0) following
      asked_to_end
