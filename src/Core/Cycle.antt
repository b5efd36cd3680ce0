-- ===== src/Core/Cycle.antt =====
-- An ordinary iteration of `run_control_loop`, with `fill_joint_state`, `set_command_to_home_hold` and
-- `set_command_to_position_hold` (cpp/src/hand_core/threads/hand_core_control_thread.cpp,
-- cpp/src/hand_core/hand_core.cpp). The forward kinematics, a binary library, is an argument.
use aidin_hand2_sdk.Base.{
  ℕ, ◌+◌, ◌%◌, ◌^◌, Bool, true, false, not, ◌&&◌, ◌||◌, if◌then◌else◌, List, none, some,
}
use aidin_hand2_sdk.Base.Arrays.{Array, fill}
use aidin_hand2_sdk.Homing.Step.{is_succeeded}
use aidin_hand2_sdk.Protocol.Ids.{CanAbi, CanFrame}
use aidin_hand2_sdk.Protocol.Observation.{
  ActuatorState, TactileState, ActuatorHealth, no_observation, no_actuator_health,
}
use aidin_hand2_sdk.Comms.Session
use aidin_hand2_sdk.Comms.Cycle.{Sends, read}
use aidin_hand2_sdk.Types.Lifecycle.{
  HandLifecycle, CommandSource, failed, is_running, is_stopped, is_faulted,
}
use aidin_hand2_sdk.Control.State.{HandCore}
use aidin_hand2_sdk.Control.Watch.{
  watch_link, watch_actuator_faults, watch_drive_state, watch_stop_verdict,
}
use aidin_hand2_sdk.Control.HomingWatch.{watch_homing}
use aidin_hand2_sdk.Control.Tactile
use aidin_hand2_sdk.Control.Tactile.{apply_tactile_bias}
use aidin_hand2_sdk.Control.Command.{
  Doubles, ControllerCommand, Controllers, CommandedState, actuator_position, fill_commanded,
}
use aidin_hand2_sdk.Control.Output.{ErrnoAbi, write_cycle, is_control_session}
use aidin_hand2_sdk.Core.State.{Hand, stage}
use aidin_hand2_sdk.Core.Supervise.{LoopConfig, Rt}

-- What an iteration meets: the frames that have arrived, what its sends return, and the request as
-- it stands at the two later loads. `overran` tells whether it took longer than its period.
pub record CycleWorld : Type 0 where
  pub abi : CanAbi
  pub errno_abi : ErrnoAbi
  pub arrived : List CanFrame
  pub sends : Sends
  pub requested : HandLifecycle
  pub latest : HandLifecycle
  pub echoed : HandLifecycle
  pub overran : Bool

-- A joint that did not solve keeps its last valid angle.
unfoldable pub fill_joint_state :
    (doubles : Doubles)
    → (Array ℕ → Array doubles.Double)
    → ActuatorState
    → Array doubles.Double
    → Array doubles.Double
fill_joint_state doubles fk actuators last_valid i =
    if doubles.is_finite (fk actuators.position_count i)
    then fk actuators.position_count i
    else last_valid i

unfoldable pub select_source : Bool → HandLifecycle → HandLifecycle → Bool → CommandSource
select_source control_session echoed observed homing =
    if not control_session
    then CommandSource.none
    else if is_stopped echoed || is_faulted observed
    then CommandSource.quick_stop
    else if homing
    then CommandSource.homing
    else CommandSource.controller

module _ {doubles : Doubles} where
  -- The hold of the pose after homing, position 0.
  abbrev pub home_hold : ControllerCommand doubles
  home_hold = actuator_position (fill doubles.zero)

  abbrev pub position_hold : ActuatorState → ControllerCommand doubles
  position_hold actuators = actuator_position (λ i. doubles.of_int32 (actuators.position_count i))

  -- A request of homing, which is dropped outside Running.
  unfoldable pub take_homing_request : HandLifecycle → Hand doubles → Hand doubles
  take_homing_request requested h =
      let taken = record h.core { request_homing = false } in
      if not h.core.request_homing
      then h
      else if is_running requested
      then record h {
        core = record taken { comms = (Session.home h.core.comms).0; active_homing = true };
      }
      else record h { core = record taken { homing_state = failed } }

  -- A request of the hold, at the pose that this cycle has observed.
  unfoldable pub take_hold_request : ActuatorState → Hand doubles → Hand doubles
  take_hold_request actuators h =
      let taken : Hand doubles = record h { core = record h.core { request_hold = false } } in
      if h.core.request_hold then stage (position_hold actuators) taken else h

  -- Homing ends in this cycle, and well.
  abbrev pub completes_homing : HandCore (ControllerCommand doubles) → Bool
  completes_homing core =
      core.active_homing && not core.comms.homing.active && is_succeeded core.comms.homing.outcome

  -- The buffer that a completed homing writes; the other stores are those of `watch_homing`.
  unfoldable pub publish_hold :
      HandCore (ControllerCommand doubles)
      → HandCore (ControllerCommand doubles)
      → Hand doubles
      → Hand doubles
  publish_hold before after h =
      if completes_homing before
      then stage home_hold (record h { core = after })
      else record h { core = after }

-- HandState and the members of Diagnostics that a cycle publishes, the times left out.
pub record Published (doubles : Doubles) : Type 0 where
  pub actuators : ActuatorState
  pub tactile : TactileState
  pub joints : Array doubles.Double
  pub commanded : CommandedState doubles
  pub selected_source : CommandSource
  pub control_cycles : ℕ
  pub deadline_misses : ℕ
  pub actuator_health : ActuatorHealth

pub record CycleResult (doubles : Doubles) (controllers : Controllers doubles) : Type 0 where
  pub rt : Rt doubles controllers
  pub hand : Hand doubles
  pub sent : List CanFrame
  pub published : Published doubles

module _ {doubles : Doubles} (controllers : Controllers doubles)
    (fk : Array ℕ → Array doubles.Double) where
  -- The two buffers are read, and kept where nothing new has come.
  unfoldable pub take_input :
      Rt doubles controllers → Hand doubles → Rt doubles controllers × Hand doubles
  take_input rt h = (
    record rt {
      active_command = elim h.command_buffer [ none ↦ rt.active_command | some c ↦ c ];
      active_controller_config = elim h.controller_config_buffer [
        | none ↦ rt.active_controller_config
        | some c ↦ c
      ];
    },
    record h { command_buffer = none; controller_config_buffer = none },
  )

  unfoldable pub run_cycle :
      LoopConfig
      → CycleWorld
      → HandLifecycle
      → Rt doubles controllers
      → Hand doubles
      → CycleResult doubles controllers
  run_cycle config world observed rt h =
      let cycle = rt.cycle_count in
      let (fed, input) = take_input rt h in
      let begun = take_homing_request world.requested input in
      let seen = read world.abi world.arrived begun.core.comms no_observation no_actuator_health in
      let actuators = seen.hand_state.actuators in
      let joints = fill_joint_state doubles fk actuators fed.last_valid_joint_rad in
      let (biased, bias, tactile) =
        apply_tactile_bias begun.request_tactile_bias seen.hand_state.tactile fed.tactile_bias
          (record begun.core { comms = seen.comms }) cycle in
      let link = watch_link fed.loop biased observed cycle config.communication_loss_cycles in
      let (faults, warned) =
        watch_actuator_faults link.loop link.core seen.actuator_health link.observed cycle in
      let held =
        take_hold_request actuators
          (record begun { core = warned; request_tactile_bias = Tactile.none }) in
      let session = is_control_session world.requested link.observed in
      let out =
        write_cycle doubles controllers world.errno_abi world.requested world.latest
          fed.active_command actuators seen.actuator_health world.sends cycle held.core
          link.observed fed.controllers_state in
      let judged = watch_drive_state link.receiving (record out.core {
        check_communication = if session then link.receiving && out.write_ok else link.receiving;
      }) in
      let (latched, confirmed) =
        watch_stop_verdict faults judged link.receiving cycle config.confirmation_window_cycles in
      let (homed, after) = watch_homing home_hold latched confirmed cycle in
      let misses = if world.overran then fed.deadline_misses + 1 else fed.deadline_misses in
      record {
        rt = record fed {
          loop = homed;
          deadline_misses = misses % 2 ^ 64;
          cycle_count = (cycle + 1) % 2 ^ 64;
          controllers_state = out.controllers;
          last_valid_joint_rad = joints;
          tactile_bias = bias;
        };
        hand = publish_hold confirmed after held;
        sent = out.sent;
        published = record {
          actuators = actuators;
          tactile = tactile;
          joints = joints;
          commanded = fill_commanded doubles fed.active_command out.frames session;
          selected_source =
              select_source session world.echoed out.observed after.comms.homing.active;
          control_cycles = (cycle + 1) % 2 ^ 64;
          deadline_misses = misses % 2 ^ 64;
          actuator_health = seen.actuator_health;
        };
      }
