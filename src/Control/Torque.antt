-- ===== src/Control/Torque.antt =====
-- When a control cycle may put torque on an actuator.
-- (cpp/src/hand_core/threads/hand_core_control_thread.cpp)
use aidin_hand2_sdk.Base.{ℕ}
use aidin_hand2_sdk.Protocol.Observation.{ActuatorState, ActuatorHealth}
use aidin_hand2_sdk.Comms.Cycle.{Sends, write, WriteResult}
use aidin_hand2_sdk.Types.Lifecycle.{HandLifecycle}
use aidin_hand2_sdk.Control.State.{HandCore}
use aidin_hand2_sdk.Control.Command.{Doubles, HandCommand, Controllers, command_to_frames}
use aidin_hand2_sdk.Control.Output.{
  ErrnoAbi, write_cycle, asks_quick_stop, input_command, OutputResult,
}

module _ {Command : Type 0} (doubles : Doubles) (controllers : Controllers doubles) where
  module _ (abi : ErrnoAbi) (requested latest : HandLifecycle) (active : HandCommand doubles)
      (actuators : ActuatorState) (health : ActuatorHealth) (sends : Sends) (cycle : ℕ)
      (core : HandCore Command) (observed : HandLifecycle) (s : controllers.State) where
    abbrev result : OutputResult Command controllers.State
    result =
        write_cycle doubles controllers abi requested latest active actuators health sends cycle
          core observed s

    -- The write of a session's cycle.
    abbrev written : WriteResult
    written =
        write
          (command_to_frames doubles controllers (input_command doubles requested active) actuators
            health s).0
          (asks_quick_stop latest observed) sends core.comms
