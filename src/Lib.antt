-- ===== src/Lib.antt =====
-- A verification library for the C++ SDK of the AIDIN hand (cpp/src, cpp/include): the realtime
-- control core, from the bytes of a CAN FD frame to the lifecycle that the user sees.
--
-- The program. `HandCore` (cpp/src/hand_core/hand_core.hpp) owns one hand. Its control thread
-- (cpp/src/hand_core/threads/hand_core_control_thread.cpp) runs at a fixed rate: it takes the user's
-- command from a realtime buffer, reads the bus through `HandComms`, judges the link, the drives, a
-- stop and a homing, writes the next frames through `HandComms`, publishes the state in realtime
-- buffers and pushes events into a ring for the logging thread. `HandComms`
-- (cpp/src/hand_core/comms/hand_comms.cpp) decodes and encodes with `Protocol`, steps the
-- `HomingSequence` in its writes and chooses each actuator's control word by the CiA402 rules. The user
-- thread asks `check_action_allowed` before each public call, stores a request, and waits for the
-- control thread to observe it.
--
-- The files. Each component is a module of the same name, with the definitions first and one child for
-- each group of theorems; its Tests hold concrete runs.
--   Types             cpp/include/aidin_hand2/types/{error,state}.hpp, cpp/src/types/{status,
--                     realtime_event}.hpp: the shared enumerations and records.
--   Cia402            cpp/src/hand_core/comms/state_machine/cia402.hpp: is_operation_enabled,
--                     enable_settled, compute_control_word.
--   Homing            cpp/src/hand_core/comms/state_machine/homing_sequence.{hpp,cpp}: Sequence has the
--                     members and the helpers, Step one function per case of the switch of `step`, Run the
--                     cycles that `HandComms::write` makes of it.
--   Protocol          cpp/src/hand_core/comms/canfd/protocol.{hpp,cpp}: Frames (signals), Bytes (the
--                     little-endian arrays), Ids (identifiers and filters), Codec (decode, encode,
--                     init_tx), Observation (frames_to_hand_state, frames_to_actuator_health).
--   Comms             cpp/src/hand_core/comms/hand_comms.{hpp,cpp}: Session (constructor, connect,
--                     disconnect, run, stop, home), Cycle (read, write, quick_stop_attained,
--                     drives_enabled).
--   StopConfirmation  cpp/src/types/stop_confirmation.hpp.
--   RealtimeBuffer    cpp/src/types/realtime_buffer.hpp: Word packs the state word, Steps has the atomic
--                     steps of `write` and `read`.
--   EventRing         cpp/src/types/realtime_event_ring.hpp: push, pop, count_dropped.
--   Lifecycle         cpp/src/hand_core/lifecycle/action_check.{hpp,cpp}: Action (the rule table and
--                     check_action_allowed), Phrase (the texts).
--   Control           cpp/src/hand_core/threads/hand_core_control_thread.cpp: State (the members that the
--                     judgements use), Watch (watch_link, watch_actuator_faults, watch_drive_state,
--                     watch_stop_verdict), HomingWatch (watch_homing), Command (command_to_frames,
--                     fill_commanded), Tactile (apply_tactile_bias), Output (what steps 1 and 4 of
--                     run_control_loop send), Reconnect (try_reconnect_once, with reset_fault_state of
--                     cpp/src/hand_core/hand_core.cpp).
--   Core              cpp/src/hand_core/hand_core.{hpp,cpp}: State (the members and the stores), Waits
--                     (the polling loops), Operation (run, stop, home), Connection (connect, disconnect,
--                     reconnect, close), Command (set_command, the configuration, the tactile bias),
--                     Calls (the constructor and histories of calls); and the loop around Control:
--                     Supervise (the head of run_control_loop, the retries,
--                     handle_control_loop_failure), Cycle (an ordinary iteration).
--   JointClamp        cpp/src/hand_core/kinematics/joint_clamp.cpp: Reals (the numbers), Tables (the limits
--                     of both kinds of hand), Finger (clamp_finger_workspace), Targets
--                     (long_distal_floor_rad, clamp_active_joint_targets).
--   InterfaceSetup    cpp/src/hand_core/comms/canfd/interface_setup.cpp: Request (the rtnetlink messages,
--                     as attributes with their offsets), Setup (send_and_acknowledge,
--                     is_interface_up, ensure_interface_up, with the two sockets they open).
--   EventLog          cpp/src/hand_core/threads/hand_core_event_logging_thread.cpp: Text (the line of an
--                     event), Drain (log_pending_events, run_event_logging_loop).
--   Transport         cpp/src/hand_core/comms/canfd/transport.{hpp,cpp}: Socket (open, close, recv, send, the
--                     two options).
--   Controllers       cpp/src/hand_core/controllers: Position (joint_position_controller.{hpp,cpp}),
--                     Impedance (joint_impedance_controller.{hpp,cpp}).
--   HandManager       cpp/src/hand/hand_manager.cpp and the helpers of cpp/src/hand/hand.cpp.
--   Base              names, Boolean tests, arrays, bits and lists that the components share.
--
-- How the code is written here. A method takes the object's record and returns the new one; an
-- `out` parameter is returned beside it. An intN_t or uintN_t is its bit pattern, a number below 2
-- ^ N, and a wrap-around is written out; where C++ leaves a signed overflow undefined, the pattern
-- wraps. A std::array is a function of the index, read below its length. A counter of type `long`
-- or `int` is a number. A loop is a recursion on the number of iterations left, so there is no
-- fuel but in the twenty digits of std::to_string, which hold 64 bits. The homing of 11000 cycles
-- adds up the limits of the six stages, 2000 in each but the settling, which has 1000. The steps
-- of the realtime buffer are sequentially consistent: the acquire and release orders of the code
-- are what that stands on, and are not modelled. The calls of the event ring are atomic. A public
-- call of Core acts at once between its waits; in a wait, an arbitrary function of the hand stands for
-- the other threads between two loads (`Round` of Core.Waits), and the deadline is the end of the list
-- of rounds. What a result on Core assumes of these functions is named with it (`ByLoop` of
-- Core.Loop): it leaves out a retry of the link that succeeds while a disconnect, reconnect or close
-- waits for the end of the loop, and so overwrites the request for it. The drain of the event ring has as many pops as there are rounds of pushes (`Round` of
-- EventLog.Drain); one more than there are events is enough. A Status is its code in Core. A control
-- cycle acts at once too, but takes as arguments the request at each of its loads.
--
-- Parameters. The constants of linux/can.h and linux/can/error.h (`CanAbi`); what a session's
-- sockets open, receive and send (`Channel`, the queues of `read`, `Sends`); the drives
-- (`FollowsLadder`, the CiA402 transitions that the comments of cia402.hpp name); the text of an errno
-- (`Platform`); the numbers of three errno values (`ErrnoAbi`); double with the operations that the
-- loop applies to it (`Doubles`), the clamp (`Reals`) or the controllers (`ControlDoubles`), and the
-- inverse kinematics; the macros and constants of the netlink headers (`NetlinkAbi`), EBADMSG
-- (`SetupErrno`), what the kernel answers to the setup of an interface (`Kernel`) and to the calls of a
-- socket (`SocketCalls`, `Answer`), the sizes of a CAN frame (`MtuAbi`) and the errno values that a
-- failure to open tells apart (`OpenErrno`).
--
-- Not modelled: the observations of hand_core.cpp that copy a buffer, an exception in the logging
-- thread, the methods of Hand that pass a call on, the kinematics (prebuilt), logs, sleeps and
-- scheduling. Core.Command takes the clamp, and Control.Command the two joint controllers
-- (`Controllers`), as arguments whose doubles are another abstract type; Comms takes what the
-- transport's calls return.
pub mod Base
pub mod Types
pub mod Cia402
pub mod Protocol
pub mod Homing
pub mod Comms
pub mod StopConfirmation
pub mod RealtimeBuffer
pub mod EventRing
pub mod Lifecycle
pub mod Control
pub mod InterfaceSetup
pub mod JointClamp
pub mod Core
pub mod EventLog
pub mod Transport
pub mod Controllers
pub mod HandManager
