-- ===== src/Homing.antt =====
-- cpp/src/hand_core/comms/state_machine/homing_sequence.hpp and homing_sequence.cpp: the homing state
-- machine that every realtime cycle drives through `step`.
pub mod Sequence
pub mod Step
pub mod Bounds
pub mod Run
pub mod Edges
pub mod Failure
pub mod Order
pub mod Phase
mod Tests
