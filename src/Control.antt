-- ===== src/Control.antt =====
-- cpp/src/hand_core/threads/hand_core_control_thread.cpp: what the realtime loop judges in each cycle.
pub mod State
pub mod Watch
pub mod HomingWatch
pub mod Command
pub mod Tactile
pub mod Output
pub mod Torque
pub mod Reconnect
pub mod Recovery
pub mod Mask
pub mod Bias
pub mod Latch
pub mod Evidence
pub mod Faults
pub mod Completion
pub mod Tests
pub mod CycleTests
pub mod ReconnectTests
