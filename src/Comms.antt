-- ===== src/Comms.antt =====
-- cpp/src/hand_core/comms/hand_comms.hpp and hand_comms.cpp: one hand's session on the bus.
pub mod Session
pub mod Cycle
pub mod Words
pub mod Silence
pub mod Connect
mod Tests
