-- ===== src/Transport.antt =====
-- cpp/src/hand_core/comms/canfd/transport.{hpp,cpp}: the CAN socket of one session.
pub mod Socket
pub mod Ownership
mod Tests
