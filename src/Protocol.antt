-- ===== src/Protocol.antt =====
-- cpp/src/hand_core/comms/canfd/protocol.hpp and protocol.cpp.
pub mod Frames
pub mod Bytes
pub mod RoundTrip
pub mod Ids
pub mod Codec
pub mod Decoding
pub mod Observation
pub mod Wire
pub mod Tests
