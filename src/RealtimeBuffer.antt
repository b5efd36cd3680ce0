-- ===== src/RealtimeBuffer.antt =====
-- cpp/src/types/realtime_buffer.hpp: the lock-free triple buffer that hands the latest value from one
-- producer to one consumer.
pub mod Word
pub mod Steps
pub mod Handoff
pub mod Mailbox
mod Tests
