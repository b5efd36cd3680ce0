-- ===== src/EventLog.antt =====
-- cpp/src/hand_core/threads/hand_core_event_logging_thread.cpp: the thread that turns the events of the
-- control loop into lines of the log.
pub mod Text
pub mod Drain
pub mod Fifo
pub mod Drops
mod Tests
