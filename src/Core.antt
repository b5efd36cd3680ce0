-- ===== src/Core.antt =====
-- cpp/src/hand_core/hand_core.cpp: the public calls of `HandCore`, made from the user's thread beside
-- the control loop.
pub mod State
pub mod Waits
pub mod Operation
pub mod Connection
pub mod Loop
pub mod Consistent
pub mod Preserve
pub mod PreserveLink
pub mod Command
pub mod Calls
pub mod Invariant
pub mod Supervise
pub mod Cycle
pub mod CycleLaws
pub mod CycleLoop
pub mod Retry
pub mod Outcome
pub mod Rebuild
pub mod Staging
pub mod Tests
mod LoopTests
