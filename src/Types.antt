-- ===== src/Types.antt =====
-- The enumerations that the components share: cpp/include/aidin_hand2/types and cpp/src/types.
pub mod Error
pub mod Lifecycle
pub mod Events
