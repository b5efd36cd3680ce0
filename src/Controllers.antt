-- ===== src/Controllers.antt =====
-- cpp/src/hand_core/controllers: the two joint controllers.
pub mod Position
pub mod Impedance
pub mod Bounds
pub mod Unfiltered
mod Tests
