-- ===== src/Lifecycle.antt =====
-- cpp/src/hand_core/lifecycle/action_check.hpp and action_check.cpp: which public call is possible in
-- which lifecycle, and the text of a refusal.
pub mod Phrase
pub mod Action
pub mod Rules
mod Tests
