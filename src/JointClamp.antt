-- ===== src/JointClamp.antt =====
-- cpp/src/hand_core/kinematics/joint_clamp.cpp: joint targets are pulled into the workspace.
pub mod Reals
pub mod Tables
pub mod Finger
pub mod Targets
pub mod Slots
pub mod Bounds
mod Tests
