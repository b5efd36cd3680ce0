-- ===== src/InterfaceSetup.antt =====
-- cpp/src/hand_core/comms/canfd/interface_setup.cpp: a CAN interface that is down is configured and
-- brought up over rtnetlink.
pub mod Request
pub mod Setup
pub mod Layout
pub mod Outcome
pub mod Tests
