-- ===== src/Apps.antt =====
-- The programs beside the library: the examples in memif-new/_examples (bridge, responder), and the
-- command memif-attach.
pub mod Relay
pub mod Forward
pub mod Deliver
pub mod Start
pub mod Connect
pub mod Attach
pub mod Callbacks
pub mod Vpp
pub mod Console
