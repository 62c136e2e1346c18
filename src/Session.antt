-- ===== src/Session.antt =====
-- The conversation in which a slave and a master set up a connection (parseMsg and the parse and
-- enqueue functions of memif-new/memif/control_channel.go).
pub mod Queueing
pub mod Answer
pub mod Delivery
pub mod Joining
pub mod Meeting
pub mod Steps
pub mod Handshake
