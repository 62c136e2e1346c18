-- ===== src/Packet.antt =====
-- Sending and receiving packets: WritePacket of memif-new/memif/packet_writer.go and ReadPacket of
-- packet_reader.go.
pub mod Place
pub mod Send
pub mod Receive
pub mod Transfer
pub mod Sent
pub mod Gather
pub mod Chain
pub mod Stream
pub mod Refill
pub mod Credit
pub mod Duplex
pub mod Writer
pub mod Reader
