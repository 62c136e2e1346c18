-- ===== src/Packet/Chain.antt =====
-- WritePacket of memif-new/memif/packet_writer.go on packets of any length, by a slave: the loop
-- that takes one buffer after the other.
pub mod Ready
pub mod Loop
pub mod Call
