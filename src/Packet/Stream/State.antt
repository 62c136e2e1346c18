-- ===== src/Packet/Stream/State.antt =====
-- The states of both ends of a ring between calls.
use memif.Prelude.{ℕ, ◌+◌, ◌%◌, ◌^◌, ◌≤◌, ◌<◌, ◌≡◌, List, length, true, false, some}
use memif.Queue.{region_data}
use memif.Queue.View.{RingAt, head_at, tail_at}
use memif.Packet.Transfer.{SameRing}
use memif.Packet.Stream.{World}
use memif.Packet.Stream.Holds.{Buffers, Named, Holds}

-- Both sides have mapped the same bytes, in which the ring has 2^`l` slots with buffers of `size`
-- bytes at `off`; the packets `ps` lie in the slots from the master's index on, and the slave's
-- index is behind the last.
pub record Stream (size : ℕ) (off : ℕ → ℕ) (l : ℕ) (w : World) (ps : List (List ℕ)) : Type 0 where
  pub bytes : List ℕ
  pub ring_at : RingAt w.tx l bytes
  pub same : SameRing w.tx w.rx
  pub sends : w.sender.args.is_master ≡ false
  pub receives : w.receiver.args.is_master ≡ true
  pub slave_maps : region_data w.sender w.tx.ring.region ≡ some bytes
  pub master_maps : region_data w.receiver w.rx.ring.region ≡ some bytes
  pub buffer_size : w.sender.run.packet_buffer_size ≡ size
  pub narrow : size < 2 ^ 32
  pub buffers : Buffers w.tx size off (length bytes)
  pub named : Named w.tx off bytes
  pub tail : tail_at w.tx bytes ≡ w.rx.last_head
  pub counter : w.rx.last_head < 2 ^ 16
  pub head : head_at w.tx bytes ≡ (w.rx.last_head + length ps) % 2 ^ 16
  pub bound : length ps ≤ w.tx.ring.size
  pub holds : Holds w.tx size off bytes w.rx.last_head ps
