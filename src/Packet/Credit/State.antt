-- ===== src/Packet/Credit/State.antt =====
-- The states of both ends of a ring whose slots a slave offers, between calls.
use memif.Prelude.{ℕ, ◌+◌, ◌%◌, ◌^◌, ◌≤◌, ◌<◌, ◌≡◌, List, length, true, false, some}
use memif.Desc.{get_length}
use memif.Queue.{region_data}
use memif.Queue.View.{RingAt, head_at, tail_at, desc_at}
use memif.Packet.Transfer.{SameRing}
use memif.Packet.Refill.{Short}
use memif.Packet.Stream.{World}
use memif.Packet.Stream.Holds.{Buffers, Named, Holds}

-- Both sides have mapped the same bytes, in which the ring has 2^`l` slots with buffers of `size`
-- bytes at `off`; the packets `ps` lie in the slots from the slave's index on, the tail is behind
-- the last, and the slave has offered `credit` slots from its index on, of which those without a
-- packet have the length of a whole buffer.
pub record Offered (size : ℕ) (off : ℕ → ℕ) (l : ℕ) (w : World) (credit : ℕ) (ps : List (List ℕ))
    : Type 0 where
  pub bytes : List ℕ
  pub ring_at : RingAt w.tx l bytes
  pub same : SameRing w.tx w.rx
  pub sends : w.sender.args.is_master ≡ true
  pub receives : w.receiver.args.is_master ≡ false
  pub master_maps : region_data w.sender w.tx.ring.region ≡ some bytes
  pub slave_maps : region_data w.receiver w.rx.ring.region ≡ some bytes
  pub buffer_size : w.receiver.run.packet_buffer_size ≡ size
  pub narrow : size < 2 ^ 16
  pub buffers : Buffers w.tx size off (length bytes)
  pub named : Named w.tx off bytes
  pub short : Short w.tx bytes
  pub counter : w.rx.last_tail < 2 ^ 16
  pub head : head_at w.tx bytes ≡ (w.rx.last_tail + credit) % 2 ^ 16
  pub tail : tail_at w.tx bytes ≡ (w.rx.last_tail + length ps) % 2 ^ 16
  pub within : length ps ≤ credit
  pub bound : credit ≤ w.tx.ring.size
  pub whole :
      (n : ℕ)
      → length ps ≤ n
      → n < credit
      → get_length (desc_at w.tx (w.rx.last_tail + n) bytes) ≡ size
  pub holds : Holds w.tx size off bytes w.rx.last_tail ps
