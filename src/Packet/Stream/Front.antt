-- ===== src/Packet/Stream/Front.antt =====
-- ReadPacket, for either role, on a ring whose next slot holds a packet.
use memif.Prelude.{
  ℕ, ◌%◌, ◌≤◌, ◌<◌, ◌≡◌, sym, ◌∙◌, arith, Bool, List, length, some, take, replicate,
  length-replicate,
}
use memif.Bytes.{bytes_at, copy_at}
use memif.Bytes.Copy.{bytes_at-copy_at_self}
use memif.Desc.{get_length, get_offset}
use memif.Types.{Interface, Queue}
use memif.Queue.{region_data}
use memif.Queue.View.{RingAt, desc_at, slot-lt}
use memif.Packet.Receive.{CanReceive, last_index}
use memif.Packet.Transfer.{SameRing, SameRing-slots, SameRing-RingAt}
use memif.Packet.Stream.Holds.{Buffers, Named, SlotHolds, slot_desc}

-- The receiver of role `m`, with the queue `r` of the ring that its peer knows as `q`, has the packet
-- `p` in its next slot.
pub record Front (m : Bool) (size : ℕ) (off : ℕ → ℕ) (l : ℕ) (q r : Queue) (d : List ℕ)
    (j : Interface) (p : List ℕ) : Type 0 where
  pub same : SameRing q r
  pub role : j.args.is_master ≡ m
  pub ring_at : RingAt q l d
  pub mapped : region_data j r.ring.region ≡ some d
  pub buffers : Buffers q size off (length d)
  pub named : Named q off d
  pub first : SlotHolds q size off d (last_index m r % q.ring.size) p

module _ {m : Bool} {size l : ℕ} {off : ℕ → ℕ} {q r : Queue} {d : List ℕ} {j : Interface}
    {p : List ℕ} (f : Front m size off l q r d j p) where
  abbrev slot : ℕ
  slot = last_index m r % q.ring.size

  below : slot < q.ring.size
  below = slot-lt f.ring_at (last_index m r)

  seen : desc_at r (last_index m r) d ≡ slot_desc q slot d
  seen = SameRing-slots q r (last_index m r) d f.same

  seen_offset : get_offset (desc_at r (last_index m r) d) ≡ off slot
  seen_offset = rw seen (f.named.offset slot below)

  seen_length : get_length (desc_at r (last_index m r) d) ≡ length p
  seen_length = rw seen f.first.len

  pub can_receive : CanReceive m r l d j
  can_receive = record {
    role = f.role;
    ring_at = SameRing-RingAt f.same f.ring_at;
    mapped = f.mapped;
    single = rw seen f.first.single;
    same_region = rw seen (f.named.region slot below) ∙ sym f.same.region;
    room = omega (arith, seen_offset, seen_length, f.first.fits, f.buffers.room slot below);
  }

  -- Copied into a new buffer that is long enough, it is the packet.
  pub received :
      (n : ℕ)
      → length p ≤ n
      → take (get_length (desc_at r (last_index m r) d)) (
          copy_at (replicate n 0) 0 (
            bytes_at
              (get_offset (desc_at r (last_index m r) d))
              (get_length (desc_at r (last_index m r) d))
              d))
        ≡ p
  received n room =
      rw (seen_length, seen_offset, f.first.packet)
        (bytes_at-copy_at_self (replicate n 0) 0 p (omega (arith, length-replicate {A = ℕ} n 0)))
