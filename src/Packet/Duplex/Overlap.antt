-- ===== src/Packet/Duplex/Overlap.antt =====
-- Two rings, one in each direction, whose slots have the same buffers.
use memif.Prelude.{
  ℕ, ◌+◌, ◌*◌, ◌%◌, ◌≤◌, ◌<◌, ◌≡◌, refl, sym, ap, subst, ◌∙◌, arith, inl, inr, true, some, List, [],
  ◌∷◌, length,
}
use memif.Bytes.{bytes_at}
use memif.Desc.{get_flags, get_length}
use memif.Queue.View.{slot-lt}
use memif.Packet.Stream.{World, write, read, count, packet}
use memif.Packet.Stream.Holds.{SlotHolds}
use memif.Packet.Stream.State.{Stream}
use memif.Packet.Stream.Writing.{written, act-write, written-Stream, written-Step}
use memif.Packet.Stream.Reading.{read_world, act-read}
use memif.Packet.Credit.State.{Offered}
use memif.Packet.Credit.Writing.{
  written as offered_written, act-write as act-offered, written-Offered,
  written-Step as offered-Step,
}
use memif.Packet.Duplex.{Ends, upward, downward, up, down, call, calls}
use memif.Packet.Duplex.Sides.{upper, lower, down-upper, up-lower}
use memif.Packet.Duplex.Untouched.{
  RingKept, desc-RingKept, Elsewhere-RingKept, Stream-RingKept, Offered-RingKept,
}

-- Both rings lie in the same bytes, apart, hold no packet, and have as many slots with the same
-- buffers; the master has a slot to send on, and both readers are at the same slot.
pub record Overlap (size : ℕ) (off : ℕ → ℕ) (l : ℕ) (w : Ends) (credit : ℕ) : Type 0 where
  pub rising : Stream size off l (up w) []
  pub falling : Offered size off l (down w) credit []
  pub shared : falling.bytes ≡ rising.bytes
  pub slave_region : w.slave_rx.ring.region ≡ w.slave_tx.ring.region
  pub master_region : w.master_tx.ring.region ≡ w.master_rx.ring.region
  pub rings : w.slave_tx.ring.offset + 128 + 16 * w.slave_tx.ring.size ≤ w.master_tx.ring.offset
  pub as_many : w.master_tx.ring.size ≡ w.slave_tx.ring.size
  pub slot :
      w.slave_rx.last_tail % w.master_tx.ring.size ≡ w.master_rx.last_head % w.slave_tx.ring.size

module _ {size l credit : ℕ} {off : ℕ → ℕ} {w : Ends} (o : Overlap size off l w credit)
    (p p' : List ℕ) (fits : length p ≤ size) (as_long : length p' ≡ length p)
    (offered : 0 < credit) where
  room : 0 < w.slave_tx.ring.size
  room = omega (arith, o.falling.bound, o.as_many)

  -- The slave has written `p`.
  abbrev risen : World
  risen = written o.rising p fits room

  abbrev one_way : Ends
  one_way = upper w risen

  abbrev first_bytes : List ℕ
  first_bytes = (written-Stream o.rising p fits room).bytes

  second_ring : RingKept w.master_tx o.falling.bytes first_bytes
  second_ring =
      subst (λ d. RingKept w.master_tx d first_bytes) (sym o.shared)
        (Elsewhere-RingKept o.rising.bytes first_bytes (inr (omega (arith, o.rings)))
          (λ s lt. o.falling.buffers.outside s (omega (arith, o.as_many)))
          (written-Step o.rising p fits room).elsewhere)

  still_offered : (f : Offered size off l (down one_way) credit []) × (f.bytes ≡ first_bytes)
  unfolding Offered-RingKept
  still_offered =
      subst (λ (x : World). (f : Offered size off l x credit []) × (f.bytes ≡ first_bytes))
        (down-upper o.slave_region o.master_region (written-Step o.rising p fits room))
        (Offered-RingKept first_bytes o.falling second_ring tt, refl)

  -- Then the master has written `p'`.
  abbrev fallen : World
  fallen = offered_written still_offered.0 p' (omega arith) offered

  abbrev both_ways : Ends
  both_ways = lower one_way fallen

  abbrev second_bytes : List ℕ
  second_bytes = (written-Offered still_offered.0 p' (omega arith) offered).bytes

  first_ring : RingKept w.slave_tx first_bytes second_bytes
  first_ring =
      subst (λ d. RingKept w.slave_tx d second_bytes) still_offered.1
        (Elsewhere-RingKept still_offered.0.bytes second_bytes (inl (omega (arith, o.rings)))
          (λ s lt. o.rising.buffers.outside s (omega (arith, o.as_many)))
          (offered-Step still_offered.0 p' (omega arith) offered).elsewhere)

  -- The slave's slot has the length of `p`, and the bytes of `p'`.
  overwritten :
      SlotHolds w.slave_tx size off second_bytes (w.master_rx.last_head % w.slave_tx.ring.size) p'
  overwritten =
      let at = w.master_rx.last_head % w.slave_tx.ring.size in
      let mine = (written-Stream o.rising p fits room).holds.0 in
      let theirs = (written-Offered still_offered.0 p' (omega arith) offered).holds.0 in
      let same = desc-RingKept first_ring at (slot-lt o.rising.ring_at w.master_rx.last_head) in
      record {
        single = ap (λ db. get_flags db % 2) same ∙ mine.single;
        len = ap get_length same ∙ mine.len ∙ sym as_long;
        packet = subst (λ s. bytes_at (off s) (length p') second_bytes ≡ p') o.slot theirs.packet;
        fits = theirs.fits;
      }

  mistaken : Stream size off l (up both_ways) (p' ∷ [])
  mistaken =
      subst (λ (x : World). Stream size off l x (p' ∷ []))
        (up-lower {w = one_way} o.slave_region o.master_region
          (offered-Step still_offered.0 p' (omega arith) offered))
        (Stream-RingKept second_bytes (written-Stream o.rising p fits room) first_ring (p' ∷ [])
          refl (overwritten, tt))

  -- The slave writes a packet, then the master one as long, and the master reads: its own packet.
  pub calls-overwritten :
      (n : ℕ)
      → size ≤ n
      → (w' : Ends) × (calls (upward (write p) ∷ downward (write p') ∷ upward (read n) ∷ []) w
          ≡ some (count (length p) ∷ count (length p') ∷ packet true p' ∷ [], w'))
  unfolding calls call
  calls-overwritten n enough = (
    upper both_ways (read_world mistaken (both_ways.master_rx.last_head + 1)),
    rw
        (
          act-write o.rising p fits room,
          act-offered still_offered.0 p' (omega arith) offered,
          act-read mistaken n enough,
        )
        refl,
  )
