-- ===== src/Packet/Credit/Calls.antt =====
-- What a call of ReadPacket by the slave returns, with and without a packet.
use memif.Prelude.{
  ℕ, ◌+◌, ◌-◌, ◌%◌, ◌^◌, ◌≤◌, ◌≡◌, refl, sym, ap, ◌∙◌, arith, List, [], ◌∷◌, length, true, false,
  some, replicate,
}
use memif.Bytes.{read_le}
use memif.Types.{Interface}
use memif.Queue.{set_region_data}
use memif.Queue.Memory.{region_data-set}
use memif.Queue.View.{RingAt, head_at, tail_at}
use memif.Packet.Receive.{consumed, pending_at, read_packet-received, read_packet-empty}
use memif.Packet.Refill.{refilled-SameRing}
use memif.Packet.Transfer.{SameRing-RingAt}
use memif.Packet.Stream.{World, act, share, read, packet}
use memif.Packet.Stream.Holds.{Holds-counter}
use memif.Packet.Stream.Slots.{wrapped}
use memif.Packet.Stream.Writing.{share-eq}
use memif.Packet.Credit.State.{Offered}
use memif.Packet.Credit.Reading.{refilled_bytes, read_world, read-Offered, read-Step, length-after}
use memif.Packet.Stream.Step.{Step}
use memif.Packet.Stream.Front.{Front, can_receive, received}

module _ {size l : ℕ} {off : ℕ → ℕ} {w : World} {credit : ℕ} {ps : List (List ℕ)}
    (st : Offered size off l w credit ps) where
  rx-RingAt : RingAt w.rx l st.bytes
  rx-RingAt = SameRing-RingAt st.same st.ring_at

  pending-length : pending_at false w.rx st.bytes ≡ length ps
  pending-length =
      let tail : tail_at w.rx st.bytes ≡ (w.rx.last_tail + length ps) % 2 ^ 16 =
        ap (λ o. read_le 2 (o + 64) st.bytes) st.same.offset ∙ st.tail in
      omega (arith, tail, st.counter, st.within, st.bound, st.ring_at.small)

  module _ (step : ℕ) (rest : List (List ℕ)) (taken : step + length rest ≡ length ps)
      (one : step ≤ 1) where
    -- The slave offers the slots of which the code computes the number.
    consumed-eq :
        (slot : ℕ)
        → slot ≡ w.rx.last_tail + step
        → consumed false w.receiver.run w.rx slot st.bytes ≡ refilled_bytes st step rest taken one
    consumed-eq slot e =
        let number : (w.tx.ring.size + 2 ^ 16 - head_at w.tx st.bytes + slot % 2 ^ 16) % 2 ^ 16
            ≡ w.tx.ring.size + step - credit =
          omega (arith, st.head, st.bound, st.ring_at.small, st.counter, st.within) in
        refilled-SameRing _ _ _ st.bytes st.same
        ∙ rw (st.same.offset, st.same.size, st.buffer_size, number) refl

    abbrev next_world : World
    next_world = read_world st step rest taken one

    shared_after :
        share
          (set_region_data w.rx.ring.region (refilled_bytes st step rest taken one) w.receiver)
          w.rx.ring.region
          w.tx.ring.region
          w.sender
        ≡ next_world.sender
    shared_after =
        share-eq _ (refilled_bytes st step rest taken one) w.rx.ring.region w.tx.ring.region
          w.sender
          (region_data-set w.receiver w.rx.ring.region st.slave_maps
            (refilled_bytes st step rest taken one) (length-after st step rest taken one))

-- No packet: the call returns no bytes, and offers the slots that were not on offer.
module _ {size l : ℕ} {off : ℕ → ℕ} {w : World} {credit : ℕ}
    (st : Offered size off l w credit []) where
  abbrev pub empty_world : World
  empty_world = read_world st 0 [] refl (omega arith)

  pub act-read_empty : (n : ℕ) → act (read n) w ≡ some (packet true [], empty_world)
  unfolding act
  act-read_empty n =
      let z : w.rx.last_tail + 0 ≡ w.rx.last_tail = omega arith in
      rw
        (
          read_packet-empty false (replicate n 0) w.receiver st.receives (rx-RingAt st)
              st.slave_maps (pending-length st),
          consumed-eq st 0 [] refl (omega arith) w.rx.last_tail (omega arith),
          shared_after st 0 [] refl (omega arith),
          z,
        )
        refl

  pub empty-Offered : Offered size off l empty_world w.tx.ring.size []
  empty-Offered = read-Offered st 0 [] refl (omega arith) tt

  pub empty-Step : {k : ℕ} → Step k off w empty_world st.bytes empty-Offered.bytes
  unfolding empty-Offered
  empty-Step = read-Step st 0 [] refl (omega arith) tt

module _ {size l : ℕ} {off : ℕ → ℕ} {w : World} {credit : ℕ} {p : List ℕ} {ps : List (List ℕ)}
    (st : Offered size off l w credit (p ∷ ps)) where
  front : Front false size off l w.tx w.rx st.bytes w.receiver p
  front = record {
    same = st.same;
    role = st.receives;
    ring_at = st.ring_at;
    mapped = st.slave_maps;
    buffers = st.buffers;
    named = st.named;
    first = st.holds.0;
  }

  pub counted : 1 + length ps ≡ length (p ∷ ps)
  counted = omega arith

  abbrev pub taken_world : World
  taken_world = read_world st 1 ps counted (omega arith)

  -- A packet: the call returns the first one's bytes, and offers its slot again.
  pub act-read : (n : ℕ) → size ≤ n → act (read n) w ≡ some (packet true p, taken_world)
  unfolding act
  act-read n room =
      rw
        (
          read_packet-received (replicate n 0) (can_receive front)
              (omega (arith, pending-length st)),
          received front n (omega (arith, st.holds.0.fits)),
          consumed-eq st 1 ps counted (omega arith) (w.rx.last_tail + 1) refl,
        )
        (ap (λ (i : Interface). some (packet true p, record taken_world { sender = i }))
          (shared_after st 1 ps counted (omega arith)))

  pub rest-Offered : Offered size off l taken_world w.tx.ring.size ps
  rest-Offered = read-Offered st 1 ps counted (omega arith) (
      Holds-counter w.tx size off st.bytes (w.rx.last_tail + 1) _ ps
        (sym (wrapped st.ring_at (w.rx.last_tail + 1))) st.holds.1)

  pub rest-Step : {k : ℕ} → Step k off w taken_world st.bytes rest-Offered.bytes
  unfolding rest-Offered
  rest-Step = read-Step st 1 ps counted (omega arith) _
