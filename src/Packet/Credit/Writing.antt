-- ===== src/Packet/Credit/Writing.antt =====
-- WritePacket by the master, into a slot that the slave has offered.
use memif.Prelude.{
  ℕ, ◌+◌, ◌-◌, ◌%◌, ◌^◌, ◌≤◌, ◌<◌, ◌≡◌, inl, refl, sym, ap, subst, ◌∙◌, arith, List, [], ◌∷◌, ◌++◌,
  length, length-append, true, some,
}
use memif.Desc.{get_length}
use memif.Types.{Interface, Arguments, MemoryConfig}
use memif.Queue.{region_data, set_region_data}
use memif.Queue.Memory.{
  region_data-set, set_region_data_same, args-set_region_data, run-set_region_data,
}
use memif.Queue.View.{RingAt-length, tail_at, head_address, desc_at}
use memif.Packet.Send.{write_packet-sent, write_packet-full, free_at, sent}
use memif.Packet.Sent.{length-sent, index-sent, other_index-sent}
use memif.Packet.Refill.{Short}
use memif.Packet.Stream.{World, act, write, count}
use memif.Packet.Stream.Holds.{slot_desc}
use memif.Packet.Stream.Slots.{
  Ready, can_send, next, after-Elsewhere, next_holds, others-Kept, Named-after, Holds-after,
  behind-Kept, wrapped,
}
use memif.Packet.Stream.Step.{Step}
use memif.Packet.Stream.Writing.{share-eq}
use memif.Packet.Credit.State.{Offered}
use native.Mathlib.Decide.{ℕ_discrete}

module _ {size l : ℕ} {off : ℕ → ℕ} {w : World} {credit : ℕ} {ps : List (List ℕ)}
    (st : Offered size off l w credit ps) (pkt : List ℕ) where
  free-eq : free_at true w.tx st.bytes ≡ credit - length ps
  free-eq = omega (arith, st.head, st.tail, st.counter, st.within, st.bound, st.ring_at.small)

  -- No slot on offer: the call returns 0 and changes nothing.
  pub act-write_full : length ps ≡ credit → act (write pkt) w ≡ some (count 0, w)
  unfolding act
  act-write_full full =
      rw (write_packet-full pkt [] st.sends st.ring_at st.master_maps (omega (arith, free-eq))) (
        ap (λ (m : Interface). some (count 0, record w { receiver = m }))
          (share-eq w.sender st.bytes w.tx.ring.region w.rx.ring.region w.receiver st.master_maps
            ∙ set_region_data_same w.receiver w.rx.ring.region st.slave_maps))

  module _ (fits : length pkt ≤ size) (space : length ps < credit) where
    sized : get_length (desc_at w.tx (tail_at w.tx st.bytes) st.bytes) ≡ size
    sized =
        ap (λ s. get_length (slot_desc w.tx s st.bytes))
          (ap (λ t. t % w.tx.ring.size) st.tail ∙ wrapped st.ring_at (w.rx.last_tail + length ps))
        ∙ st.whole (length ps) (omega arith) space

    ready : Ready true size off l w.tx st.bytes w.sender
    ready = record {
      role = st.sends;
      ring_at = st.ring_at;
      mapped = st.master_maps;
      sized = sized;
      narrow = omega (arith, st.narrow);
      buffers = st.buffers;
      named = st.named;
    }

    abbrev after : List ℕ
    after = sent true w.tx pkt st.bytes

    whole_after : length after ≡ length st.bytes
    whole_after = length-sent (can_send ready pkt fits)

    -- Both sides see the bytes that WritePacket leaves.
    abbrev pub written : World
    written = record w {
      sender = set_region_data w.tx.ring.region after w.sender;
      receiver = set_region_data w.rx.ring.region after w.receiver;
    }

    written_maps : region_data written.sender w.tx.ring.region ≡ some after
    written_maps = region_data-set w.sender w.tx.ring.region st.master_maps after whole_after

    pub act-write : act (write pkt) w ≡ some (count (length pkt), written)
    unfolding act
    act-write = rw (write_packet-sent (can_send ready pkt fits) [] (omega (arith, free-eq))) (
        ap (λ (m : Interface). some (count (length pkt), record written { receiver = m }))
          (share-eq written.sender after w.tx.ring.region w.rx.ring.region w.receiver written_maps))

    Short-after : Short w.tx after
    Short-after s lt = elim (ℕ_discrete s (next ready pkt fits)) [
      | yes e ↦
          subst (λ k. get_length (slot_desc w.tx k after) < 2 ^ 16) (sym e)
            (omega (arith, (next_holds ready pkt fits).len, st.narrow))
      | no ne ↦
          subst (λ db. get_length db < 2 ^ 16) (sym ((others-Kept ready pkt fits s lt ne).desc))
            (st.short s lt)
    ]

    few : length ps < w.tx.ring.size
    few = omega (arith, st.bound)

    more : length (ps ++ (pkt ∷ [])) ≡ length ps + 1
    more = length-append {0} ps (pkt ∷ []) ∙ omega arith

    pub written-Offered : Offered size off l written credit (ps ++ (pkt ∷ []))
    written-Offered = record {
      bytes = after;
      ring_at = RingAt-length after st.ring_at whole_after;
      same = st.same;
      sends =
          ap (λ (a : Arguments). a.is_master) (args-set_region_data w.sender w.tx.ring.region after)
          ∙ st.sends;
      receives =
          ap (λ (a : Arguments). a.is_master)
            (args-set_region_data w.receiver w.rx.ring.region after)
          ∙ st.receives;
      master_maps = written_maps;
      slave_maps = region_data-set w.receiver w.rx.ring.region st.slave_maps after whole_after;
      buffer_size =
          ap (λ (c : MemoryConfig). c.packet_buffer_size)
            (run-set_region_data w.receiver w.rx.ring.region after)
          ∙ st.buffer_size;
      narrow = st.narrow;
      buffers = rw whole_after st.buffers;
      named = Named-after ready pkt fits;
      short = Short-after;
      counter = st.counter;
      head =
          other_index-sent (can_send ready pkt fits) (head_address w.tx) (omega arith)
            (inl (omega arith))
          ∙ st.head;
      tail = index-sent (can_send ready pkt fits) ∙ omega (arith, st.tail, more);
      within = omega (arith, more);
      bound = st.bound;
      whole = λ n from to.
          ap get_length (
            (behind-Kept ready pkt fits w.rx.last_tail ps st.holds (sym st.tail) few n
              (omega (arith, more)) (omega (arith, st.bound))).desc)
          ∙ st.whole n (omega (arith, more)) to;
      holds = Holds-after ready pkt fits w.rx.last_tail ps st.holds (sym st.tail) few;
    }

    pub written-Step : Step size off w written st.bytes written-Offered.bytes
    unfolding written-Offered
    written-Step = record {
      tx = refl;
      ring = refl;
      sender = refl;
      receiver = refl;
      elsewhere = after-Elsewhere ready pkt fits;
    }
