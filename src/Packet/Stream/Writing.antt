-- ===== src/Packet/Stream/Writing.antt =====
-- WritePacket by the slave, on a ring that holds packets.
use memif.Prelude.{
  ℕ, ◌-◌, ◌≤◌, ◌<◌, ◌≡◌, inr, refl, sym, ap, ◌∙◌, arith, List, [], ◌∷◌, ◌++◌, length, length-append,
  false, some,
}
use memif.Types.{Interface, Arguments, MemoryConfig}
use memif.Queue.{region_data, set_region_data}
use memif.Queue.Memory.{
  region_data-set, set_region_data_same, args-set_region_data, run-set_region_data,
}
use memif.Queue.View.{RingAt-length, tail_address}
use memif.Packet.Send.{write_packet-sent, write_packet-full, free_at, sent}
use memif.Packet.Sent.{length-sent, index-sent, other_index-sent}
use memif.Packet.Stream.{World, act, share, write, count}
use memif.Packet.Stream.Slots.{Ready, can_send, after-Elsewhere, Named-after, Holds-after}
use memif.Packet.Stream.Step.{Step}
use memif.Packet.Stream.State.{Stream}

pub share-eq :
    (i : Interface) (d : List ℕ) (k l : ℕ) (j : Interface)
    → region_data i k ≡ some d
    → share i k l j ≡ set_region_data l d j
unfolding share
share-eq i d k l j h = rw (h, share)

module _ {size l : ℕ} {off : ℕ → ℕ} {w : World} {ps : List (List ℕ)} (st : Stream size off l w ps)
    (pkt : List ℕ) (fits : length pkt ≤ size) where
  ready : Ready false size off l w.tx st.bytes w.sender
  ready = record {
    role = st.sends;
    ring_at = st.ring_at;
    mapped = st.slave_maps;
    sized = st.buffer_size;
    narrow = st.narrow;
    buffers = st.buffers;
    named = st.named;
  }

  abbrev pub after : List ℕ
  after = sent false w.tx pkt st.bytes

  free-eq : free_at false w.tx st.bytes ≡ w.tx.ring.size - length ps
  free-eq = omega (arith, st.head, st.tail, st.counter, st.bound, st.ring_at.small)

  module _ (space : length ps < w.tx.ring.size) where
    -- Both sides see the bytes that WritePacket leaves.
    abbrev pub written : World
    written = record w {
      sender = set_region_data w.tx.ring.region after w.sender;
      receiver = set_region_data w.rx.ring.region after w.receiver;
    }

    whole_after : length after ≡ length st.bytes
    whole_after = length-sent (can_send ready pkt fits)

    written_maps : region_data written.sender w.tx.ring.region ≡ some after
    written_maps = region_data-set w.sender w.tx.ring.region st.slave_maps after whole_after

    pub act-write : act (write pkt) w ≡ some (count (length pkt), written)
    unfolding act
    act-write = rw (write_packet-sent (can_send ready pkt fits) [] (omega (arith, free-eq))) (
        ap (λ (m : Interface). some (count (length pkt), record written { receiver = m }))
          (share-eq written.sender after w.tx.ring.region w.rx.ring.region w.receiver written_maps))

    pub written-Stream : Stream size off l written (ps ++ (pkt ∷ []))
    written-Stream = record {
      bytes = after;
      ring_at = RingAt-length after st.ring_at whole_after;
      same = st.same;
      sends =
          ap (λ (a : Arguments). a.is_master) (args-set_region_data w.sender w.tx.ring.region after)
          ∙ st.sends;
      receives =
          ap (λ (a : Arguments). a.is_master)
            (args-set_region_data w.receiver w.rx.ring.region after)
          ∙ st.receives;
      slave_maps = written_maps;
      master_maps = region_data-set w.receiver w.rx.ring.region st.master_maps after whole_after;
      buffer_size =
          ap (λ (c : MemoryConfig). c.packet_buffer_size)
            (run-set_region_data w.sender w.tx.ring.region after)
          ∙ st.buffer_size;
      narrow = st.narrow;
      buffers = rw whole_after st.buffers;
      named = Named-after ready pkt fits;
      tail =
          other_index-sent (can_send ready pkt fits) (tail_address w.tx) (omega arith)
            (inr (omega arith))
          ∙ st.tail;
      counter = st.counter;
      head =
          index-sent (can_send ready pkt fits)
          ∙ omega (arith, st.head, length-append {0} ps (pkt ∷ []));
      bound = omega (arith, length-append {0} ps (pkt ∷ []));
      holds = Holds-after ready pkt fits w.rx.last_head ps st.holds (sym st.head) space;
    }

    pub written-Step : Step size off w written st.bytes written-Stream.bytes
    unfolding written-Stream
    written-Step = record {
      tx = refl;
      ring = refl;
      sender = refl;
      receiver = refl;
      elsewhere = after-Elsewhere ready pkt fits;
    }

  -- A full ring: the call returns 0 and changes nothing.
  pub act-write_full : length ps ≡ w.tx.ring.size → act (write pkt) w ≡ some (count 0, w)
  unfolding act
  act-write_full full =
      rw (write_packet-full pkt [] st.sends st.ring_at st.slave_maps (omega (arith, free-eq))) (
        ap (λ (m : Interface). some (count 0, record w { receiver = m }))
          (share-eq w.sender st.bytes w.tx.ring.region w.rx.ring.region w.receiver st.slave_maps
            ∙ set_region_data_same w.receiver w.rx.ring.region st.master_maps))
