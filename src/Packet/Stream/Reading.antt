-- ===== src/Packet/Stream/Reading.antt =====
-- ReadPacket by the master, on a ring that holds packets.
use memif.Prelude.{
  ℕ, ◌+◌, ◌*◌, ◌%◌, ◌^◌, ◌≤◌, ◌<◌, ◌≡◌, ◌⊎◌, inl, inr, refl, sym, ap, ◌∙◌, arith, List, [], ◌∷◌,
  length, true, some, replicate,
}
use memif.Bytes.{bytes_at, read_le, write_le, to_le, of_le}
use memif.Bytes.Copy.{bytes_at-copy_at_apart, length-copy_at}
use memif.Bytes.Endian.{read_le-write_le_16, length-to_le}
use memif.Types.{Interface, Arguments, MemoryConfig}
use memif.Queue.{region_data, set_region_data}
use memif.Queue.Memory.{region_data-set, args-set_region_data, run-set_region_data}
use memif.Queue.View.{RingAt, RingAt-length, size-pos, slot-lt, head_at, head_address, tail_address}
use memif.Packet.Place.{Outside-cases}
use memif.Packet.Receive.{pending_at, read_packet-received, read_packet-empty}
use memif.Packet.Transfer.{SameRing-RingAt}
use memif.Packet.Stream.{World, act, share, read, packet}
use memif.Packet.Stream.Holds.{Holds, Kept, Holds-Kept, Holds-counter}
use memif.Packet.Stream.State.{Stream}
use memif.Packet.Stream.Step.{Step}
use memif.Packet.Stream.Front.{Front, can_receive, received}
use memif.Packet.Stream.Slots.{wrapped, Outside-shrink}
use memif.Packet.Stream.Writing.{share-eq}

module _ {size l : ℕ} {off : ℕ → ℕ} {w : World} {ps : List (List ℕ)}
    (st : Stream size off l w ps) where
  rx-RingAt : RingAt w.rx l st.bytes
  rx-RingAt = SameRing-RingAt st.same st.ring_at

  -- The bytes after the master has written `v` as the tail, and the two sides then.
  abbrev pub tail_set : ℕ → List ℕ
  tail_set v = write_le 2 (tail_address w.rx) v st.bytes

  abbrev pub read_world : ℕ → World
  read_world v = record w {
    rx = record w.rx { last_head = v % 2 ^ 16 };
    receiver = set_region_data w.rx.ring.region (tail_set v) w.receiver;
    sender = set_region_data w.tx.ring.region (tail_set v) w.sender;
  }

  length-tail_set : (v : ℕ) → length (tail_set v) ≡ length st.bytes
  length-tail_set v = length-copy_at st.bytes (tail_address w.rx) (to_le 2 v)

  tail_frame :
      (v lo n : ℕ)
      → (lo + n ≤ tail_address w.tx) ⊎ (tail_address w.tx + 2 ≤ lo)
      → bytes_at lo n (tail_set v) ≡ bytes_at lo n st.bytes
  tail_frame v lo n (inl h) =
      bytes_at-copy_at_apart st.bytes (tail_address w.rx) (to_le 2 v) lo n
        (inl (omega (arith, st.same.offset)))
  tail_frame v lo n (inr h) =
      bytes_at-copy_at_apart st.bytes (tail_address w.rx) (to_le 2 v) lo n
        (inr (omega (arith, st.same.offset, length-to_le 2 v)))

  all-Kept : (v s : ℕ) → s < w.tx.ring.size → Kept w.tx size off st.bytes (tail_set v) s
  all-Kept v s lt = record {
    desc = tail_frame v (w.tx.ring.offset + 128 + s * 16) 16 (inr (omega arith));
    buffer = λ n h. tail_frame v (off s) n (
        Outside-cases w.tx (off s) n (tail_address w.tx) 2
          (Outside-shrink w.tx (off s) (off s) n size refl h (st.buffers.outside s lt))
          (omega arith) (omega arith));
  }

  read-Stream :
      (v : ℕ) (rest : List (List ℕ))
      → Holds w.tx size off st.bytes (v % 2 ^ 16) rest
      → head_at w.tx st.bytes ≡ (v % 2 ^ 16 + length rest) % 2 ^ 16
      → length rest ≤ w.tx.ring.size
      → Stream size off l (read_world v) rest
  read-Stream v rest holds head bound = record {
    bytes = tail_set v;
    ring_at = RingAt-length (tail_set v) st.ring_at (length-tail_set v);
    same = record { region = st.same.region; offset = st.same.offset; size = st.same.size };
    sends =
        ap (λ (a : Arguments). a.is_master)
          (args-set_region_data w.sender w.tx.ring.region (tail_set v))
        ∙ st.sends;
    receives =
        ap (λ (a : Arguments). a.is_master)
          (args-set_region_data w.receiver w.rx.ring.region (tail_set v))
        ∙ st.receives;
    slave_maps =
        region_data-set w.sender w.tx.ring.region st.slave_maps (tail_set v) (length-tail_set v);
    master_maps =
        region_data-set w.receiver w.rx.ring.region st.master_maps (tail_set v) (length-tail_set v);
    buffer_size =
        ap (λ (c : MemoryConfig). c.packet_buffer_size)
          (run-set_region_data w.sender w.tx.ring.region (tail_set v))
        ∙ st.buffer_size;
    narrow = st.narrow;
    buffers = rw (length-tail_set v) st.buffers;
    named = record {
      region = λ s lt. rw ((all-Kept v s lt).desc) (st.named.region s lt);
      offset = λ s lt. rw ((all-Kept v s lt).desc) (st.named.offset s lt);
    };
    tail =
        ap (λ o. read_le 2 (o + 64) (tail_set v)) (sym st.same.offset)
        ∙ read_le-write_le_16 (tail_address w.rx) v st.bytes
            (omega (arith, rx-RingAt.inside, size-pos st.ring_at));
    counter = omega arith;
    head = ap of_le (tail_frame v (head_address w.tx) 2 (inl (omega arith))) ∙ head;
    bound = bound;
    holds =
        Holds-Kept w.tx size off st.bytes (tail_set v) (v % 2 ^ 16) rest
          (λ n lt. all-Kept v _ (slot-lt st.ring_at (v % 2 ^ 16 + n))) holds;
  }

  -- The buffers stay, of whatever size.
  read-Step : {k : ℕ} (v : ℕ) → Step k off w (read_world v) st.bytes (tail_set v)
  read-Step v = record {
    tx = refl;
    ring = refl;
    sender = refl;
    receiver = refl;
    elsewhere = record {
      whole = length-tail_set v;
      same = λ lo n clear.
          tail_frame v lo n
            (Outside-cases w.tx lo n (tail_address w.tx) 2 clear.ring (omega arith) (omega arith));
    };
  }

  rx_head : head_at w.rx st.bytes ≡ (w.rx.last_head + length ps) % 2 ^ 16
  rx_head = ap (λ o. read_le 2 (o + 6) st.bytes) st.same.offset ∙ st.head

  pending-length : pending_at true w.rx st.bytes ≡ length ps
  pending-length = omega (arith, rx_head, st.counter, st.bound, st.ring_at.small)

  master_maps_after :
      (v : ℕ)
      → region_data (set_region_data w.rx.ring.region (tail_set v) w.receiver) w.rx.ring.region
        ≡ some (tail_set v)
  master_maps_after v =
      region_data-set w.receiver w.rx.ring.region st.master_maps (tail_set v) (length-tail_set v)

  shared_after :
      (v : ℕ)
      → share
          (set_region_data w.rx.ring.region (tail_set v) w.receiver)
          w.rx.ring.region
          w.tx.ring.region
          w.sender
        ≡ set_region_data w.tx.ring.region (tail_set v) w.sender
  shared_after v =
      share-eq _ (tail_set v) w.rx.ring.region w.tx.ring.region w.sender (master_maps_after v)

  -- No packet: the call returns no bytes, and changes no more than the tail, to what it was.
  pub act-read_empty :
      (n : ℕ) → length ps ≡ 0 → act (read n) w ≡ some (packet true [], read_world w.rx.last_head)
  unfolding act
  act-read_empty n none_left =
      rw
        (read_packet-empty true (replicate n 0) w.receiver st.receives rx-RingAt st.master_maps
          (pending-length ∙ none_left))
        (ap
          (λ (i : Interface).
            some (packet true [], record (read_world w.rx.last_head) { sender = i }))
          (shared_after w.rx.last_head))

  pub empty-Stream : length ps ≡ 0 → Stream size off l (read_world w.rx.last_head) ps
  empty-Stream none_left =
      let same : w.rx.last_head % 2 ^ 16 ≡ w.rx.last_head = omega (arith, st.counter) in
      read-Stream w.rx.last_head ps (rw same st.holds) (rw same st.head) st.bound

  pub empty-Step :
      {k : ℕ} (none_left : length ps ≡ 0)
      → Step k off w (read_world w.rx.last_head) st.bytes (empty-Stream none_left).bytes
  unfolding empty-Stream read-Stream
  empty-Step none_left = read-Step w.rx.last_head

module _ {size l : ℕ} {off : ℕ → ℕ} {w : World} {p : List ℕ} {ps : List (List ℕ)}
    (st : Stream size off l w (p ∷ ps)) where
  front : Front true size off l w.tx w.rx st.bytes w.receiver p
  front = record {
    same = st.same;
    role = st.receives;
    ring_at = st.ring_at;
    mapped = st.master_maps;
    buffers = st.buffers;
    named = st.named;
    first = st.holds.0;
  }

  -- A packet: the call returns the first one's bytes, and moves the master's index and the tail.
  pub act-read :
      (n : ℕ) → size ≤ n → act (read n) w ≡ some (packet true p, read_world st (w.rx.last_head + 1))
  unfolding act
  act-read n room =
      rw
        (read_packet-received (replicate n 0) (can_receive front)
          (omega (arith, pending-length st)))
        (rw (received front n (omega (arith, st.holds.0.fits))) (
          ap
            (λ (i : Interface).
              some (packet true p, record (read_world st (w.rx.last_head + 1)) { sender = i }))
            (shared_after st (w.rx.last_head + 1))))

  pub rest-Stream : Stream size off l (read_world st (w.rx.last_head + 1)) ps
  rest-Stream =
      read-Stream st (w.rx.last_head + 1) ps
        (Holds-counter w.tx size off st.bytes (w.rx.last_head + 1) _ ps
          (sym (wrapped st.ring_at (w.rx.last_head + 1))) st.holds.1)
        (omega (arith, st.head)) (omega (arith, st.bound))

  pub rest-Step :
      {k : ℕ} → Step k off w (read_world st (w.rx.last_head + 1)) st.bytes rest-Stream.bytes
  unfolding rest-Stream read-Stream
  rest-Step = read-Step st (w.rx.last_head + 1)
