-- ===== src/Setup/Overlap.antt =====
-- The rings that initializeQueues of memif-new/memif/interface.go sets up for the two directions of a queue
-- pair, whose descriptors name the same packet buffers.
use memif.Prelude.{
  ℕ, ◌+◌, ◌%◌, ◌^◌, ◌≤◌, ◌<◌, ◌≡◌, refl, sym, ap, subst, ◌∙◌, arith, inl, true, some, List, [], ◌∷◌,
  ◌++◌, length, get_elem?,
}
use memif.Types.{Interface, Queue, MemoryConfig}
use memif.Types.Os.{Os, Call}
use memif.Desc.{get_length}
use memif.Ring.{new_ring}
use memif.Queue.{region_data}
use memif.Queue.View.{size-pos}
use memif.Socket.{Socket, done}
use memif.Packet.Transfer.{SameRing, SameRing-RingAt}
use memif.Packet.Stream.{World, write, read, count, packet}
use memif.Packet.Stream.State.{Stream}
use memif.Packet.Credit.State.{Offered}
use memif.Packet.Credit.Calls.{empty_world, act-read_empty, empty-Offered, empty-Step}
use memif.Packet.Duplex.State.{Duplex}
use memif.Packet.Duplex.{Queues, Ends, upward, downward, up as up_end, down, call, calls}
use memif.Packet.Duplex.Sides.{lower, up-lower}
use memif.Packet.Duplex.Untouched.{RingKept, Elsewhere-RingKept, Stream-RingKept}
use memif.Packet.Duplex.Overlap.{Overlap, calls-overwritten}
use memif.Setup.{initialize_queues}
use memif.Setup.Pair.{LaidOut, SetUp, peer_of, peer_of_rx, initialize_queues-SetUp}
use memif.Setup.Mirror.{swapped, Buffers-SameRing, desc-SameRing, Named-SameRing}
use memif.Setup.Queues.{buffer_of}
use memif.Setup.Traffic.{ends-Stream}

-- A slave whose queues are set up, and a master that has mapped the same bytes and taken up both.
abbrev pub pair_ends : Queue → Queue → Interface → Interface → ℕ → ℕ → Ends
pair_ends tx rx y m tx_fd rx_fd = record {
  slave = y;
  slave_tx = tx;
  slave_rx = rx;
  master = m;
  master_tx = peer_of_rx rx rx_fd;
  master_rx = peer_of tx tx_fd;
}

-- Both rings are empty, and the slave has offered no slot yet.
abbrev pub no_packets : Queues
no_packets = record { ups = []; credit = 0; downs = [] }

module _ {x y : Interface} {tx rx : Queue} {e : List ℕ} (up : SetUp x tx rx y e) (m : Interface)
    (role : m.args.is_master ≡ true) (mapped : region_data m 0 ≡ some e)
    (narrow : x.run.packet_buffer_size < 2 ^ 16) (tx_fd rx_fd : ℕ) where
  abbrev w : Ends
  w = pair_ends tx rx y m tx_fd rx_fd

  announced : SameRing (peer_of_rx rx rx_fd) rx
  announced = up.rx_announced rx_fd

  rising : Stream x.run.packet_buffer_size (buffer_of x.run) x.run.log2_ring_size (up_end w) []
  unfolding new_ring
  rising = ends-Stream up role (peer_of tx tx_fd) (up.announced tx_fd) refl mapped

  falling : Offered x.run.packet_buffer_size (buffer_of x.run) x.run.log2_ring_size (down w) 0 []
  unfolding new_ring
  falling = record {
    bytes = e;
    ring_at = SameRing-RingAt (swapped announced) up.rx_at;
    same = announced;
    sends = role;
    receives = up.sends.role;
    master_maps = mapped;
    slave_maps = subst (λ k. region_data y k ≡ some e) (sym up.rx_placed.region) up.own;
    buffer_size = ap (λ (r : MemoryConfig). r.packet_buffer_size) up.run;
    narrow = narrow;
    buffers = Buffers-SameRing announced _ _ _ up.rx_buffers;
    named = Named-SameRing announced _ e up.rx_fresh.named;
    short = λ s lt.
        subst (λ db. get_length db < 2 ^ 16) (sym (desc-SameRing announced s e))
          (omega (arith, up.rx_lengths s (omega (arith, announced.size)), narrow));
    counter = omega (arith, up.rx_unread);
    head = omega (arith, up.rx_unread, up.rx_fresh.head);
    tail = omega (arith, up.rx_unread, up.rx_fresh.tail);
    within = omega arith;
    bound = omega arith;
    whole = λ n from to. absurd (omega arith);
    holds = tt;
  }

  -- The slave reads once, and so offers its slots.
  abbrev offering : Ends
  offering = lower w (empty_world falling)

  abbrev offered_bytes : List ℕ
  offered_bytes = (empty-Offered falling).bytes

  slave_region : w.slave_rx.ring.region ≡ w.slave_tx.ring.region
  slave_region = up.rx_placed.region ∙ sym up.tx_placed.region

  master_region : w.master_tx.ring.region ≡ w.master_rx.ring.region
  master_region = sym announced.region ∙ slave_region ∙ sym ((up.announced tx_fd).region)

  sender_ring : RingKept tx rising.bytes offered_bytes
  unfolding rising falling ends-Stream
  sender_ring =
      Elsewhere-RingKept e offered_bytes (inl (omega (arith, up.apart, announced.offset)))
        (λ s lt.
          up.sends.buffers.outside s
            (omega (arith, announced.size, up.rx_at.slots, up.sends.ring_at.slots)))
        (empty-Step falling).elsewhere

  still_rising :
      (f : Stream x.run.packet_buffer_size
        (buffer_of x.run)
        x.run.log2_ring_size
        (up_end offering)
        [])
      × (offered_bytes ≡ f.bytes)
  unfolding Stream-RingKept
  still_rising =
      subst
        (λ (v : World).
          (f : Stream x.run.packet_buffer_size (buffer_of x.run) x.run.log2_ring_size v [])
          × (offered_bytes ≡ f.bytes))
        (up-lower {size = 0} {w = w} slave_region master_region (empty-Step falling))
        (Stream-RingKept offered_bytes rising sender_ring [] refl tt, refl)

  as_many : w.master_tx.ring.size ≡ tx.ring.size
  as_many = omega (arith, announced.size, up.rx_at.slots, up.sends.ring_at.slots)

  pub both-Duplex :
      Duplex x.run.packet_buffer_size
        (buffer_of x.run)
        x.run.log2_ring_size
        (pair_ends tx rx y m tx_fd rx_fd)
        no_packets
  unfolding rising falling ends-Stream
  both-Duplex = record {
    rising = rising;
    falling = falling;
    shared = refl;
    slave_region = slave_region;
    master_region = master_region;
    rings = omega (arith, up.apart, announced.offset);
    as_many = as_many;
  }

  both-Overlap :
      Overlap x.run.packet_buffer_size
        (buffer_of x.run)
        x.run.log2_ring_size
        offering
        w.master_tx.ring.size
  both-Overlap = record {
    rising = still_rising.0;
    falling = empty-Offered falling;
    shared = still_rising.1;
    slave_region = slave_region;
    master_region = master_region;
    rings = omega (arith, up.apart, announced.offset);
    as_many = as_many;
    slot =
        ap (λ k. k % w.master_tx.ring.size)
          (let z : (rx.last_tail + 0) % 2 ^ 16 ≡ 0 = omega (arith, up.rx_unread) in z)
        ∙ ap (λ k. 0 % k) as_many;
  }

  pub pair-overwritten :
      (p p' : List ℕ) (n : ℕ)
      → length p ≤ x.run.packet_buffer_size
      → length p' ≡ length p
      → x.run.packet_buffer_size ≤ n
      → (w' : Ends) × (calls
            (downward (read n) ∷ upward (write p) ∷ downward (write p') ∷ upward (read n) ∷ [])
            w
          ≡ some (packet true [] ∷ count (length p) ∷ count (length p') ∷ packet true p' ∷ [], w'))
  unfolding calls call
  pair-overwritten p p' n fits as_long enough =
      let (w', ran) =
        calls-overwritten both-Overlap p p' fits as_long
          (omega (arith, as_many, size-pos up.sends.ring_at)) n enough in
      (w', rw (act-read_empty falling n, ran) refl)

-- On a system that accepts every request, initializeQueues of a slave that is laid out, with one queue
-- pair and packet buffers of less than 64 KiB, gives both rings of the pair the same packet buffers:
-- with a master that has mapped the slave's bytes `e` then, and taken up both queues as parseAddRing
-- does, when the slave has called ReadPacket once, and then the slave has written a packet `p` that
-- fits a buffer and the master a packet `p'` of the same length, both with their counts and no error,
-- the master's ReadPacket, with a buffer that any packet fits, returns `p'`, its own packet, and
-- not `p`.
pub initialize_queues-overwritten :
    (os : Os) (accepts : (calls : List Call) (c : Call) → ((v : ℕ) × (os.reply calls c ≡ some v)))
    (i : ℕ) (s : Socket) (x : Interface) (d : List ℕ) (m : List ℕ → Interface) (tx_fd rx_fd n : ℕ)
    (p p' : List ℕ)
    → get_elem? s.interfaces i ≡ some x
    → LaidOut x d
    → x.run.packet_buffer_size < 2 ^ 16
    → ((e : List ℕ) → (m e).args.is_master ≡ true)
    → ((e : List ℕ) → region_data (m e) 0 ≡ some e)
    → length p ≤ x.run.packet_buffer_size
    → length p' ≡ length p
    → x.run.packet_buffer_size ≤ n
    → (tx : Queue) × (rx : Queue) × (y : Interface) × (e : List ℕ) × (s' : Socket) × (w' : Ends)
      × (initialize_queues os i s ≡ done tt s')
      × (get_elem? s'.interfaces i ≡ some y)
      × (y.tx_queues ≡ x.tx_queues ++ (tx ∷ []))
      × (y.rx_queues ≡ x.rx_queues ++ (rx ∷ []))
      × (region_data y 0 ≡ some e)
      × (calls
            (downward (read n) ∷ upward (write p) ∷ downward (write p') ∷ upward (read n) ∷ [])
            (pair_ends tx rx y (m e) tx_fd rx_fd)
          ≡ some (packet true [] ∷ count (length p) ∷ count (length p') ∷ packet true p' ∷ [], w'))
initialize_queues-overwritten os accepts i s x d m tx_fd rx_fd n p p' there laid narrow role mapped
      fits as_long enough =
    let (tx, rx, y, e, s', ok, here, up, beside) =
      initialize_queues-SetUp os accepts i s x d there laid in
    let (w', ran) =
      pair-overwritten up (m e) (role e) (mapped e) narrow tx_fd rx_fd p p' n fits as_long enough in
    (tx, rx, y, e, s', w', ok, here, up.tx_queues, up.rx_queues, up.own, ran)
