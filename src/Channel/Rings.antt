-- ===== src/Channel/Rings.antt =====
-- A ring from the slave that announces it to the master that takes it up (msgEnqAddRing and
-- parseAddRing of memif-new/memif/control_channel.go).
use memif.Prelude.{
  ℕ, ◌^◌, ◌<◌, ◌≡◌, refl, sym, ap, ◌∙◌, arith, List, [], ◌∷◌, ◌++◌, some, get_elem?, set, drop,
  lt→leb,
}
use memif.Bytes.{to_le}
use memif.Types.{Interface, Queue, RingType, s2m, m2s}
use memif.Ring.{int, new_ring}
use memif.Types.Os.{rights}
use memif.Message.{
  MsgAddRing, msg_type_code, add_ring_type, msg_type_size, write_add_ring, read_add_ring,
}
use memif.Message.RoundTrip.{IsAddRing, read_add_ring-sent}
use memif.Channel.{msg_enq_add_ring, enqueue}
use memif.Channel.Hello.{Received}
use memif.Channel.Parse.{body, parse_add_ring, parse_control_msg, scan_rights, peer_queue}
use memif.Socket.{
  Socket, ControlChannel, ControlMsg, done, ◌>>=◌, get_interface, put_interface, get_channel,
  put_channel, channel_interface,
}

-- The queues of a slave that send, and those that receive.
abbrev pub own_queues : RingType → Interface → List Queue
own_queues s2m x = x.tx_queues
own_queues m2s x = x.rx_queues

-- The master receives where the slave sends.
abbrev pub take_up : RingType → Queue → Interface → Interface
take_up s2m q y = record y { rx_queues = y.rx_queues ++ (q ∷ []) }
take_up m2s q y = record y { tx_queues = y.tx_queues ++ (q ∷ []) }

abbrev pub direction : RingType → ℕ
direction s2m = 1
direction m2s = 0

abbrev pub ring_of : RingType → ℕ → Queue → MsgAddRing
ring_of t k q = record {
  flags = direction t;
  index = k;
  region = q.ring.region;
  offset = q.ring.offset;
  ring_size_log2 = q.ring.log2_size;
  private_hdr_size = 0;
}

abbrev pub ring_msg : RingType → ℕ → Queue → ControlMsg
ring_msg t k q = record {
  buffer = to_le 2 (msg_type_code add_ring_type) ++ write_add_ring (ring_of t k q);
  fd = some q.interrupt_fd;
}

pub announced :
    {s : Socket} {c i : ℕ} {ch : ControlChannel} {x : Interface} (t : RingType) (k : ℕ) (q : Queue)
    → Received s c i ch x
    → get_elem? (own_queues t x) k ≡ some q
    → msg_enq_add_ring c t k s
      ≡ done tt (record s {
        channels =
            set s.channels c (record ch { msg_queue = ch.msg_queue ++ (ring_msg t k q ∷ []) });
      })
unfolding msg_enq_add_ring enqueue get_channel put_channel get_interface channel_interface ◌>>=◌
announced s2m k q r there = ground (arith, r.channel, r.owner, r.interface, there)
announced m2s k q r there = ground (arith, r.channel, r.owner, r.interface, there)

pub taken_up :
    {s : Socket} {c i : ℕ} {ch : ControlChannel} {y : Interface} (t : RingType) (k : ℕ) (q : Queue)
    (fd : ℕ)
    → Received s c i ch y
    → read_add_ring (drop msg_type_size ch.payload) ≡ ring_of t k q
    → ch.control ≡ some (rights (some (fd ∷ [])) ∷ [])
    → k < y.run.num_queue_pairs
    → parse_add_ring c s
      ≡ done tt (record s {
        interfaces =
            set s.interfaces i
              (take_up t (peer_queue t q.ring.region q.ring.offset q.ring.log2_size fd) y);
      })
unfolding parse_add_ring parse_control_msg scan_rights body get_channel put_channel get_interface
    put_interface channel_interface ◌>>=◌
taken_up {y = y} s2m k q fd r read control inside =
    ground
      (arith, r.channel, r.owner, r.interface, read, control, lt→leb y.run.num_queue_pairs k inside)
taken_up {y = y} m2s k q fd r read control inside =
    ground
      (arith, r.channel, r.owner, r.interface, read, control, lt→leb y.run.num_queue_pairs k inside)

-- A slave that announces one of its rings puts one message in its channel's queue; and a master
-- whose channel receives that message's bytes, followed by anything, with one descriptor, and
-- whose queue pairs take in the ring's index, adds one queue to the kind that faces the slave's:
-- its ring has the slave's direction, offset, size and logarithm of the size, and its interrupt
-- descriptor is the one received. Nothing else of the two sockets changes.
pub ring_setup :
    (ring_type : RingType) (k fd : ℕ) (q : Queue) (rest : List ℕ) (s : Socket) (c i : ℕ)
    (ch : ControlChannel) (x : Interface) (t : Socket) (d j : ℕ) (peer : ControlChannel)
    (y : Interface)
    → Received s c i ch x
    → get_elem? (own_queues ring_type x) k ≡ some q
    → q.ring.size ≡ int (2 ^ q.ring.log2_size)
    → IsAddRing (ring_of ring_type k q)
    → Received t d j peer y
    → peer.payload ≡ (ring_msg ring_type k q).buffer ++ rest
    → peer.control ≡ some (rights (some (fd ∷ [])) ∷ [])
    → k < y.run.num_queue_pairs
    → (msg_enq_add_ring c ring_type k s
        ≡ done tt (record s {
          channels =
              set s.channels c
                (record ch { msg_queue = ch.msg_queue ++ (ring_msg ring_type k q ∷ []) });
        }))
      × (r : Queue) × (parse_add_ring d t
          ≡ done tt (record t { interfaces = set t.interfaces j (take_up ring_type r y) }))
      × (r.ring.ring_type ≡ ring_type)
      × (r.ring.offset ≡ q.ring.offset)
      × (r.ring.size ≡ q.ring.size)
      × (r.ring.log2_size ≡ q.ring.log2_size)
      × (r.interrupt_fd ≡ fd)
unfolding new_ring
ring_setup ring_type k fd q rest s c i ch x t d j peer y own there sized fits facing payload control
      inside =
    let read : read_add_ring (drop msg_type_size peer.payload) ≡ ring_of ring_type k q =
      ap (λ xs. read_add_ring (drop msg_type_size xs)) payload
      ∙ read_add_ring-sent (to_le 2 (msg_type_code add_ring_type)) (ring_of ring_type k q) rest refl
          fits in
    (
      announced ring_type k q own there,
      peer_queue ring_type q.ring.region q.ring.offset q.ring.log2_size fd,
      taken_up ring_type k q fd facing read control inside,
      refl,
      refl,
      sym sized,
      refl,
      refl,
    )
