-- ===== src/Setup/Pair.antt =====
-- What initializeQueues of memif-new/memif/interface.go leaves of a slave with one queue pair, as many
-- as is the default.
use memif.Prelude.{
  refl, ℕ, ◌+◌, ◌*◌, ◌^◌, ◌≤◌, ◌<◌, ◌≡◌, inl, ap, sym, ◌∙◌, arith, subst, true, false, List, [],
  ◌∷◌, ◌++◌, length, some, get_elem?,
}
use memif.Desc.{DescBuf, get_region, get_length}
use memif.Desc.Fields.{IsDesc}
use memif.Types.{Interface, Queue, Arguments, MemoryConfig, RingType, s2m, m2s}
use memif.Types.Os.{Os, Call}
use memif.Region.{packet_buffer_offset, region_size}
use memif.Region.Layout.{Fits, mul-le, ring_count, ring_extent, region_size-eq}
use memif.Queue.{region_data}
use memif.Queue.View.{RingAt, size-pos}
use memif.Packet.Stream.Holds.{Buffers, slot_desc}
use memif.Ring
use memif.Ring.{interface_new_ring, new_ring}
use memif.Packet.Transfer.{SameRing}
use memif.Channel.Parse.{peer_queue}
use memif.Packet.Chain.Ready.{Ready}
use memif.Socket.{Socket, done}
use memif.Setup.{initialize_queues}
use memif.Setup.Write.{FirstBuffers, shapes, last_desc}
use memif.Setup.Round.{
  new_queue, queue_bytes, Rounded, Beside, initialize_queue-Rounded, round-Rounded,
  offset-new_queue, size-new_queue, region-new_queue,
}
use memif.Setup.Memory.{Fresh, length-after, after_frame, after-Fresh, after-lengths}
use memif.Setup.Queues.{
  buffer_of, ring_fits, queue-Buffers, queue-RingAt, Fresh-frame, last_desc-kept, initial_desc,
  initial_desc-kept, both_loops,
}

-- A slave whose one region is laid out and mapped, and that has one queue pair.
pub record LaidOut (x : Interface) (d : List ℕ) : Type 0 where
  pub slave : x.args.is_master ≡ false
  pub one_pair : x.run.num_queue_pairs ≡ 1
  pub fits : Fits x.run
  pub some_bytes : 0 < x.run.packet_buffer_size
  pub buffers : FirstBuffers x (packet_buffer_offset x.run true)
  pub mapped : region_data x 0 ≡ some d
  pub whole : length d ≡ region_size x.run true true

-- The queue of a master that has read the message announcing `q`.
abbrev pub peer_of : Queue → ℕ → Queue
peer_of q fd = peer_queue s2m q.ring.region q.ring.offset q.ring.log2_size fd

-- The same for the queue on which the slave receives.
abbrev pub peer_of_rx : Queue → ℕ → Queue
peer_of_rx q fd = peer_queue m2s q.ring.region q.ring.offset q.ring.log2_size fd

-- Where a slave's ring is, and its size, as they are announced.
pub record Placed (run : MemoryConfig) (q : Queue) : Type 0 where
  pub region : q.ring.region ≡ 0
  pub offset : q.ring.offset < 2 ^ 16
  pub log2 : q.ring.log2_size ≡ run.log2_ring_size

-- Both queues, and the slave that has them.
pub record SetUp (x : Interface) (tx rx : Queue) (y : Interface) (e : List ℕ) : Type 0 where
  pub args : y.args ≡ x.args
  pub run : y.run ≡ x.run
  pub shaped : shapes y.regions ≡ shapes x.regions
  pub own : region_data y 0 ≡ some e
  pub tx_queues : y.tx_queues ≡ x.tx_queues ++ (tx ∷ [])
  pub rx_queues : y.rx_queues ≡ x.rx_queues ++ (rx ∷ [])
  pub sends : Ready tx x.run.log2_ring_size x.run.packet_buffer_size (buffer_of x.run) y e
  pub tx_fresh : Fresh tx (buffer_of x.run) e
  pub rx_at : RingAt rx x.run.log2_ring_size e
  pub rx_fresh : Fresh rx (buffer_of x.run) e
  pub tx_placed : Placed x.run tx
  pub rx_placed : Placed x.run rx
  pub announced : (fd : ℕ) → SameRing tx (peer_of tx fd)
  pub rx_buffers : Buffers rx x.run.packet_buffer_size (buffer_of x.run) (length e)
  pub rx_lengths :
      (k : ℕ) → k < rx.ring.size → get_length (slot_desc rx k e) ≡ x.run.packet_buffer_size
  pub rx_unread : rx.last_tail ≡ 0
  pub rx_announced : (fd : ℕ) → SameRing (peer_of_rx rx fd) rx
  pub narrow : x.run.packet_buffer_size < 2 ^ 32
  pub apart : tx.ring.offset + 128 + 16 * tx.ring.size ≤ rx.ring.offset

module _ (x : Interface) (d : List ℕ) (laid : LaidOut x d) (tx_fd rx_fd : ℕ) where
  abbrev tx : Queue
  tx = new_queue x.run s2m tx_fd

  abbrev rx : Queue
  rx = new_queue x.run m2s rx_fd

  abbrev first : ℕ
  first = packet_buffer_offset x.run true

  abbrev n : ℕ
  n = 2 ^ x.run.log2_ring_size

  ordered : tx.ring.offset + 128 + 16 * tx.ring.size ≤ rx.ring.offset
  ordered = omega (
    arith,
    offset-new_queue x.run laid.fits s2m tx_fd,
    offset-new_queue x.run laid.fits m2s rx_fd
        ∙ ap (λ (k : ℕ). (k + 0) * ring_extent x.run) laid.one_pair,
    size-new_queue x.run laid.fits s2m tx_fd,
  )

  -- The bytes after the first round, and after the second.
  abbrev desc₁ : DescBuf
  desc₁ = last_desc x.run first n 0 (initial_desc x.run)

  abbrev d₁ : List ℕ
  d₁ = queue_bytes tx x.run n first (initial_desc x.run) d

  desc₁-kept :
      IsDesc desc₁ × (get_region desc₁ ≡ 0) × (get_length desc₁ ≡ get_length (initial_desc x.run))
  desc₁-kept =
      last_desc-kept x.run first n 0 (initial_desc x.run) (initial_desc-kept x.run).0
        (initial_desc-kept x.run).1

  abbrev d₂ : List ℕ
  d₂ = queue_bytes rx x.run n first desc₁ d₁

  length-d₁ : length d₁ ≡ length d
  length-d₁ =
      length-after x.run laid.fits s2m tx_fd first (initial_desc x.run) (initial_desc-kept x.run).0
        d

  length-d₂ : length d₂ ≡ region_size x.run true true
  length-d₂ =
      length-after x.run laid.fits m2s rx_fd first desc₁ desc₁-kept.0 d₁ ∙ length-d₁ ∙ laid.whole

  tx_at : RingAt tx x.run.log2_ring_size d₂
  tx_at = queue-RingAt x.run laid.fits laid.some_bytes s2m tx_fd d₂ length-d₂

  rx_ready : RingAt rx x.run.log2_ring_size d₂
  rx_ready = queue-RingAt x.run laid.fits laid.some_bytes m2s rx_fd d₂ length-d₂

  tx_made : Fresh tx (buffer_of x.run) d₁
  tx_made =
      after-Fresh x.run laid.fits s2m tx_fd first (initial_desc x.run) (initial_desc-kept x.run).0 d
        (omega (arith, tx_at.inside, length-d₂, laid.whole)) (initial_desc-kept x.run).1

  rx_made : Fresh rx (buffer_of x.run) d₂
  rx_made =
      after-Fresh x.run laid.fits m2s rx_fd first desc₁ desc₁-kept.0 d₁
        (omega (arith, rx_ready.inside, length-d₂, length-d₁, laid.whole)) desc₁-kept.1

  tx_kept : Fresh tx (buffer_of x.run) d₂
  tx_kept =
      Fresh-frame tx (buffer_of x.run) d₁ d₂ (size-pos tx_at)
        (λ lo m from to.
          after_frame x.run laid.fits m2s rx_fd first desc₁ desc₁-kept.0 d₁ lo m
            (inl (omega (arith, ordered))))
        tx_made

  queue-Placed : (t : RingType) (fd : ℕ) → Placed x.run (new_queue x.run t fd)
  unfolding new_queue interface_new_ring Ring.set_flags Ring.set_cookie
  queue-Placed t fd = record {
    region = region-new_queue x.run laid.fits t fd;
    offset = omega (arith, ring_fits x.run laid.fits laid.some_bytes t fd, laid.fits.rings);
    log2 = refl;
  }

  tx-announced : (fd : ℕ) → SameRing tx (peer_of tx fd)
  unfolding new_queue interface_new_ring new_ring Ring.set_flags Ring.set_cookie
  tx-announced fd = record { region = refl; offset = refl; size = refl }

  rx-announced : (fd : ℕ) → SameRing (peer_of_rx rx fd) rx
  unfolding new_queue interface_new_ring new_ring Ring.set_flags Ring.set_cookie
  rx-announced fd = record { region = refl; offset = refl; size = refl }

  rx-unread : rx.last_tail ≡ 0
  unfolding new_queue
  rx-unread = refl

  size-lt : x.run.packet_buffer_size < 2 ^ 32
  size-lt = omega (
    arith,
    laid.fits.buffers,
    mul-le 1 n x.run.packet_buffer_size
        (omega (arith, size-pos rx_ready, size-new_queue x.run laid.fits m2s rx_fd)),
    mul-le 1 (ring_count x.run) (x.run.packet_buffer_size * n) (omega (arith, laid.fits.some_pair)),
  )

  rx-lengths :
      (k : ℕ) → k < rx.ring.size → get_length (slot_desc rx k d₂) ≡ x.run.packet_buffer_size
  rx-lengths k lt =
      after-lengths x.run laid.fits m2s rx_fd first desc₁ desc₁-kept.0 d₁
        (omega (arith, rx_ready.inside, length-d₂, length-d₁, laid.whole)) k lt
      ∙ desc₁-kept.2
      ∙ (initial_desc-kept x.run).2
      ∙ omega (arith, size-lt)

  -- What the rounds of both loops leave.
  both-SetUp :
      (x₁ y : Interface)
      → Rounded x.run s2m n first (initial_desc x.run) x x₁ d tx
      → Rounded x.run m2s n first desc₁ x₁ y d₁ rx
      → SetUp x tx rx y d₂
  both-SetUp x₁ y sent received = record {
    args = received.args ∙ sent.args;
    run = received.run;
    shaped = received.shaped ∙ sent.shaped;
    own = received.mapped;
    tx_queues = received.tx ∙ sent.tx;
    rx_queues = received.rx ∙ ap (λ qs. qs ++ (rx ∷ [])) sent.rx;
    sends = record {
      role = ap (λ (a : Arguments). a.is_master) (received.args ∙ sent.args) ∙ laid.slave;
      buffer_size = ap (λ (r : MemoryConfig). r.packet_buffer_size) received.run;
      mapped =
          subst (λ k. region_data y k ≡ some d₂) (sym (region-new_queue x.run laid.fits s2m tx_fd))
            received.mapped;
      ring_at = tx_at;
      buffers =
          subst (Buffers tx x.run.packet_buffer_size (buffer_of x.run)) (sym length-d₂)
            (queue-Buffers x.run laid.fits laid.some_bytes s2m tx_fd);
      named = tx_kept.named;
    };
    tx_fresh = tx_kept;
    rx_at = rx_ready;
    rx_fresh = rx_made;
    tx_placed = queue-Placed s2m tx_fd;
    rx_placed = queue-Placed m2s rx_fd;
    announced = tx-announced;
    rx_buffers =
        subst (Buffers rx x.run.packet_buffer_size (buffer_of x.run)) (sym length-d₂)
          (queue-Buffers x.run laid.fits laid.some_bytes m2s rx_fd);
    rx_lengths = rx-lengths;
    rx_unread = rx-unread;
    rx_announced = rx-announced;
    narrow = size-lt;
    apart = ordered;
  }

module _ (os : Os)
    (accepts : (calls : List Call) (c : Call) → ((v : ℕ) × (os.reply calls c ≡ some v))) (i : ℕ)
    (s : Socket) (x : Interface) (d : List ℕ) where
  -- On a system that accepts every request, initializeQueues succeeds for the slave `x`, whose one
  -- region `d` is laid out and mapped and which has one queue pair: it gets one queue of each kind,
  -- apart from each other, with a cookie, both indices 0 and a descriptor in every slot that names the
  -- slot's buffer, which is another for each slot of a ring but the same in both rings; the descriptors
  -- of the queue it receives on have the length of a buffer, the queue it sends on is ready for
  -- WritePacket, and a peer that takes up a queue as announced has the same ring; the socket's channels
  -- stay.
  pub initialize_queues-SetUp :
      get_elem? s.interfaces i ≡ some x
      → LaidOut x d
      → (tx : Queue) × (rx : Queue) × (y : Interface) × (e : List ℕ) × (s' : Socket)
        × (initialize_queues os i s ≡ done tt s')
        × (get_elem? s'.interfaces i ≡ some y)
        × SetUp x tx rx y e
        × Beside s s'
  initialize_queues-SetUp there laid =
      let room : ring_count x.run * ring_extent x.run ≤ length d =
        omega (arith, laid.whole, region_size-eq x.run laid.fits) in
      let small : length d < 2 ^ 63 =
        omega (arith, laid.whole, region_size-eq x.run laid.fits, laid.fits.buffers) in
      let (tx_fd, x₁, s₁, sent, there₁, made₁, beside₁) =
        initialize_queue-Rounded os accepts i s2m (first x d laid 0 0) (initial_desc x.run) x d s
          there laid.fits laid.buffers laid.mapped room small in
      let same = length-d₁ x d laid tx_fd 0 in
      let (rx_fd, y, s₂, received, there₂, made₂, beside₂) =
        round-Rounded os accepts i m2s (first x d laid tx_fd 0) (desc₁ x d laid tx_fd 0) x₁
          (d₁ x d laid tx_fd 0) s₁ x.run made₁.run there₁ laid.fits made₁.first_buffers made₁.mapped
          (omega (arith, same, room)) (omega (arith, same, small)) in
      (
        tx x d laid tx_fd rx_fd,
        rx x d laid tx_fd rx_fd,
        y,
        d₂ x d laid tx_fd rx_fd,
        s₂,
        both_loops os accepts i x s s₁ s₂ _ _ there laid.one_pair sent received,
        there₂,
        both-SetUp x d laid tx_fd rx_fd x₁ y made₁ made₂,
        record {
          channels = beside₂.channels ∙ beside₁.channels;
          app_name = beside₂.app_name ∙ beside₁.app_name;
        },
      )
