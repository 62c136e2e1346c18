-- ===== src/Setup/Traffic.antt =====
-- Packets through a ring that initializeRegions and initializeQueues of memif-new/memif/interface.go has set up: WritePacket
-- (packet_writer.go) and ReadPacket (packet_reader.go).
use memif.Prelude.{
  refl, false, ◌<◌, ap, ◌∙◌, length, ℕ, ◌^◌, ◌≡◌, arith, sym, subst, true, List, [], ◌∷◌, ◌++◌,
  some, get_elem?,
}
use memif.Types.{Interface, Queue, MemoryConfig}
use memif.Types.Os.{Os, Call}
use memif.Ring.{new_ring}
use memif.Queue.{region_data}
use memif.Packet.Stream.{World, Action, run, queue_run}
use memif.Packet.Transfer.{SameRing}
use memif.Packet.Stream.State.{Stream}
use memif.Packet.Stream.Refine.{AllFit, run_refines}
use memif.Socket.{Socket, done, ◌>>◌}
use memif.Setup.{initialize_regions, initialize_queues}
use memif.Setup.Write.{bind-done}
use memif.Setup.Regions.{initialize_regions-LaidOut}
use memif.Region.Layout.{Fits}
use memif.Setup.Pair.{LaidOut, SetUp, peer_of, initialize_queues-SetUp}
use memif.Setup.Queues.{buffer_of}

-- A slave whose queue is set up, and a master that has mapped the same bytes and took up the queue
-- that was announced.
abbrev pub ends : Queue → Interface → Interface → ℕ → World
ends tx y m fd = record { tx = tx; sender = y; rx = peer_of tx fd; receiver = m }

module _ {x y m : Interface} {tx rx : Queue} {e : List ℕ} (up : SetUp x tx rx y e)
    (role : m.args.is_master ≡ true) (peer : Queue) (same : SameRing tx peer)
    (unread : peer.last_head ≡ 0) (mapped : region_data m peer.ring.region ≡ some e) where
  unfoldable pub ends-Stream :
      Stream x.run.packet_buffer_size
        (buffer_of x.run)
        x.run.log2_ring_size
        (record { tx = tx; sender = y; rx = peer; receiver = m })
        []
  ends-Stream = record {
    bytes = e;
    ring_at = up.sends.ring_at;
    same = same;
    sends = up.sends.role;
    receives = role;
    slave_maps = up.sends.mapped;
    master_maps = mapped;
    buffer_size = up.sends.buffer_size;
    narrow = up.narrow;
    buffers = up.sends.buffers;
    named = up.sends.named;
    tail = up.tx_fresh.tail ∙ sym unread;
    counter = omega (arith, unread);
    head = omega (arith, unread, up.tx_fresh.head);
    bound = omega arith;
    holds = tt;
  }

-- The new queue and any calls on it, for a slave that is laid out.
initialize_queues-run :
    (os : Os) (accepts : (calls : List Call) (c : Call) → ((v : ℕ) × (os.reply calls c ≡ some v)))
    (i : ℕ) (s : Socket) (x : Interface) (d : List ℕ) (m : List ℕ → Interface) (fd : ℕ)
    (acts : List Action)
    → get_elem? s.interfaces i ≡ some x
    → LaidOut x d
    → ((e : List ℕ) → (m e).args.is_master ≡ true)
    → ((e : List ℕ) → region_data (m e) 0 ≡ some e)
    → AllFit x.run.packet_buffer_size acts
    → (tx : Queue) × (y : Interface) × (e : List ℕ) × (s' : Socket) × (w' : World)
      × (initialize_queues os i s ≡ done tt s')
      × (get_elem? s'.interfaces i ≡ some y)
      × (y.tx_queues ≡ x.tx_queues ++ (tx ∷ []))
      × (region_data y 0 ≡ some e)
      × (run acts (ends tx y (m e) fd)
          ≡ some ((queue_run (2 ^ x.run.log2_ring_size) acts []).0, w'))
unfolding new_ring
initialize_queues-run os accepts i s x d m fd acts there laid role mapped fit =
    let (tx, rx, y, e, s', ok, here, up, beside) =
      initialize_queues-SetUp os accepts i s x d there laid in
    let (w', ran, _) =
      run_refines acts _ [] fit
        (ends-Stream up (role e) (peer_of tx fd) (up.announced fd) refl (mapped e)) in
    (
      tx,
      y,
      e,
      s',
      w',
      ok,
      here,
      up.tx_queues,
      up.own,
      subst (λ (n : ℕ). run acts (ends tx y (m e) fd) ≡ some ((queue_run n acts []).0, w'))
          up.sends.ring_at.slots ran,
    )

-- On a system that accepts every request and maps as many bytes as it is asked for, a slave without
-- regions and with one queue pair, whose rings take less than 64 KiB and whose region less than 4 GiB,
-- sets up an empty queue: initializeRegions and then initializeQueues succeed with a new queue to send
-- on; and with a master that has mapped the slave's bytes `e` then, and whose queue is the one that
-- parseAddRing makes of the slave's, the calls of WritePacket and ReadPacket, in any number and order,
-- with no written packet longer than a packet buffer and no buffer read into shorter, all return, and
-- answer as a first-in-first-out queue does that begins empty and has room for as many packets as the
-- ring has slots.
pub initialize_regions-run :
    (os : Os) (accepts : (calls : List Call) (c : Call) → ((v : ℕ) × (os.reply calls c ≡ some v)))
    (i : ℕ) (s : Socket) (x : Interface) (m : List ℕ → Interface) (fd : ℕ) (acts : List Action)
    → ((calls : List Call) (f size : ℕ) → length (os.mapped calls f size) ≡ size)
    → get_elem? s.interfaces i ≡ some x
    → x.regions ≡ []
    → x.args.is_master ≡ false
    → x.run.num_queue_pairs ≡ 1
    → Fits x.run
    → 0 < x.run.packet_buffer_size
    → ((e : List ℕ) → (m e).args.is_master ≡ true)
    → ((e : List ℕ) → region_data (m e) 0 ≡ some e)
    → AllFit x.run.packet_buffer_size acts
    → (tx : Queue) × (y : Interface) × (e : List ℕ) × (s' : Socket) × (w' : World)
      × ((initialize_regions os i >> initialize_queues os i) s ≡ done tt s')
      × (get_elem? s'.interfaces i ≡ some y)
      × (y.tx_queues ≡ x.tx_queues ++ (tx ∷ []))
      × (region_data y 0 ≡ some e)
      × (run acts (ends tx y (m e) fd)
          ≡ some ((queue_run (2 ^ x.run.log2_ring_size) acts []).0, w'))
initialize_regions-run os accepts i s x m fd acts whole there empty slave one fits pos role mapped
      fit =
    let (x₁, d, s₁, made, here, laid, same, sends, rest) =
      initialize_regions-LaidOut os accepts i x s there empty slave one fits pos whole in
    let (tx, y, e, s', w', ok, there', new, own, ran) =
      initialize_queues-run os accepts i s₁ x₁ d m fd acts here laid role mapped
        (subst (λ (r : MemoryConfig). AllFit r.packet_buffer_size acts) (sym same) fit) in
    (
      tx,
      y,
      e,
      s',
      w',
      bind-done (initialize_regions os i) _ tt s s₁ made ∙ ok,
      there',
      new ∙ ap (λ qs. qs ++ (tx ∷ [])) sends,
      own,
      subst
          (λ (r : MemoryConfig).
            run acts (ends tx y (m e) fd) ≡ some ((queue_run (2 ^ r.log2_ring_size) acts []).0, w'))
          same ran,
    )
