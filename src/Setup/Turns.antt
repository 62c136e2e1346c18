-- ===== src/Setup/Turns.antt =====
-- Packets through both rings of a pair that initializeQueues of memif-new/memif/interface.go has set up: what
-- WritePacket (packet_writer.go) and ReadPacket (packet_reader.go) do at all four ends.
use memif.Prelude.{ℕ, ◌^◌, ◌<◌, ◌≡◌, true, List, [], ◌∷◌, ◌++◌, some, get_elem?}
use memif.Types.{Interface, Queue}
use memif.Types.Os.{Os, Call}
use memif.Queue.{region_data}
use memif.Socket.{Socket, done}
use memif.Packet.Duplex.{Ends, EndCall, calls, queues_calls}
use memif.Packet.Duplex.Refine.{BothFit, InTurn, calls_refine}
use memif.Setup.{initialize_queues}
use memif.Setup.Pair.{LaidOut, initialize_queues-SetUp}
use memif.Setup.Overlap.{pair_ends, no_packets, both-Duplex}

-- On a system that accepts every request, initializeQueues of a slave that is laid out, with one queue
-- pair and packet buffers of less than 64 KiB, sets up two queues of packets, one in each direction:
-- with a master that has mapped the slave's bytes `e` then, and taken up both queues as parseAddRing
-- does, WritePacket and ReadPacket at all four ends, called any number of times in any order in which no
-- written packet is longer than a packet buffer, no buffer read into is shorter, and no side writes
-- while a packet is on its way to it, all return, and answer as two first-in-first-out queues do that
-- begin empty: one for the slave's packets, with room for as many as the ring has slots; one for the
-- master's, which takes none before the slave's first read, and as many as the ring has slots after
-- that.
pub initialize_queues-calls :
    (os : Os) (accepts : (calls : List Call) (c : Call) → ((v : ℕ) × (os.reply calls c ≡ some v)))
    (i : ℕ) (s : Socket) (x : Interface) (d : List ℕ) (m : List ℕ → Interface) (tx_fd rx_fd : ℕ)
    (cs : List EndCall)
    → get_elem? s.interfaces i ≡ some x
    → LaidOut x d
    → x.run.packet_buffer_size < 2 ^ 16
    → ((e : List ℕ) → (m e).args.is_master ≡ true)
    → ((e : List ℕ) → region_data (m e) 0 ≡ some e)
    → BothFit x.run.packet_buffer_size cs
    → InTurn (2 ^ x.run.log2_ring_size) (2 ^ x.run.log2_ring_size) cs no_packets
    → (tx : Queue) × (rx : Queue) × (y : Interface) × (e : List ℕ) × (s' : Socket) × (w' : Ends)
      × (initialize_queues os i s ≡ done tt s')
      × (get_elem? s'.interfaces i ≡ some y)
      × (y.tx_queues ≡ x.tx_queues ++ (tx ∷ []))
      × (y.rx_queues ≡ x.rx_queues ++ (rx ∷ []))
      × (region_data y 0 ≡ some e)
      × (calls cs (pair_ends tx rx y (m e) tx_fd rx_fd)
          ≡ some (
            (queues_calls (2 ^ x.run.log2_ring_size) (2 ^ x.run.log2_ring_size) cs no_packets).0,
            w',
          ))
initialize_queues-calls os accepts i s x d m tx_fd rx_fd cs there laid narrow role mapped fit turn =
    let (tx, rx, y, e, s', ok, here, up, beside) =
      initialize_queues-SetUp os accepts i s x d there laid in
    let (w', ran, after) =
      calls_refine cs (pair_ends tx rx y (m e) tx_fd rx_fd) no_packets fit turn
        (both-Duplex up (m e) (role e) (mapped e) narrow tx_fd rx_fd) in
    (tx, rx, y, e, s', w', ok, here, up.tx_queues, up.rx_queues, up.own, ran)
