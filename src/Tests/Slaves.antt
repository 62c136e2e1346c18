-- ===== src/Tests/Slaves.antt =====
-- A slave with one queue pair and two slots in a ring, before and after its queues are set up.
use memif.Prelude.{
  length-replicate, ◌++◌, ℕ, ◌≡◌, refl, arith, true, false, List, [], ◌∷◌, some, replicate,
  get_elem?,
}
use memif.Types.{Interface, Queue}
use memif.Types.Os.{Os, Call}
use memif.Queue.{region_data}
use memif.Region.{packet_buffer_offset, region_size}
use memif.Socket.{Socket, done, ◌>>◌}
use memif.Setup.{initialize_regions, initialize_queues}
use memif.Setup.Pair.{LaidOut, SetUp, initialize_queues-SetUp}
use memif.Setup.Round.{Beside}
use memif.Setup.Traffic.{ends, initialize_regions-run}
use memif.Packet.Stream.{World, Action, write, read, run, queue_run, count, packet as received}
use memif.Packet.Stream.{queue_act}
use memif.Packet.Credit.{credit_act}
use memif.Packet.Duplex.{
  Ends, EndCall, upward, downward, calls as both_calls, queues_call, queues_calls,
}
use memif.Packet.Duplex.Refine.{InTurn}
use memif.Setup.Turns.{initialize_queues-calls}
use memif.Setup.Overlap.{pair_ends, no_packets, initialize_queues-overwritten}
use memif.Tests.Data.{interface_with, quiet_os, socket, packet}

-- Two rings of 160 bytes, and four buffers of four.
abbrev bytes : List ℕ
bytes = replicate 336 0

abbrev slave : Interface
slave = record (interface_with false []) {
  regions = record { bytes = some bytes; size = 336; fd = 5; packet_buffer_offset = 320 } ∷ [];
}

abbrev before : Socket
before = socket slave (some 0) [] []

abbrev pub accepts : (calls : List Call) (c : Call) → ((v : ℕ) × (quiet_os.reply calls c ≡ some v))
accepts calls c = (0, refl)

slave-LaidOut : LaidOut slave bytes
unfolding region_data packet_buffer_offset region_size
slave-LaidOut = record {
  slave = refl;
  one_pair = refl;
  fits = record { some_pair = omega arith; rings = omega arith; buffers = omega arith };
  some_bytes = omega arith;
  buffers =
      (record { bytes = some bytes; size = 336; fd = 5; packet_buffer_offset = 320 }, refl, refl);
  mapped = refl;
  whole = refl;
}

initialize_queues-SetUp_example :
    (tx : Queue) × (rx : Queue) × (y : Interface) × (e : List ℕ) × (s' : Socket)
    × (initialize_queues quiet_os 0 before ≡ done tt s')
    × (get_elem? s'.interfaces 0 ≡ some y)
    × SetUp slave tx rx y e
    × Beside before s'
initialize_queues-SetUp_example =
    initialize_queues-SetUp quiet_os accepts 0 before slave bytes refl slave-LaidOut

-- A master, once it has mapped a slave's region.
abbrev master : List ℕ → Interface
master e = record (interface_with true []) {
  regions = record { bytes = some e; size = 336; fd = 5; packet_buffer_offset = 0 } ∷ [];
}

master_maps : (e : List ℕ) → region_data (master e) 0 ≡ some e
unfolding region_data
master_maps e = refl

-- Three writes to two slots, and reads.
abbrev pub calls : List Action
calls = read 4 ∷ write packet ∷ write (1 ∷ []) ∷ write (2 ∷ []) ∷ read 4 ∷ read 8 ∷ read 4 ∷ []

abbrev pub unmapped_slave : Interface
unmapped_slave = record (interface_with false []) { regions = [] }

-- A system whose new files are zeros.
abbrev pub zeros_os : Os
zeros_os = record quiet_os { mapped = λ calls fd size. replicate size 0 }

initialize_regions-run_example :
    (tx : Queue) × (y : Interface) × (e : List ℕ) × (s' : Socket) × (w' : World)
    × ((initialize_regions zeros_os 0 >> initialize_queues zeros_os 0)
          (socket unmapped_slave (some 0) [] [])
        ≡ done tt s')
    × (get_elem? s'.interfaces 0 ≡ some y)
    × (y.tx_queues ≡ [] ++ (tx ∷ []))
    × (region_data y 0 ≡ some e)
    × (run calls (ends tx y (master e) 11) ≡ some ((queue_run 2 calls []).0, w'))
initialize_regions-run_example =
    initialize_regions-run zeros_os accepts 0 (socket unmapped_slave (some 0) [] []) unmapped_slave
      master 11 calls (λ calls fd size. length-replicate size 0) refl refl refl refl
      slave-LaidOut.fits (omega arith) (λ e. refl) master_maps (omega arith)

-- The slave writes 7, 8, 9, the master 1, 2, 3, and the master reads 1, 2, 3.
initialize_queues-overwritten_example :
    (tx : Queue) × (rx : Queue) × (y : Interface) × (e : List ℕ) × (s' : Socket) × (w' : Ends)
    × (initialize_queues quiet_os 0 before ≡ done tt s')
    × (get_elem? s'.interfaces 0 ≡ some y)
    × (y.tx_queues ≡ [] ++ (tx ∷ []))
    × (y.rx_queues ≡ [] ++ (rx ∷ []))
    × (region_data y 0 ≡ some e)
    × (both_calls
          (downward (read 4)
            ∷ upward (write packet)
            ∷ downward (write (1 ∷ 2 ∷ 3 ∷ []))
            ∷ upward (read 4)
            ∷ [])
          (pair_ends tx rx y (master e) 11 12)
        ≡ some (received true [] ∷ count 3 ∷ count 3 ∷ received true (1 ∷ 2 ∷ 3 ∷ []) ∷ [], w'))
initialize_queues-overwritten_example =
    initialize_queues-overwritten quiet_os accepts 0 before slave bytes master 11 12 4 packet
      (1 ∷ 2 ∷ 3 ∷ []) refl slave-LaidOut (omega arith) (λ e. refl) master_maps (omega arith) refl
      (omega arith)

-- Packets to the slave, which offers its slots first, and then to the master.
abbrev traffic : List EndCall
traffic =
    downward (write packet)
    ∷ downward (read 4)
    ∷ downward (write (1 ∷ []))
    ∷ downward (write (2 ∷ []))
    ∷ downward (read 4)
    ∷ downward (read 8)
    ∷ upward (write packet)
    ∷ downward (read 4)
    ∷ upward (write (3 ∷ []))
    ∷ upward (read 4)
    ∷ upward (read 4)
    ∷ downward (write (5 ∷ []))
    ∷ []

traffic-InTurn : InTurn 2 2 traffic no_packets
unfolding queues_call queue_act credit_act
traffic-InTurn =
    (refl, (tt, (refl, (refl, (tt, (tt, (refl, (tt, (refl, (tt, (tt, (refl, tt))))))))))))

initialize_queues-calls_example :
    (tx : Queue) × (rx : Queue) × (y : Interface) × (e : List ℕ) × (s' : Socket) × (w' : Ends)
    × (initialize_queues quiet_os 0 before ≡ done tt s')
    × (get_elem? s'.interfaces 0 ≡ some y)
    × (y.tx_queues ≡ [] ++ (tx ∷ []))
    × (y.rx_queues ≡ [] ++ (rx ∷ []))
    × (region_data y 0 ≡ some e)
    × (both_calls traffic (pair_ends tx rx y (master e) 11 12)
        ≡ some ((queues_calls 2 2 traffic no_packets).0, w'))
initialize_queues-calls_example =
    initialize_queues-calls quiet_os accepts 0 before slave bytes master 11 12 traffic refl
      slave-LaidOut (omega arith) (λ e. refl) master_maps (omega arith) traffic-InTurn
