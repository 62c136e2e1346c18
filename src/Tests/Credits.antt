-- ===== src/Tests/Credits.antt =====
-- Calls of a master and its slave on a ring of two slots, of which the slave has offered none yet.
use memif.Prelude.{◌<◌, ◌^◌, ◌≡◌, refl, arith, true, false, List, [], ◌∷◌, some}
use memif.Bytes.{copy_at, copy}
use memif.Desc
use memif.Desc.{get_length, get_offset}
use memif.Queue.{region_data}
use memif.Packet.Stream.{World, Action, write, read, run}
use memif.Packet.Stream.Holds.{slot_desc}
use memif.Packet.Refill.{Short}
use memif.Packet.Credit.{credit_run}
use memif.Packet.Credit.State.{Offered}
use memif.Packet.Credit.Refine.{credit_run_refines}
use memif.Tests.Data.{queue, memory, interface_with, packet}
use memif.Tests.Packets.{memory-RingAt}
use memif.Tests.Streams.{buffer_at, two_slots, memory-Buffers, memory-Named}

abbrev turned : World
turned = record {
  tx = queue;
  sender = interface_with true memory;
  rx = queue;
  receiver = interface_with false memory;
}

memory-Short : Short queue memory
unfolding copy_at copy get_length
memory-Short =
    two_slots (λ s. get_length (slot_desc queue s memory) < 2 ^ 16) (omega arith) (omega arith)

turned-Offered : Offered 4 buffer_at 1 turned 0 []
unfolding region_data get_offset Desc.get_region copy_at copy
turned-Offered = record {
  bytes = memory;
  ring_at = memory-RingAt;
  same = record { region = refl; offset = refl; size = refl };
  sends = refl;
  receives = refl;
  master_maps = refl;
  slave_maps = refl;
  buffer_size = refl;
  narrow = omega arith;
  buffers = memory-Buffers;
  named = memory-Named;
  short = memory-Short;
  counter = omega arith;
  head = refl;
  tail = refl;
  within = omega arith;
  bound = omega arith;
  whole = λ n from to. absurd (omega arith);
  holds = tt;
}

-- A write that is refused, a read that offers both slots, three writes to them, and reads.
abbrev calls : List Action
calls =
    write packet
    ∷ read 4
    ∷ write packet
    ∷ write (1 ∷ [])
    ∷ write (2 ∷ [])
    ∷ read 8
    ∷ write (5 ∷ [])
    ∷ read 4
    ∷ read 4
    ∷ []

credit_run_refines_example :
    (w' : World) × (run calls turned ≡ some ((credit_run 2 calls 0 []).0, w'))
    × Offered 4 buffer_at 1 w' (credit_run 2 calls 0 []).1 (credit_run 2 calls 0 []).2
credit_run_refines_example = credit_run_refines calls turned 0 [] (omega arith) turned-Offered
