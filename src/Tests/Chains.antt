-- ===== src/Tests/Chains.antt =====
-- Packets that take both slots of a ring of two.
use memif.Prelude.{
  ℕ, ◌+◌, ◌%◌, ◌^◌, ◌≤◌, ◌<◌, ◌≡◌, ◌⊎◌, refl, arith, true, false, List, [], ◌∷◌, some, replicate,
  length, if◌then◌else◌,
}
use memif.Bytes.{copy_at, copy, write_le}
use memif.Desc
use memif.Desc.{get_length, get_offset}
use memif.Types.{Interface}
use memif.Queue.{region_data, set_region_data}
use memif.Queue.View.{RingAt, head_at}
use memif.Packet.Stream.Holds.{slot_desc}
use memif.Packet.Writer.{write_packet}
use memif.Packet.Reader.{read_packet}
use memif.Packet.Send.{free_at}
use memif.Packet.Receive.{pending_at, set_last_index, consumed}
use memif.Packet.Chain.Ready.{Ready}
use memif.Packet.Chain.Loop.{Returns}
use memif.Packet.Chain.Call.{write_packet_total}
use memif.Packet.Gather.{Readable, gather, read_packet-gathers}
use memif.Tests.Data.{config, queue, memory, interface_with}
use memif.Tests.Packets.{memory-RingAt}
use memif.Tests.Streams.{slave_mapped, memory-Buffers, memory-Named, buffer_at, two_slots}
use native.Mathlib.Nat.{mod-lt}

abbrev slave : Interface
slave = interface_with false memory

slave-Ready : Ready queue 1 4 buffer_at slave memory
slave-Ready = record {
  role = refl;
  buffer_size = refl;
  mapped = slave_mapped;
  ring_at = memory-RingAt;
  buffers = memory-Buffers;
  named = memory-Named;
}

abbrev long_packet : List ℕ
long_packet = 1 ∷ 2 ∷ 3 ∷ 4 ∷ 5 ∷ []

write_packet_total_example :
    ((2 ≤ free_at false queue memory)
      × Returns queue 1 4 buffer_at
          (write_packet queue long_packet slave [])
          8
          ((head_at queue memory + 2) % 2 ^ 16))
    ⊎ ((free_at false queue memory < 2)
        × Returns queue 1 4 buffer_at
            (write_packet queue long_packet slave [])
            0
            (head_at queue memory))
write_packet_total_example =
    write_packet_total queue 1 4 buffer_at long_packet slave memory [] slave-Ready (omega arith)

-- Two slots pending, of which the first goes on in the second.
abbrev chained_memory : List ℕ
chained_memory = write_le 2 144 1 (write_le 2 6 3 memory)

abbrev master : Interface
master = interface_with true chained_memory

chained-RingAt : RingAt queue 1 chained_memory
unfolding copy_at copy
chained-RingAt = record {
  slots = refl;
  small = omega arith;
  inside = omega arith;
  bounded = omega arith;
}

chained-Readable : Readable queue chained_memory
unfolding copy_at copy Desc.get_region get_offset get_length
chained-Readable = record {
  region = λ s.
      two_slots (λ k. Desc.get_region (slot_desc queue k chained_memory) ≡ 0) refl refl (s % 2)
        (mod-lt s (omega arith));
  room = λ s.
      two_slots
        (λ k.
          get_offset (slot_desc queue k chained_memory)
            + get_length (slot_desc queue k chained_memory)
          ≤ 168)
        (omega arith) (omega arith) (s % 2) (mod-lt s (omega arith));
}

chained_maps : region_data master 0 ≡ some chained_memory
unfolding region_data
chained_maps = refl

both_pending : pending_at true queue chained_memory ≡ 2
unfolding copy_at copy
both_pending = refl

buffer_fits :
    length (gather queue chained_memory (pending_at true queue chained_memory) 1).bytes ≤ 8
unfolding copy_at copy gather Desc.get_flags get_offset get_length
buffer_fits = omega arith

read_packet-gathers_example :
    let g = gather queue chained_memory (pending_at true queue chained_memory) 1 in
    read_packet queue (replicate 8 0) master
    ≡ some (
        if g.complete
        then record {
          count = length g.bytes;
          complete = true;
          pkt = copy_at (replicate 8 0) 0 g.bytes;
          queue = set_last_index true ((1 + g.slots) % 2 ^ 16) queue;
          iface =
              set_region_data 0 (consumed true config queue (1 + g.slots) chained_memory) master;
        }
        else record {
          count = 0;
          complete = false;
          pkt = copy_at (replicate 8 0) 0 g.bytes;
          queue = queue;
          iface = master;
        })
read_packet-gathers_example =
    read_packet-gathers true queue 1 chained_memory master (replicate 8 0) refl chained-RingAt
      chained_maps chained-Readable (rw both_pending (omega arith)) buffer_fits
