-- ===== src/Tests/Packets.antt =====
-- Packets through a ring of two slots.
use memif.Prelude.{
  ℕ, ◌+◌, ◌%◌, ◌^◌, ◌≡◌, ◌≢◌, refl, sym, arith, true, false, List, [], some, take, replicate, inr,
  length,
}
use memif.Bytes.{write_le, copy_at, copy, bytes_at}
use memif.Desc
use memif.Desc.{get_length, get_offset}
use memif.Types.{Interface}
use memif.Queue.{region_data, set_region_data}
use memif.Queue.View.{RingAt, kick, desc_at}
use memif.Packet.Writer.{write_packet}
use memif.Packet.Reader.{ReadResult, read_packet}
use memif.Packet.Send.{CanSend, sent, write_packet-sent, slot_at, free_at}
use memif.Packet.Receive.{CanReceive, consumed, set_last_index, pending_at, read_packet-received}
use memif.Packet.Transfer.{transfer}
use memif.Tests.Data.{config, queue, memory, interface_with, packet}

abbrev pub slave : Interface
slave = interface_with false memory

pub memory-RingAt : RingAt queue 1 memory
unfolding copy_at copy
memory-RingAt = record {
  slots = refl;
  small = omega arith;
  inside = omega arith;
  bounded = omega arith;
}

pub slave-CanSend : CanSend false queue 1 memory slave packet
unfolding copy_at copy region_data get_offset Desc.get_region get_length
slave-CanSend = record {
  role = refl;
  ring_at = memory-RingAt;
  mapped = refl;
  same_region = refl;
  room = omega arith;
  fits = omega arith;
  outside = inr (omega arith);
}

pub some_free : free_at false queue memory ≢ 0
unfolding copy_at copy
some_free = omega arith

write_packet-sent_example :
    write_packet queue packet slave []
    ≡ some (record {
      count = 3;
      iface = set_region_data 0 (sent false queue packet memory) slave;
      calls = kick queue (sent false queue packet memory) [];
    })
write_packet-sent_example = write_packet-sent slave-CanSend [] some_free

-- A head two ahead of the tail: no slot is free to the slave.
abbrev pub full_memory : List ℕ
full_memory = write_le 2 6 3 memory

-- The master's view after the slave has sent the packet.
abbrev pub sent_memory : List ℕ
sent_memory = sent false queue packet memory

abbrev pub master : Interface
master = interface_with true sent_memory

abbrev buffer : List ℕ
buffer = replicate 5 0

pub master-CanReceive : CanReceive true queue 1 sent_memory master
unfolding copy_at copy region_data get_offset Desc.get_region get_length Desc.get_flags
    Desc.set_flags Desc.set_length
master-CanReceive = record {
  role = refl;
  ring_at = record {
    slots = refl;
    small = omega arith;
    inside = omega arith;
    bounded = omega arith;
  };
  mapped = refl;
  single = refl;
  same_region = refl;
  room = omega arith;
}

pub some_pending : pending_at true queue sent_memory ≢ 0
unfolding copy_at copy get_offset Desc.set_flags Desc.set_length
some_pending = omega arith

read_packet-received_example :
    read_packet queue buffer master
    ≡ some (record {
      count = get_length (desc_at queue 1 sent_memory);
      complete = true;
      pkt = copy_at buffer 0 (
          bytes_at
            (get_offset (desc_at queue 1 sent_memory))
            (get_length (desc_at queue 1 sent_memory))
            sent_memory);
      queue = set_last_index true 2 queue;
      iface = set_region_data 0 (consumed true config queue 2 sent_memory) master;
    })
read_packet-received_example = read_packet-received buffer master-CanReceive some_pending

master_sees_sent :
    region_data master 0 ≡ region_data (set_region_data 0 (sent false queue packet memory) slave) 0
unfolding region_data set_region_data
master_sees_sent = refl

slot_at-memory : slot_at false queue memory ≡ 1
unfolding copy_at copy
slot_at-memory = refl

transfer_example :
    (length packet ≡ 3)
    × (res : ReadResult) × (read_packet queue buffer master ≡ some res)
    × (res.count ≡ 3)
    × (res.complete ≡ true)
    × (take 3 res.pkt ≡ packet)
    × (res.queue.last_head ≡ (slot_at false queue memory + 1) % 2 ^ 16)
transfer_example =
    transfer queue master buffer []
      (record {
        count = 3;
        iface = set_region_data 0 (sent false queue packet memory) slave;
        calls = kick queue (sent false queue packet memory) [];
      })
      slave-CanSend some_free (write_packet-sent slave-CanSend [] some_free)
      (record { region = refl; offset = refl; size = refl }) refl master_sees_sent
      (sym slot_at-memory) (rw slot_at-memory (omega arith)) (omega arith) (omega arith)
