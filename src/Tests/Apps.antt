-- ===== src/Tests/Apps.antt =====
-- The programs beside the library, on rings of two slots.
use memif.Prelude.{◌≡◌, ◌≢◌, ◌⊎◌, refl, arith, true, false, [], some, take, replicate, inr}
use memif.Bytes.{copy_at, copy}
use memif.Desc
use memif.Desc.{get_length, get_offset}
use memif.Types.{Interface}
use memif.Queue.{region_data, set_region_data}
use memif.Queue.View.{kick}
use memif.Packet.Writer.{Written, write_packet}
use memif.Packet.Reader.{ReadResult, read_packet}
use memif.Packet.Send.{CanSend, free_at, sent}
use memif.Apps.Relay.{Bridge, bridge_once, going}
use memif.Apps.Forward.{next_packet, took, bridge_once-forwards}
use memif.Apps.Deliver.{Follows, bridge_once-delivers}
use memif.Tests.Data.{queue, memory, interface_with, packet}
use memif.Tests.Packets.{
  slave, slave-CanSend, some_free, sent_memory, master, master-CanReceive, some_pending,
  full_memory,
}

-- The other side of the bridge, a master as well: two slots are free to it.
abbrev outward : Interface
outward = interface_with true full_memory

abbrev relay : Bridge
relay = record {
  pkt = replicate 8 0;
  rx = queue;
  from = master;
  tx = queue;
  to = outward;
  calls = [];
}

outward-CanSend : CanSend true queue 1 full_memory outward packet
unfolding copy_at copy region_data get_offset Desc.get_region get_length
outward-CanSend = record {
  role = refl;
  ring_at = record {
    slots = refl;
    small = omega arith;
    inside = omega arith;
    bounded = omega arith;
  };
  mapped = refl;
  same_region = refl;
  room = omega arith;
  fits = omega arith;
  outside = inr (omega arith);
}

outward_free : free_at true queue full_memory ≢ 0
unfolding copy_at copy
outward_free = omega arith

passed : next_packet true queue sent_memory ≡ packet
unfolding copy_at copy get_offset get_length Desc.set_flags Desc.set_length
passed = refl

bridge_once-forwards_example :
    let xs = next_packet true queue sent_memory in
    ((free_at true queue full_memory ≢ 0)
      × (bridge_once relay
          ≡ some (
              going (record (took true sent_memory relay) {
                to = set_region_data 0 (sent true queue xs full_memory) outward;
                calls = kick queue (sent true queue xs full_memory) [];
              }))))
    ⊎ ((free_at true queue full_memory ≡ 0)
        × (bridge_once relay
            ≡ some (
                going
                  (record (took true sent_memory relay) { calls = kick queue full_memory [] }))))
bridge_once-forwards_example =
    bridge_once-forwards {k = 1} relay master-CanReceive some_pending (rw passed (omega arith))
      (rw passed (omega arith)) (rw passed outward-CanSend)

inward-Follows : Follows false queue memory packet queue master
unfolding copy_at copy region_data
inward-Follows = record {
  same = record { region = refl; offset = refl; size = refl };
  role = refl;
  mapped = refl;
  caught_up = refl;
  slot_small = omega arith;
}

abbrev last_peer : Interface
last_peer = interface_with false (sent true queue packet full_memory)

outward-Follows : Follows true queue full_memory packet queue last_peer
unfolding copy_at copy region_data
outward-Follows = record {
  same = record { region = refl; offset = refl; size = refl };
  role = refl;
  mapped = refl;
  caught_up = refl;
  slot_small = omega arith;
}

bridge_once-delivers_example :
    (w : Written) × (write_packet queue packet slave [] ≡ some w)
    × (w.count ≡ 3)
    × (region_data w.iface 0 ≡ some sent_memory)
    × (b' : Bridge) × (bridge_once relay ≡ some (going b'))
    × (region_data b'.to 0 ≡ some (sent true queue packet full_memory))
    × (res : ReadResult) × (read_packet queue (replicate 4 0) last_peer ≡ some res)
    × (res.count ≡ 3)
    × (res.complete ≡ true)
    × (take 3 res.pkt ≡ packet)
bridge_once-delivers_example =
    bridge_once-delivers relay queue last_peer (replicate 4 0) [] slave-CanSend some_free
      inward-Follows (omega arith) (omega arith) (omega arith) outward-CanSend outward_free
      outward-Follows (omega arith)
