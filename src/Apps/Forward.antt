-- ===== src/Apps/Forward.antt =====
-- A round of the bridge's loop (memif-new/_examples/bridge/bridge.go) on a packet of one buffer.
use memif.Prelude.{
  ℕ, ◌+◌, ◌-◌, ◌%◌, ◌^◌, ◌≤◌, ◌<◌, ◌≡◌, ◌≢◌, ◌⊎◌, inl, inr, refl, ap, sym, ◌∙◌, arith, Bool, true,
  List, length, some, ltb, lt→ltb, le→leb,
}
use memif.Bytes.{bytes_at, copy_at, slice}
use memif.Bytes.Copy.{bytes_at-copy_at_self, length-copy_at, length-bytes_at}
use memif.Desc.{get_length, get_offset}
use memif.Types.{Queue}
use memif.Queue.{set_region_data}
use memif.Queue.View.{desc_at, kick}
use memif.Packet.Reader.{read_packet}
use memif.Packet.Send.{CanSend, free_at, sent, write_packet-sent, write_packet-full}
use memif.Packet.Receive.{
  CanReceive, last_index, set_last_index, pending_at, consumed, read_packet-received,
}
use memif.Apps.Relay.{going, Bridge, bridge_once}
use native.Mathlib.Decide.{ℕ_discrete}

-- The packet that a receiver of role `m` has in its next slot.
abbrev pub next_packet : Bool → Queue → List ℕ → List ℕ
next_packet m q d =
    bytes_at (get_offset (desc_at q (last_index m q) d)) (get_length (desc_at q (last_index m q) d))
      d

-- The bridge after it has taken that packet from its interface.
abbrev pub took : Bool → List ℕ → Bridge → Bridge
took m d b = record b {
  pkt = copy_at b.pkt 0 (next_packet m b.rx d);
  rx = set_last_index m ((last_index m b.rx + 1) % 2 ^ 16) b.rx;
  from =
      set_region_data b.rx.ring.region (consumed m b.from.run b.rx (last_index m b.rx + 1) d)
        b.from;
}

front :
    (buf xs : List ℕ) → length xs ≤ length buf → slice (copy_at buf 0 xs) 0 (length xs) ≡ some xs
unfolding slice
front buf xs room =
    rw
      (
        le→leb 0 (length xs) (omega arith),
        le→leb (length xs) (length (copy_at buf 0 xs)) (omega (arith, length-copy_at buf 0 xs)),
        (let e : length xs - 0 ≡ length xs = omega arith in e),
      )
      (ap some (bytes_at-copy_at_self buf 0 xs (omega arith)))

module _ {m : Bool} {l : ℕ} {d : List ℕ} (b : Bridge) (can : CanReceive m b.rx l d b.from) where
  length-next_packet :
      length (next_packet m b.rx d) ≡ get_length (desc_at b.rx (last_index m b.rx) d)
  length-next_packet =
      length-bytes_at d _ (get_length (desc_at b.rx (last_index m b.rx) d)) can.room

  -- What the bridge passes on of its buffer.
  out-eq :
      length (next_packet m b.rx d) ≤ length b.pkt
      → slice
          (copy_at b.pkt 0 (next_packet m b.rx d))
          0
          (get_length (desc_at b.rx (last_index m b.rx) d))
        ≡ some (next_packet m b.rx d)
  out-eq room =
      ap (λ n. slice (copy_at b.pkt 0 (next_packet m b.rx d)) 0 n) (sym length-next_packet)
      ∙ front b.pkt (next_packet m b.rx d) room

-- A round of the bridge with a packet of one buffer pending on its interface: the packet is not
-- empty and fits the goroutine's buffer, and the bridged interface's next slot can take it. The round
-- takes the packet from the one ring; with a free slot it sends the same bytes on the other ring, and
-- with none it drops them: nothing is written, and the loop goes on as after a success.
pub bridge_once-forwards :
    {m : Bool} {l k : ℕ} {d e : List ℕ} (b : Bridge)
    → CanReceive m b.rx l d b.from
    → pending_at m b.rx d ≢ 0
    → 0 < length (next_packet m b.rx d)
    → length (next_packet m b.rx d) ≤ length b.pkt
    → CanSend m b.tx k e b.to (next_packet m b.rx d)
    → let xs = next_packet m b.rx d in
      ((free_at m b.tx e ≢ 0)
        × (bridge_once b
            ≡ some (
                going (record (took m d b) {
                  to = set_region_data b.tx.ring.region (sent m b.tx xs e) b.to;
                  calls = kick b.tx (sent m b.tx xs e) b.calls;
                }))))
      ⊎ ((free_at m b.tx e ≡ 0)
          × (bridge_once b ≡ some (going (record (took m d b) { calls = kick b.tx e b.calls }))))
unfolding bridge_once
bridge_once-forwards {m} {l} {k} {d} {e} b can pending some_bytes room send =
    elim (ℕ_discrete (free_at m b.tx e) 0) [
      | yes none_free ↦ inr (
        none_free,
        rw
            (
              reads,
              taken,
              out-eq b can room,
              write_packet-full _ b.calls send.role send.ring_at send.mapped none_free,
            )
            refl,
      )
      | no free ↦
          inl (free, rw (reads, taken, out-eq b can room, write_packet-sent send b.calls free) refl)
    ]
  where
    reads :
        read_packet b.rx b.pkt b.from
        ≡ some (record {
          count = get_length (desc_at b.rx (last_index m b.rx) d);
          complete = true;
          pkt = (took m d b).pkt;
          queue = (took m d b).rx;
          iface = (took m d b).from;
        })
    reads = read_packet-received b.pkt can pending

    taken : ltb 0 (get_length (desc_at b.rx (last_index m b.rx) d)) ≡ true
    taken = lt→ltb 0 _ (omega (arith, length-next_packet b can))
