-- ===== src/Apps/Deliver.antt =====
-- A packet on its way through the bridge of memif-new/_examples/bridge/bridge.go, from the peer that
-- writes it on one side to the peer that reads it on the other.
use memif.Prelude.{
  ℕ, ◌^◌, ◌≤◌, ◌<◌, ◌≡◌, ◌≢◌, inl, inr, refl, sym, subst, Bool, true, not, List, length, some, take,
}
use memif.Types.{Interface, Queue}
use memif.Types.Os.{Call}
use memif.Queue.{region_data}
use memif.Queue.Memory.{region_data-set}
use memif.Packet.Writer.{Written, write_packet}
use memif.Packet.Reader.{ReadResult, read_packet}
use memif.Packet.Send.{CanSend, slot_at, free_at, sent, write_packet-sent}
use memif.Packet.Sent.{length-sent}
use memif.Packet.Receive.{CanReceive, last_index, read_packet-received}
use memif.Packet.Transfer.{SameRing, can_receive, one_pending, seen_bytes, seen_packet}
use memif.Apps.Relay.{going, Bridge, bridge_once}
use memif.Apps.Forward.{next_packet, bridge_once-forwards}

-- A receiver, of the other role, of what `q` has sent: it has the ring of `q`, has mapped the bytes
-- that the sender leaves, and its index is where the sender's was.
pub record Follows (m : Bool) (q : Queue) (d : List ℕ) (pkt : List ℕ) (r : Queue) (j : Interface)
    : Type 0 where
  pub same : SameRing q r
  pub role : j.args.is_master ≡ not m
  pub mapped : region_data j r.ring.region ≡ some (sent m q pkt d)
  pub caught_up : last_index (not m) r ≡ slot_at m q d
  pub slot_small : slot_at m q d < 2 ^ 16

forwarded :
    {m : Bool} {l k : ℕ} {d e : List ℕ} {i : Interface} {pkt : List ℕ} {q : Queue} (b : Bridge)
    → CanSend m q l d i pkt
    → Follows m q d pkt b.rx b.from
    → 0 < length pkt
    → length pkt ≤ length b.pkt
    → length pkt < 2 ^ 32
    → CanSend (not m) b.tx k e b.to pkt
    → free_at (not m) b.tx e ≢ 0
    → (b' : Bridge) × (bridge_once b ≡ some (going b'))
      × (region_data b'.to b.tx.ring.region ≡ some (sent (not m) b.tx pkt e))
forwarded {m} {l} {k} {d} {e} {i} {pkt} {q} b can follows some_bytes room small out free =
    elim (bridge_once-forwards b recv
      (one_pending can b.rx b.from follows.same follows.role follows.mapped follows.caught_up small
        follows.slot_small)
      (rw same_bytes some_bytes) (rw same_bytes room)
      (subst (λ xs. CanSend (not m) b.tx k e b.to xs) (sym same_bytes) out)) [
        | inl (some_free, round) ↦ (
          _,
          round,
          rw same_bytes (region_data-set b.to b.tx.ring.region out.mapped _ (length-sent out)),
        )
        | inr (none_free, round) ↦ absurd (free none_free)
      ]
  where
    recv : CanReceive (not m) b.rx l (sent m q pkt d) b.from
    recv =
        can_receive can b.rx b.from follows.same follows.role follows.mapped follows.caught_up small

    same_bytes : next_packet (not m) b.rx (sent m q pkt d) ≡ pkt
    same_bytes =
        seen_bytes can b.rx b.from follows.same follows.role follows.mapped follows.caught_up small

-- A packet crosses the bridge: a peer writes it, with a free slot, into a buffer that it fits; the
-- bridge's goroutine has caught up with that ring, has room for the packet in its buffer, and a free
-- slot on its other side whose buffer the packet fits; the peer on that side has caught up as well,
-- and has mapped what the bridge leaves. Then WritePacket returns the packet's length, the round of
-- the bridge goes on, and the other peer's ReadPacket returns the same length, no error, and the same
-- bytes at the front of its buffer.
pub bridge_once-delivers :
    {m : Bool} {l k : ℕ} {d e : List ℕ} {i : Interface} {pkt : List ℕ} {q : Queue} (b : Bridge)
    (r : Queue) (j : Interface) (buf : List ℕ) (calls : List Call)
    → CanSend m q l d i pkt
    → free_at m q d ≢ 0
    → Follows m q d pkt b.rx b.from
    → 0 < length pkt
    → length pkt ≤ length b.pkt
    → length pkt < 2 ^ 32
    → CanSend (not m) b.tx k e b.to pkt
    → free_at (not m) b.tx e ≢ 0
    → Follows (not m) b.tx e pkt r j
    → length pkt ≤ length buf
    → (w : Written) × (write_packet q pkt i calls ≡ some w)
      × (w.count ≡ length pkt)
      × (region_data w.iface q.ring.region ≡ some (sent m q pkt d))
      × (b' : Bridge) × (bridge_once b ≡ some (going b'))
      × (region_data b'.to b.tx.ring.region ≡ some (sent (not m) b.tx pkt e))
      × (res : ReadResult) × (read_packet r buf j ≡ some res)
      × (res.count ≡ length pkt)
      × (res.complete ≡ true)
      × (take (length pkt) res.pkt ≡ pkt)
bridge_once-delivers {m} {l} {k} {d} {e} {i} {pkt} {q} b r j buf calls can free follows some_bytes
      room small out out_free last enough =
    let (b', round, leaves) = forwarded b can follows some_bytes room small out out_free in
    let (count, front) =
      seen_packet out r j last.same last.role last.mapped last.caught_up small buf enough in
    (
      _,
      write_packet-sent can calls free,
      refl,
      region_data-set i q.ring.region can.mapped _ (length-sent can),
      b',
      round,
      leaves,
      _,
      read_packet-received buf
          (can_receive out r j last.same last.role last.mapped last.caught_up small)
          (one_pending out r j last.same last.role last.mapped last.caught_up small
            last.slot_small),
      count,
      refl,
      front,
    )
