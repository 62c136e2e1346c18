-- ===== src/Packet/Transfer.antt =====
-- A packet that one side writes is the packet that the other side reads: WritePacket, then
-- ReadPacket by the peer on the same shared memory.
use memif.Prelude.{
  ℕ, ◌+◌, ◌%◌, ◌^◌, ◌≤◌, ◌<◌, ◌≡◌, ◌≢◌, arith, List, length, ap, ◌∙◌, refl, sym, Bool, true, false,
  not, take, some,
}
use memif.Bytes.{bytes_at, copy_at}
use memif.Bytes.Copy.{bytes_at-copy_at_self}
use memif.Desc.{DescBuf, get_length, get_offset}
use memif.Types.{Interface, Queue}
use memif.Types.Os.{Call}
use memif.Queue.{region_data, set_region_data}
use memif.Queue.Memory.{region_data-set}
use memif.Queue.View.{RingAt, RingAt-length, kick, desc_at}
use mathlib.Core.Option.{some-injective}
use memif.Packet.Writer.{Written, write_packet}
use memif.Packet.Sent.{
  get_flags-reset, get_length-reset, get_offset-reset, get_region-reset, whole, fits, length-sent,
  desc_at-sent, packet-sent, index-sent,
}
use memif.Packet.Send.{CanSend, slot_at, free_at, sent, reset, write_packet-sent}
use memif.Packet.Reader.{ReadResult, read_packet}
use memif.Packet.Receive.{
  CanReceive, last_index, set_last_index, pending_at, peer_index, consumed, read_packet-received,
}

-- Both queues stand for one ring: at the same place, of the same size.
pub record SameRing (q r : Queue) : Type 0 where
  pub region : r.ring.region ≡ q.ring.region
  pub offset : r.ring.offset ≡ q.ring.offset
  pub size : r.ring.size ≡ q.ring.size

peer_index-eq : (m : Bool) (q : Queue) (d : List ℕ) → peer_index (not m) q d ≡ slot_at m q d
peer_index-eq true q d = refl
peer_index-eq false q d = refl

pub SameRing-slots :
    (q r : Queue) (s : ℕ) (d : List ℕ) → SameRing q r → desc_at r s d ≡ desc_at q s d
SameRing-slots q r s d same = rw (same.offset, same.size)

pub SameRing-index :
    (m : Bool) (q r : Queue) (d : List ℕ) → SameRing q r → slot_at m r d ≡ slot_at m q d
SameRing-index true q r d same = rw same.offset
SameRing-index false q r d same = rw same.offset

pub SameRing-RingAt :
    {q r : Queue} {l : ℕ} {d : List ℕ} → SameRing q r → RingAt q l d → RingAt r l d
SameRing-RingAt same ring_at = omega arith

last_index-set : (m : Bool) (v : ℕ) (q : Queue) → last_index m (set_last_index m v q) ≡ v
last_index-set true v q = refl
last_index-set false v q = refl

-- What a receiver of the other role sees of a ring whose sender has just sent `pkt`.
module _ {m : Bool} {q : Queue} {l : ℕ} {d : List ℕ} {i : Interface} {pkt : List ℕ}
    (can : CanSend m q l d i pkt) (r : Queue) (j : Interface) (same : SameRing q r)
    (role : j.args.is_master ≡ not m) (mapped : region_data j r.ring.region ≡ some (sent m q pkt d))
    (caught_up : last_index (not m) r ≡ slot_at m q d) (small : length pkt < 2 ^ 32) where
  abbrev sent_desc : DescBuf
  sent_desc = reset (length pkt) (desc_at q (slot_at m q d) d)

  seen_desc : desc_at r (last_index (not m) r) (sent m q pkt d) ≡ sent_desc
  seen_desc =
      rw caught_up (SameRing-slots q r (slot_at m q d) (sent m q pkt d) same ∙ desc_at-sent can)

  seen_length : get_length sent_desc ≡ length pkt
  seen_length = get_length-reset (length pkt) _ (whole can) ∙ omega arith

  seen_offset : get_offset sent_desc ≡ get_offset (desc_at q (slot_at m q d) d)
  seen_offset = get_offset-reset (length pkt) _ (whole can)

  pub seen_bytes :
      let desc = desc_at r (last_index (not m) r) (sent m q pkt d) in
      bytes_at (get_offset desc) (get_length desc) (sent m q pkt d) ≡ pkt
  seen_bytes = rw (seen_desc, seen_length, seen_offset, packet-sent can) refl

  pub can_receive : CanReceive (not m) r l (sent m q pkt d) j
  can_receive = record {
    role = role;
    ring_at = RingAt-length _ (SameRing-RingAt same can.ring_at) (length-sent can);
    mapped = mapped;
    single = rw seen_desc (omega (arith, get_flags-reset (length pkt) _ (whole can)));
    same_region =
        rw seen_desc
          (get_region-reset (length pkt) _ (whole can) ∙ can.same_region ∙ sym same.region);
    room = rw seen_desc (omega (arith, seen_length, seen_offset, fits can, length-sent can));
  }

  pub one_pending : slot_at m q d < 2 ^ 16 → pending_at (not m) r (sent m q pkt d) ≢ 0
  one_pending slot_small =
      rw
        (
          peer_index-eq m r (sent m q pkt d),
          SameRing-index m q r (sent m q pkt d) same,
          index-sent can,
          caught_up,
        )
        (omega arith)

  pub seen_packet :
      (buf : List ℕ)
      → length pkt ≤ length buf
      → let desc = desc_at r (last_index (not m) r) (sent m q pkt d) in
        (get_length desc ≡ length pkt)
        × (take
              (length pkt)
              (copy_at buf 0 (bytes_at (get_offset desc) (get_length desc) (sent m q pkt d)))
            ≡ pkt)
  seen_packet buf room =
      rw (seen_desc, seen_length, seen_offset, packet-sent can)
        (refl, bytes_at-copy_at_self buf 0 pkt (omega arith))

-- A packet written with a free slot, into a buffer that it fits, is read by the peer as it was
-- written: WritePacket returns its length; ReadPacket, called next by the peer of the other role on
-- the same memory, on the same ring with its index where the sender's was, and with a buffer that
-- is long enough, returns the same length and no error, puts the packet at the front of the
-- buffer, and moves its index past the slot.
pub transfer :
    {m : Bool} {q : Queue} {l : ℕ} {d : List ℕ} {i : Interface} {pkt : List ℕ} (r : Queue)
    (j : Interface) (buf : List ℕ) (calls : List Call) (w : Written)
    → CanSend m q l d i pkt
    → free_at m q d ≢ 0
    → write_packet q pkt i calls ≡ some w
    → SameRing q r
    → j.args.is_master ≡ not m
    → region_data j r.ring.region ≡ region_data w.iface q.ring.region
    → last_index (not m) r ≡ slot_at m q d
    → slot_at m q d < 2 ^ 16
    → length pkt < 2 ^ 32
    → length pkt ≤ length buf
    → (w.count ≡ length pkt)
      × (res : ReadResult) × (read_packet r buf j ≡ some res)
      × (res.count ≡ length pkt)
      × (res.complete ≡ true)
      × (take (length pkt) res.pkt ≡ pkt)
      × (last_index (not m) res.queue ≡ (slot_at m q d + 1) % 2 ^ 16)
transfer {m} {q} {l} {d} {i} {pkt} r j buf calls w can free written same role shared caught_up
      slot_small small room =
    (
      ap (λ (x : Written). x.count) as_sent,
      res,
      read_packet-received buf (can_receive can r j same role mapped caught_up small)
          (one_pending can r j same role mapped caught_up small slot_small),
      (seen_packet can r j same role mapped caught_up small buf room).0,
      refl,
      (seen_packet can r j same role mapped caught_up small buf room).1,
      last_index-set (not m) ((last_index (not m) r + 1) % 2 ^ 16) r
          ∙ ap (λ (n : ℕ). (n + 1) % 2 ^ 16) caught_up,
    )
  where
    d' : List ℕ
    d' = sent m q pkt d

    as_sent : w ≡ record {
      count = length pkt;
      iface = set_region_data q.ring.region (sent m q pkt d) i;
      calls = kick q (sent m q pkt d) calls;
    }
    as_sent = some-injective _ _ (sym written ∙ write_packet-sent can calls free)

    mapped : region_data j r.ring.region ≡ some (sent m q pkt d)
    mapped =
        shared
        ∙ ap (λ (x : Written). region_data x.iface q.ring.region) as_sent
        ∙ region_data-set i q.ring.region can.mapped (sent m q pkt d) (length-sent can)

    res : ReadResult
    res =
        let desc = desc_at r (last_index (not m) r) d' in
        record {
          count = get_length desc;
          complete = true;
          pkt = copy_at buf 0 (bytes_at (get_offset desc) (get_length desc) d');
          queue = set_last_index (not m) ((last_index (not m) r + 1) % 2 ^ 16) r;
          iface =
              set_region_data r.ring.region (consumed (not m) j.run r (last_index (not m) r + 1) d')
                j;
        }
