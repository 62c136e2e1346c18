-- ===== src/Packet/Receive.antt =====
-- ReadPacket on a packet of one buffer, for either role, and on an empty ring.
use memif.Prelude.{
  ℕ, zero, suc, ◌+◌, ◌-◌, ◌%◌, ◌^◌, ◌≤◌, ◌≡◌, ◌≢◌, arith, List, length, Bool, true, false, some,
  le→leb,
}
use memif.Prelude.Bits.{bit_and-one}
use memif.Bytes.{copy_at, bytes_at, slice, slice_from, write_le}
use memif.Bytes.Copy.{length-copy_at}
use memif.Desc.{DescBuf, new_desc_buf, get_flags, get_region, get_length, get_offset}
use memif.Desc.Fields.{new_desc_buf-IsDesc}
use memif.Types.{Interface, Queue, MemoryConfig}
use memif.Queue.{region_data, set_region_data}
use memif.Queue.Memory.{region_data-set, set_region_data-set, run-set_region_data}
use memif.Queue.View.{
  RingAt, head_address, tail_address, head_at, tail_at, desc_at, slot_address, read_head-eq,
  read_tail-eq, write_head-eq, write_tail-eq, get_slot-eq, set_desc_length-eq, RingAt-length,
}
use memif.Packet.Reader.{
  Chunk, read_slot, refill, read_done, finish, read_chain, read_first, read_packet,
}

-- The index that the peer of a receiver of this role advances.
abbrev pub peer_index : Bool → Queue → List ℕ → ℕ
peer_index true q d = head_at q d
peer_index false q d = tail_at q d

-- The receiver's own copy of that index, as of its last call.
abbrev pub last_index : Bool → Queue → ℕ
last_index true q = q.last_head
last_index false q = q.last_tail

abbrev pub set_last_index : Bool → ℕ → Queue → Queue
set_last_index true v q = record q { last_head = v }
set_last_index false v q = record q { last_tail = v }

-- How many slots the peer has passed on since.
abbrev pub pending_at : Bool → Queue → List ℕ → ℕ
pending_at m q d = (peer_index m q d + 2 ^ 16 - last_index m q) % 2 ^ 16

-- The bytes after a slave has offered `n` slots from `head` on again, with full buffers.
unfoldable pub refilled : ℕ → Queue → ℕ → ℕ → List ℕ → List ℕ
refilled zero q size head d = write_le 2 (head_address q) head d
refilled (suc n) q size head d =
    refilled n q size (head + 1) (write_le 2 (slot_address q head + 4) size d)

-- The bytes after a receiver has consumed all slots before `slot`.
abbrev pub consumed : Bool → MemoryConfig → Queue → ℕ → List ℕ → List ℕ
consumed true run q slot d = write_le 2 (tail_address q) slot d
consumed false run q slot d =
    refilled ((q.ring.size + 2 ^ 16 - head_at q d + slot % 2 ^ 16) % 2 ^ 16) q
      run.packet_buffer_size (head_at q d) d

refill-eq :
    (n : ℕ) {q : Queue} {l : ℕ} {d : List ℕ} (head : ℕ) (i : Interface)
    → RingAt q l d
    → region_data i q.ring.region ≡ some d
    → refill n q head i
      ≡ some (set_region_data q.ring.region (refilled n q i.run.packet_buffer_size head d) i)
unfolding refill refilled set_region_data
refill-eq zero head i ring_at h = write_head-eq ring_at i h head
refill-eq (suc n) {q} {l} {d} head i ring_at h = rw (
  set_desc_length-eq ring_at i h head i.run.packet_buffer_size,
  refill-eq n (head + 1) (set_region_data q.ring.region d₁ i) (RingAt-length d₁ ring_at same)
      (region_data-set i q.ring.region h d₁ same),
  run-set_region_data i q.ring.region d₁,
  set_region_data-set i q.ring.region h d₁ (refilled n q i.run.packet_buffer_size (head + 1) d₁),
)
  where
    d₁ : List ℕ
    d₁ = write_le 2 (slot_address q head + 4) i.run.packet_buffer_size d

    same : length d₁ ≡ length d
    same = length-copy_at d (slot_address q head + 4) _

module _ {q : Queue} {l : ℕ} {d : List ℕ} (ring_at : RingAt q l d) (i : Interface)
    (h : region_data i q.ring.region ≡ some d) where
  pub finish-eq :
      (m : Bool) (slot : ℕ) (pkt : List ℕ) (n : ℕ)
      → i.args.is_master ≡ m
      → finish q slot pkt n i
        ≡ some (
            read_done n pkt
              (set_last_index m (slot % 2 ^ 16) q)
              (set_region_data q.ring.region (consumed m i.run q slot d) i))
  unfolding finish
  finish-eq true slot pkt n e = simp e (rw (write_tail-eq ring_at i h slot))
  finish-eq false slot pkt n e =
      simp e (rw (read_head-eq ring_at i h, refill-eq _ (head_at q d) i ring_at h))

  pub read_slot-eq :
      (s : ℕ) (db : DescBuf) (pkt : List ℕ) (at_byte : ℕ)
      → length db ≡ 16
      → get_region (desc_at q s d) ≡ q.ring.region
      → get_offset (desc_at q s d) + get_length (desc_at q s d) ≤ length d
      → at_byte ≤ length pkt
      → read_slot q s db pkt at_byte i
        ≡ some (record {
          desc = desc_at q s d;
          pkt =
              copy_at pkt at_byte
                (bytes_at (get_offset (desc_at q s d)) (get_length (desc_at q s d)) d);
          pkt_offset = at_byte + get_length (desc_at q s d);
        })
  unfolding read_slot slice slice_from
  read_slot-eq s db pkt at_byte whole same room inside =
      rw
        (
          get_slot-eq ring_at i h s db whole,
          same,
          h,
          le→leb (get_offset (desc_at q s d))
              (get_offset (desc_at q s d) + get_length (desc_at q s d)) (omega arith),
          le→leb (get_offset (desc_at q s d) + get_length (desc_at q s d)) (length d) room,
          le→leb at_byte (length pkt) inside,
        )
        (let e : get_offset (desc_at q s d)
                + get_length (desc_at q s d)
                - get_offset (desc_at q s d)
              ≡ get_length (desc_at q s d) =
            omega arith in
          rw e)

-- What lets a receiver of role `m` take the packet of one buffer in its next slot: the ring lies in
-- the mapped bytes `d`, the slot's descriptor has no next one, and names bytes of the same region
-- that lie inside it.
pub record CanReceive (m : Bool) (q : Queue) (l : ℕ) (d : List ℕ) (i : Interface) : Type 0 where
  pub role : i.args.is_master ≡ m
  pub ring_at : RingAt q l d
  pub mapped : region_data i q.ring.region ≡ some d
  pub single : get_flags (desc_at q (last_index m q) d) % 2 ≡ 0
  pub same_region : get_region (desc_at q (last_index m q) d) ≡ q.ring.region
  pub room :
      get_offset (desc_at q (last_index m q) d) + get_length (desc_at q (last_index m q) d)
      ≤ length d

read_chain-done :
    (n : ℕ) (q : Queue) (slot : ℕ) (c : Chunk) (i : Interface)
    → get_flags c.desc % 2 ≡ 0
    → read_chain n q slot c i ≡ finish q slot c.pkt c.pkt_offset i
unfolding read_chain
read_chain-done zero q slot c i h = rw (bit_and-one (get_flags c.desc), h)
read_chain-done (suc n) q slot c i h = rw (bit_and-one (get_flags c.desc), h)

pub read_packet-eq :
    (m : Bool) {q : Queue} {l : ℕ} {d : List ℕ} (pkt : List ℕ) (i : Interface)
    → i.args.is_master ≡ m
    → RingAt q l d
    → region_data i q.ring.region ≡ some d
    → read_packet q pkt i ≡ read_first (pending_at m q d) q (last_index m q) pkt i
unfolding read_packet
read_packet-eq true pkt i e ring_at h = simp e (rw (read_head-eq ring_at i h))
read_packet-eq false pkt i e ring_at h = simp e (rw (read_tail-eq ring_at i h))

more : (n : ℕ) → n ≢ 0 → n ≡ suc (n - 1)
more n h = omega arith

module _ {m : Bool} {q : Queue} {l : ℕ} {d : List ℕ} {i : Interface} (pkt : List ℕ) where
  -- On a ring that lies in a mapped region, with a slot pending whose descriptor has no next flag
  -- and names a buffer inside the same region: ReadPacket returns the length in the slot's
  -- descriptor and no error, copies that many bytes of the buffer into `pkt` (as many as fit), moves
  -- the queue past the slot, and gives the slots before it back: a master writes the tail, a slave
  -- refills the ring.
  pub read_packet-received :
      CanReceive m q l d i
      → pending_at m q d ≢ 0
      → let desc = desc_at q (last_index m q) d in
        read_packet q pkt i
        ≡ some (record {
          count = get_length desc;
          complete = true;
          pkt = copy_at pkt 0 (bytes_at (get_offset desc) (get_length desc) d);
          queue = set_last_index m ((last_index m q + 1) % 2 ^ 16) q;
          iface = set_region_data q.ring.region (consumed m i.run q (last_index m q + 1) d) i;
        })
  unfolding read_first
  read_packet-received can some_pending = rw (
    read_packet-eq m pkt i can.role can.ring_at can.mapped,
    more (pending_at m q d) some_pending,
    read_slot-eq can.ring_at i can.mapped (last_index m q) new_desc_buf pkt 0 new_desc_buf-IsDesc
        can.same_region can.room (omega arith),
    (let z : 0 + get_length (desc_at q (last_index m q) d)
            ≡ get_length (desc_at q (last_index m q) d) =
          omega arith in
        z),
    read_chain-done (pending_at m q d - 1) q (last_index m q + 1) chunk i can.single,
    finish-eq can.ring_at i can.mapped m (last_index m q + 1) _
        (get_length (desc_at q (last_index m q) d)) can.role,
  )
    where
      desc : DescBuf
      desc = desc_at q (last_index m q) d

      chunk : Chunk
      chunk = record {
        desc = desc;
        pkt = copy_at pkt 0 (bytes_at (get_offset desc) (get_length desc) d);
        pkt_offset = get_length desc;
      }

-- On a ring that lies in a mapped region, with no slot pending, ReadPacket returns 0 and no error,
-- and leaves the client's buffer; a master writes the index of its last call again, and a slave
-- refills the ring.
pub read_packet-empty :
    (m : Bool) {q : Queue} {l : ℕ} {d : List ℕ} (pkt : List ℕ) (i : Interface)
    → i.args.is_master ≡ m
    → RingAt q l d
    → region_data i q.ring.region ≡ some d
    → pending_at m q d ≡ 0
    → read_packet q pkt i
      ≡ some (
          read_done 0 pkt
            (set_last_index m (last_index m q % 2 ^ 16) q)
            (set_region_data q.ring.region (consumed m i.run q (last_index m q) d) i))
unfolding read_first
read_packet-empty m {q} {l} {d} pkt i role ring_at mapped none_pending = rw (
  read_packet-eq m pkt i role ring_at mapped,
  none_pending,
  finish-eq ring_at i mapped m (last_index m q) pkt 0 role,
)
