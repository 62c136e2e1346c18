-- ===== src/Packet/Send.antt =====
-- WritePacket on a packet that fits one buffer, for either role.
use memif.Prelude.{
  ℕ, zero, suc, ◌+◌, ◌-◌, ◌%◌, ◌^◌, ◌≤◌, ◌≡◌, ◌≢◌, arith, List, length, ap, ◌∙◌, Bool, true, false,
  some, refl, min, take, if◌then◌else◌, le→leb, take_all, le→ltb,
}
use memif.Bytes.{copy_at, slice, read_le, write_le}
use memif.Bytes.Copy.{length-copy_at}
use memif.Desc.{DescBuf, new_desc_buf, set_flags, set_length, get_region, get_length, get_offset}
use memif.Desc.Fields.{
  Fields, fields, IsDesc, set_flags-fields, set_length-fields, setters-IsDesc, new_desc_buf-IsDesc,
}
use memif.Types.{Arguments, Interface, Queue}
use memif.Types.Os.{Call}
use memif.Queue.{region_data, set_region_data, write_tail, write_head}
use memif.Queue.Memory.{region_data-set, set_region_data-set, args-set_region_data}
use memif.Queue.View.{
  RingAt, head_address, tail_address, head_at, tail_at, desc_at, slot_address, kick, read_head-eq,
  read_tail-eq, write_head-eq, write_tail-eq, interrupt-eq, get_slot-eq, put_slot-eq, RingAt-length,
  length-desc_at,
}
use memif.Packet.Place.{place, Outside}
use memif.Packet.Writer.{
  Slot, take_slot, fill_buffer, publish, write_chain, write_first, free_slots, write_packet,
}

-- The index that a sender of this role advances: the tail for a master, the head for a slave.
abbrev pub index_address : Bool → Queue → ℕ
index_address true q = tail_address q
index_address false q = head_address q

abbrev pub slot_at : Bool → Queue → List ℕ → ℕ
slot_at m q d = read_le 2 (index_address m q) d

-- How many slots are free to the sender.
abbrev pub free_at : Bool → Queue → List ℕ → ℕ
free_at true q d = (head_at q d + 2 ^ 16 - tail_at q d) % 2 ^ 16
free_at false q d = (q.ring.size + 2 ^ 16 - head_at q d + tail_at q d) % 2 ^ 16

-- The size of the buffer of descriptor `db`: as the descriptor says, for a master.
abbrev pub size_of : Interface → Bool → DescBuf → ℕ
size_of i m db = if m then get_length db else i.run.packet_buffer_size

-- A descriptor with the flags cleared and the length set to `n`.
abbrev pub reset : ℕ → DescBuf → DescBuf
reset n db = set_length n (set_length 0 (set_flags 0 db))

pub reset-fields :
    (n : ℕ) (db : DescBuf)
    → IsDesc db
    → fields (reset n db) ≡ record (fields db) { flags = 0; len = n % 2 ^ 32 }
reset-fields n db h =
    set_length-fields n (set_length 0 (set_flags 0 db)) whole
    ∙ ap (λ (f : Fields). record f { len = n % 2 ^ 32 })
        (set_length-fields 0 (set_flags 0 db) (setters-IsDesc 0 db h).0
          ∙ ap (λ (f : Fields). record f { len = 0 }) (set_flags-fields 0 db h))
  where
    whole : IsDesc (set_length 0 (set_flags 0 db))
    whole = (setters-IsDesc 0 (set_flags 0 db) (setters-IsDesc 0 db h).0).2

get_length-set_flags : (db : DescBuf) → IsDesc db → get_length (set_flags 0 db) ≡ get_length db
unfolding fields
get_length-set_flags db h = ap (λ (f : Fields). f.len) (set_flags-fields 0 db h)

get_offset-cleared :
    (db : DescBuf) → IsDesc db → get_offset (set_length 0 (set_flags 0 db)) ≡ get_offset db
unfolding fields
get_offset-cleared db h =
    ap (λ (f : Fields). f.offset) (set_length-fields 0 (set_flags 0 db) (setters-IsDesc 0 db h).0)
    ∙ ap (λ (f : Fields). f.offset) (set_flags-fields 0 db h)

pub get_region-cleared :
    (db : DescBuf) → IsDesc db → get_region (set_length 0 (set_flags 0 db)) ≡ get_region db
unfolding fields
get_region-cleared db h =
    ap (λ (f : Fields). f.region) (set_length-fields 0 (set_flags 0 db) (setters-IsDesc 0 db h).0)
    ∙ ap (λ (f : Fields). f.region) (set_flags-fields 0 db h)

write_index-eq :
    {q : Queue} {l : ℕ} {d : List ℕ} (i : Interface)
    → RingAt q l d
    → region_data i q.ring.region ≡ some d
    → (m : Bool) (v : ℕ)
    → (if m then write_tail q v i else write_head q v i)
      ≡ some (set_region_data q.ring.region (write_le 2 (index_address m q) v d) i)
write_index-eq i ring_at h true v = write_tail-eq ring_at i h v
write_index-eq i ring_at h false v = write_head-eq ring_at i h v

module _ {q : Queue} {l : ℕ} {d : List ℕ} (ring_at : RingAt q l d) (i : Interface)
    (h : region_data i q.ring.region ≡ some d) where
  pub free_slots-eq :
      (m : Bool) → i.args.is_master ≡ m → free_slots q i ≡ some (slot_at m q d, free_at m q d)
  unfolding free_slots
  free_slots-eq true e = simp e (rw (read_tail-eq ring_at i h, read_head-eq ring_at i h))
  free_slots-eq false e = simp e (rw (read_tail-eq ring_at i h, read_head-eq ring_at i h))

  pub publish-eq :
      (m : Bool) (s : ℕ) (desc : DescBuf) (n : ℕ) (calls : List Call)
      → i.args.is_master ≡ m
      → let d' = write_le 2 (index_address m q) (s + 1) (copy_at d (slot_address q s) desc) in
        publish q s desc n i calls
        ≡ some (record {
          count = n;
          iface = set_region_data q.ring.region d' i;
          calls = kick q d' calls;
        })
  unfolding publish
  publish-eq m s desc n calls e = simp e (
      rw (
        put_slot-eq ring_at i h s desc,
        write_index-eq (set_region_data q.ring.region d₁ i) (RingAt-length d₁ ring_at same)
            (region_data-set i q.ring.region h d₁ same) m (s + 1),
        set_region_data-set i q.ring.region h d₁ d₂,
        interrupt-eq (RingAt-length d₂ ring_at same₂) (set_region_data q.ring.region d₂ i)
            (region_data-set i q.ring.region h d₂ same₂) calls,
      ))
    where
      d₁ : List ℕ
      d₁ = copy_at d (slot_address q s) desc

      same : length d₁ ≡ length d
      same = length-copy_at d (slot_address q s) desc

      d₂ : List ℕ
      d₂ = write_le 2 (index_address m q) (s + 1) d₁

      same₂ : length d₂ ≡ length d
      same₂ = length-copy_at d₁ (index_address m q) _ ∙ same

  pub take_slot-eq :
      (m : Bool) (s : ℕ) (db : DescBuf)
      → IsDesc db
      → i.args.is_master ≡ m
      → take_slot q s db i
        ≡ some (record {
          desc = set_length 0 (set_flags 0 (desc_at q s d));
          buffer_size = size_of i m (desc_at q s d);
          offset = get_offset (desc_at q s d);
        })
  unfolding take_slot
  take_slot-eq m s db whole e = simp e (
      rw (
        get_slot-eq ring_at i h s db whole,
        get_length-set_flags (desc_at q s d) (length-desc_at ring_at s),
        get_offset-cleared (desc_at q s d) (length-desc_at ring_at s),
      ))

  pub fill_buffer-eq :
      (b : Slot) (pkt : List ℕ)
      → get_region b.desc ≡ q.ring.region
      → b.offset + b.buffer_size ≤ length d
      → fill_buffer b pkt i
        ≡ some (
          min b.buffer_size (length pkt),
          set_region_data q.ring.region (copy_at d b.offset (take b.buffer_size pkt)) i,
        )
  unfolding fill_buffer slice
  fill_buffer-eq b pkt same room =
      rw
        (
          same,
          h,
          le→leb b.offset (b.offset + b.buffer_size) (omega arith),
          le→leb (b.offset + b.buffer_size) (length d) room,
        )
        refl

write_chain-done :
    (free : ℕ) (q : Queue) (slot : ℕ) (desc : DescBuf) (n : ℕ) (pkt : List ℕ) (i : Interface)
    (calls : List Call)
    → length pkt ≤ n
    → write_chain free q slot desc n pkt i calls ≡ publish q slot desc n i calls
unfolding write_chain
write_chain-done zero q slot desc n pkt i calls h = rw (le→ltb n (length pkt) h)
write_chain-done (suc free) q slot desc n pkt i calls h = rw (le→ltb n (length pkt) h)

more : (n : ℕ) → n ≢ 0 → n ≡ suc (n - 1)
more n h = omega arith

-- What lets a sender of role `m` put `pkt` into the one buffer of its next slot: the ring lies in
-- the mapped bytes `d`, the slot's descriptor names a buffer of the same region that lies inside
-- it and outside the ring, and the packet fits that buffer.
pub record CanSend (m : Bool) (q : Queue) (l : ℕ) (d : List ℕ) (i : Interface) (pkt : List ℕ)
    : Type 0 where
  pub role : i.args.is_master ≡ m
  pub ring_at : RingAt q l d
  pub mapped : region_data i q.ring.region ≡ some d
  pub same_region : get_region (desc_at q (slot_at m q d) d) ≡ q.ring.region
  pub room :
      get_offset (desc_at q (slot_at m q d) d) + size_of i m (desc_at q (slot_at m q d) d)
      ≤ length d
  pub fits : length pkt ≤ size_of i m (desc_at q (slot_at m q d) d)
  pub outside : Outside q (get_offset (desc_at q (slot_at m q d) d)) (length pkt)

-- The region's bytes after the packet is sent.
abbrev pub sent : Bool → Queue → List ℕ → List ℕ → List ℕ
sent m q pkt d =
    place q (slot_at m q d) (get_offset (desc_at q (slot_at m q d) d)) pkt
      (reset (length pkt) (desc_at q (slot_at m q d) d)) (index_address m q) (slot_at m q d + 1) d

module _ {m : Bool} {q : Queue} {l : ℕ} {d : List ℕ} {i : Interface} {pkt : List ℕ}
    (can : CanSend m q l d i pkt) (calls : List Call) where
  first :
      (free : ℕ)
      → write_first (suc free) q (slot_at m q d) pkt i calls
        ≡ some (record {
          count = length pkt;
          iface = set_region_data q.ring.region (sent m q pkt d) i;
          calls = kick q (sent m q pkt d) calls;
        })
  unfolding write_first
  first free = rw (
    take_slot-eq can.ring_at i can.mapped m (slot_at m q d) new_desc_buf new_desc_buf-IsDesc
        can.role,
    fill_buffer-eq can.ring_at i can.mapped _ pkt
        (get_region-cleared db (length-desc_at can.ring_at (slot_at m q d)) ∙ can.same_region)
        can.room,
    take_all (size_of i m db) pkt can.fits,
    (let e : min (size_of i m db) (length pkt) ≡ length pkt = omega (arith, can.fits) in e),
    write_chain-done free q (slot_at m q d) (reset (length pkt) db) (length pkt) pkt
        (set_region_data q.ring.region d₁ i) calls (omega arith),
    publish-eq (RingAt-length d₁ can.ring_at same) (set_region_data q.ring.region d₁ i)
        (region_data-set i q.ring.region can.mapped d₁ same) m (slot_at m q d)
        (reset (length pkt) db) (length pkt) calls
        (ap (λ (a : Arguments). a.is_master) (args-set_region_data i q.ring.region d₁) ∙ can.role),
    set_region_data-set i q.ring.region can.mapped d₁ (sent m q pkt d),
  )
    where
      db : DescBuf
      db = desc_at q (slot_at m q d) d

      d₁ : List ℕ
      d₁ = copy_at d (get_offset db) pkt

      same : length d₁ ≡ length d
      same = length-copy_at d (get_offset db) pkt

  -- On a ring that lies in a mapped region, with a free slot whose buffer lies in the same region
  -- away from the ring and holds the packet: WritePacket returns the packet's length; it writes the
  -- packet into the slot's buffer, the packet's length and no flag into the descriptor, and the
  -- next index into the ring, and wakes the peer if the ring's flags ask for it.
  pub write_packet-sent :
      free_at m q d ≢ 0
      → write_packet q pkt i calls
        ≡ some (record {
          count = length pkt;
          iface = set_region_data q.ring.region (sent m q pkt d) i;
          calls = kick q (sent m q pkt d) calls;
        })
  unfolding write_packet
  write_packet-sent some_free =
      rw (free_slots-eq can.ring_at i can.mapped m can.role, more (free_at m q d) some_free)
        (first (free_at m q d - 1))

-- On a ring that lies in a mapped region, with no free slot, WritePacket returns 0 and leaves the
-- interface and its memory as they were; it wakes the peer if the ring's flags ask for it.
pub write_packet-full :
    {m : Bool} {q : Queue} {l : ℕ} {d : List ℕ} {i : Interface} (pkt : List ℕ) (calls : List Call)
    → i.args.is_master ≡ m
    → RingAt q l d
    → region_data i q.ring.region ≡ some d
    → free_at m q d ≡ 0
    → write_packet q pkt i calls ≡ some (record { count = 0; iface = i; calls = kick q d calls })
unfolding write_packet write_first
write_packet-full {m} {i = i} pkt calls role ring_at mapped none_free =
    rw (free_slots-eq ring_at i mapped m role, none_free, interrupt-eq ring_at i mapped calls)
