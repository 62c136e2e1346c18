-- ===== src/Packet/Gather.antt =====
-- ReadPacket of memif-new/memif/packet_reader.go against a definition of what a packet in several
-- buffers is: the buffers of a chain of slots, one after the other.
use memif.Prelude.{
  ℕ, zero, suc, ◌+◌, ◌-◌, ◌%◌, ◌^◌, ◌≤◌, ◌≡◌, ◌≢◌, refl, Bool-cases, inl, inr, sym, ap, ◌∙◌, arith,
  Bool, true, false, List, [], ◌∷◌, ◌++◌, length, length-append, some, Option, ◌==◌, if◌then◌else◌,
  bit_and,
}
use memif.Bytes.{bytes_at, copy_at}
use memif.Bytes.Copy.{length-bytes_at, length-copy_at, copy_at-append}
use memif.Desc.{
  DescBuf, desc_flag_next, new_desc_buf, get_flags, get_region, get_length, get_offset,
}
use memif.Desc.Fields.{new_desc_buf-IsDesc}
use memif.Types.{Interface, Queue}
use memif.Queue.{◌>>=◌, region_data, set_region_data}
use memif.Queue.View.{RingAt, desc_at, length-desc_at}
use memif.Packet.Reader.{
  ReadResult, read_slot, read_chain, read_first, read_packet, read_done, finish,
}
use memif.Packet.Receive.{
  last_index, set_last_index, pending_at, consumed, read_slot-eq, finish-eq, read_packet-eq,
}

-- A packet as far as its slots are there: its bytes, its slots, and whether the last is there.
pub record Gathered : Type 0 where
  pub bytes : List ℕ
  pub slots : ℕ
  pub complete : Bool

append_nil : (xs : List ℕ) → xs ++ [] ≡ xs
append_nil [] = refl
append_nil (x ∷ xs) = ap (λ r. x ∷ r) (append_nil xs)

-- The buffer that the descriptor for index `slot` names.
abbrev pub buffer_at : Queue → List ℕ → ℕ → List ℕ
buffer_at q d slot = bytes_at (get_offset (desc_at q slot d)) (get_length (desc_at q slot d)) d

abbrev pub has_next : Queue → List ℕ → ℕ → Bool
has_next q d slot = bit_and (get_flags (desc_at q slot d)) desc_flag_next == desc_flag_next

-- The packet that begins at index `slot`, with `n` slots to look at.
unfoldable pub gather : Queue → List ℕ → ℕ → ℕ → Gathered
gather q d zero slot = record { bytes = []; slots = 0; complete = false }
gather q d (suc n) slot =
    let rest = gather q d n (slot + 1) in
    if has_next q d slot
    then record {
      bytes = buffer_at q d slot ++ rest.bytes;
      slots = suc rest.slots;
      complete = rest.complete;
    }
    else record { bytes = buffer_at q d slot; slots = 1; complete = true }

-- Every descriptor names bytes of the ring's region that lie inside it.
pub record Readable (q : Queue) (d : List ℕ) : Type 0 where
  pub region : (s : ℕ) → get_region (desc_at q s d) ≡ q.ring.region
  pub room : (s : ℕ) → get_offset (desc_at q s d) + get_length (desc_at q s d) ≤ length d

module _ (m : Bool) (q : Queue) (l : ℕ) (d : List ℕ) (i : Interface) (role : i.args.is_master ≡ m)
    (ring_at : RingAt q l d) (mapped : region_data i q.ring.region ≡ some d)
    (readable : Readable q d) where
  -- What ReadPacket does with the gathered packet, with `at_byte` bytes in `pkt` already.
  abbrev result : Bool → ℕ → List ℕ → ℕ → ReadResult
  result complete count pkt slot =
      if complete
      then read_done count pkt (set_last_index m (slot % 2 ^ 16) q)
          (set_region_data q.ring.region (consumed m i.run q slot d) i)
      else record { count = 0; complete = false; pkt = pkt; queue = q; iface = i }

  abbrev pub outcome : Gathered → ℕ → List ℕ → ℕ → ReadResult
  outcome g slot pkt at_byte =
      result g.complete (at_byte + length g.bytes) (copy_at pkt at_byte g.bytes) (slot + g.slots)

  abbrev from_slot : ℕ → ℕ → DescBuf → List ℕ → ℕ → Option ReadResult
  from_slot n slot db pkt at_byte = do
    c ← read_slot q slot db pkt at_byte i
    read_chain n q (slot + 1) c i

  length-buffer_at : (slot : ℕ) → length (buffer_at q d slot) ≡ get_length (desc_at q slot d)
  length-buffer_at slot = length-bytes_at d _ (get_length (desc_at q slot d)) (readable.room slot)

  last-outcome :
      (slot : ℕ) (pkt : List ℕ) (at_byte : ℕ)
      → finish q
          (slot + 1)
          (copy_at pkt at_byte (buffer_at q d slot))
          (at_byte + get_length (desc_at q slot d))
          i
        ≡ some (
            outcome
              (record { bytes = buffer_at q d slot; slots = 1; complete = true })
              slot
              pkt
              at_byte)
  last-outcome slot pkt at_byte =
      finish-eq ring_at i mapped m (slot + 1) _ (at_byte + get_length (desc_at q slot d)) role
      ∙ rw (length-buffer_at slot) refl

  -- The packet goes on in the next slot.
  more-outcome :
      (g : Gathered) (slot : ℕ) (pkt : List ℕ) (at_byte : ℕ)
      → at_byte + get_length (desc_at q slot d) ≤ length pkt
      → outcome g
          (slot + 1)
          (copy_at pkt at_byte (buffer_at q d slot))
          (at_byte + get_length (desc_at q slot d))
        ≡ outcome
            (record {
              bytes = buffer_at q d slot ++ g.bytes;
              slots = suc g.slots;
              complete = g.complete;
            })
            slot
            pkt
            at_byte
  more-outcome g slot pkt at_byte room =
      let counted : at_byte + get_length (desc_at q slot d) + length g.bytes
          ≡ at_byte + length (buffer_at q d slot ++ g.bytes) =
        omega (arith, length-append {0} (buffer_at q d slot) g.bytes, length-buffer_at slot) in
      let copied : copy_at (copy_at pkt at_byte (buffer_at q d slot))
            (at_byte + get_length (desc_at q slot d)) g.bytes
          ≡ copy_at pkt at_byte (buffer_at q d slot ++ g.bytes) =
        ap (λ n. copy_at (copy_at pkt at_byte (buffer_at q d slot)) (at_byte + n) g.bytes)
          (sym (length-buffer_at slot))
        ∙ (copy_at-append pkt at_byte (buffer_at q d slot) g.bytes
            (omega (arith, length-buffer_at slot))) in
      let index : slot + 1 + g.slots ≡ slot + suc g.slots = omega arith in
      λ k. result g.complete (counted k) (copied k) (index k)

  joined :
      (xs : List ℕ) (slot : ℕ) (pkt : List ℕ) (at_byte : ℕ)
      → at_byte + length (buffer_at q d slot ++ xs) ≤ length pkt
      → (at_byte + get_length (desc_at q slot d) ≤ length pkt)
        × (at_byte + get_length (desc_at q slot d) + length xs
            ≤ length (copy_at pkt at_byte (buffer_at q d slot)))
  joined xs slot pkt at_byte fits =
      rw (length-copy_at pkt at_byte (buffer_at q d slot), ← length-buffer_at slot)
        (
          omega (arith, length-append {0} (buffer_at q d slot) xs),
          omega (arith, length-append {0} (buffer_at q d slot) xs),
        )

  from_slot-outcome :
      (n slot : ℕ) (db : DescBuf) (pkt : List ℕ) (at_byte : ℕ)
      → length db ≡ 16
      → at_byte + length (gather q d (suc n) slot).bytes ≤ length pkt
      → from_slot n slot db pkt at_byte ≡ some (outcome (gather q d (suc n) slot) slot pkt at_byte)
  unfolding gather read_chain
  from_slot-outcome zero slot db pkt at_byte whole room =
      rw
        (read_slot-eq ring_at i mapped slot db pkt at_byte whole (readable.region slot)
          (readable.room slot) (omega arith))
        (elim (Bool-cases (has_next q d slot)) [
          | inl e ↦ rw (e, append_nil (buffer_at q d slot)) refl
          | inr e ↦ rw e (last-outcome slot pkt at_byte)
        ])
  from_slot-outcome (suc n) slot db pkt at_byte whole room =
      rw
        (read_slot-eq ring_at i mapped slot db pkt at_byte whole (readable.region slot)
          (readable.room slot) (omega arith))
        (elim (Bool-cases (has_next q d slot)) [
          | inl e ↦
              let (here, later) =
                joined (gather q d (suc n) (slot + 1)).bytes slot pkt at_byte (rw e at room) in
              rw e (
                from_slot-outcome n (slot + 1) (desc_at q slot d) _ _ (length-desc_at ring_at slot)
                  later
                ∙ ap some (more-outcome (gather q d (suc n) (slot + 1)) slot pkt at_byte here))
          | inr e ↦ rw e (last-outcome slot pkt at_byte)
        ])

some_slot : (n : ℕ) → n ≢ 0 → n ≡ suc (n - 1)
some_slot n h = omega arith

-- ReadPacket by either role, on a ring whose descriptors all name bytes inside its region, with a
-- slot pending at least, agrees with `gather` on the pending slots, where the client's buffer has
-- room for what they hold. When the last slot of the packet is there, the count is the length of
-- the gathered bytes, they are at the front of the buffer, and the queue moves past the packet's
-- slots, which are given back. When it is not, the call returns the error of an incomplete chain
-- and the count 0, and the queue and the memory are as before.
pub read_packet-gathers :
    (m : Bool) (q : Queue) (l : ℕ) (d : List ℕ) (i : Interface) (pkt : List ℕ)
    (role : i.args.is_master ≡ m) (ring_at : RingAt q l d)
    (mapped : region_data i q.ring.region ≡ some d) (readable : Readable q d)
    → pending_at m q d ≢ 0
    → length (gather q d (pending_at m q d) (last_index m q)).bytes ≤ length pkt
    → let g = gather q d (pending_at m q d) (last_index m q) in
      read_packet q pkt i
      ≡ some (
          if g.complete
          then record {
            count = length g.bytes;
            complete = true;
            pkt = copy_at pkt 0 g.bytes;
            queue = set_last_index m ((last_index m q + g.slots) % 2 ^ 16) q;
            iface =
                set_region_data q.ring.region (consumed m i.run q (last_index m q + g.slots) d) i;
          }
          else record {
            count = 0;
            complete = false;
            pkt = copy_at pkt 0 g.bytes;
            queue = q;
            iface = i;
          })
unfolding read_first
read_packet-gathers m q l d i pkt role ring_at mapped readable pending room =
    rw (read_packet-eq m pkt i role ring_at mapped, some_slot (pending_at m q d) pending)
      (from_slot-outcome m q l d i role ring_at mapped readable (pending_at m q d - 1)
          (last_index m q) new_desc_buf pkt 0 new_desc_buf-IsDesc
          (rw none_before (rw (some_slot (pending_at m q d) pending) at room))
        ∙ rw none_before refl)
  where
    none_before :
        0 + length (gather q d (suc (pending_at m q d - 1)) (last_index m q)).bytes
        ≡ length (gather q d (suc (pending_at m q d - 1)) (last_index m q)).bytes
    none_before = omega arith
