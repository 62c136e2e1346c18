-- ===== src/Packet/Place.antt =====
-- The three writes by which a packet of one buffer is sent, and what is read after them: the
-- packet, its descriptor, and the index.
use memif.Prelude.{ℕ, ◌+◌, ◌*◌, ◌%◌, ◌^◌, ◌≤◌, ◌≡◌, arith, List, length, ap, ◌∙◌, ◌⊎◌, inl, inr}
use memif.Bytes.{copy_at, bytes_at, read_le, write_le, to_le, of_le}
use memif.Bytes.Copy.{bytes_at-copy_at_self, bytes_at-copy_at_apart, length-copy_at}
use memif.Bytes.Endian.{read_le-write_le_16}
use memif.Desc.{DescBuf}
use memif.Types.{Queue}
use memif.Queue.View.{RingAt, slot_address, desc_at, slot_inside, slot-lt}

-- Packet bytes at `buf`, descriptor `desc` for index `s`, and `v` at `index`.
abbrev pub place : Queue → ℕ → ℕ → List ℕ → DescBuf → ℕ → ℕ → List ℕ → List ℕ
place q s buf pkt desc index v d =
    write_le 2 index v (copy_at (copy_at d buf pkt) (slot_address q s) desc)

-- Bytes `lo .. lo+n` lie before the ring or behind it.
abbrev pub Outside : Queue → ℕ → ℕ → Type 0
Outside q lo n = (lo + n ≤ q.ring.offset) ⊎ (q.ring.offset + 128 + 16 * q.ring.size ≤ lo)

-- Two bytes of the ring's header.
abbrev pub InHeader : Queue → ℕ → Type 0
InHeader q index = (q.ring.offset ≤ index) × (index + 2 ≤ q.ring.offset + 128)

pub Outside-cases :
    (q : Queue) (lo n a m : ℕ)
    → Outside q lo n
    → q.ring.offset ≤ a
    → a + m ≤ q.ring.offset + 128 + 16 * q.ring.size
    → (lo + n ≤ a) ⊎ (a + m ≤ lo)
Outside-cases q lo n a m (inl h) from to = inl (omega arith)
Outside-cases q lo n a m (inr h) from to = inr (omega arith)

pub swap_sides : {A B : Type 0} → A ⊎ B → B ⊎ A
swap_sides (inl a) = inr a
swap_sides (inr b) = inl b

module _ {q : Queue} {l : ℕ} {d : List ℕ} (ring_at : RingAt q l d) (s buf : ℕ) (pkt : List ℕ)
    (desc : DescBuf) (index v : ℕ) (desc_whole : length desc ≡ 16)
    (fits : buf + length pkt ≤ length d) (outside : Outside q buf (length pkt))
    (header : InHeader q index) where
  abbrev with_packet : List ℕ
  with_packet = copy_at d buf pkt

  pub length-place : length (place q s buf pkt desc index v d) ≡ length d
  length-place =
      length-copy_at _ index (to_le 2 v)
      ∙ length-copy_at (copy_at d buf pkt) (slot_address q s) desc
      ∙ length-copy_at d buf pkt

  -- Bytes of the ring's own, apart from what is written into it.
  pub place_frame :
      (lo n : ℕ)
      → (lo + n ≤ index) ⊎ (index + 2 ≤ lo)
      → (lo + n ≤ slot_address q s) ⊎ (slot_address q s + 16 ≤ lo)
      → (lo + n ≤ buf) ⊎ (buf + length pkt ≤ lo)
      → bytes_at lo n (place q s buf pkt desc index v d) ≡ bytes_at lo n d
  place_frame lo n from_index from_desc from_buffer =
      bytes_at-copy_at_apart _ index (to_le 2 v) lo n from_index
      ∙ bytes_at-copy_at_apart _ (slot_address q s) desc lo n (rw desc_whole from_desc)
      ∙ bytes_at-copy_at_apart d buf pkt lo n from_buffer

  pub packet-place : bytes_at buf (length pkt) (place q s buf pkt desc index v d) ≡ pkt
  packet-place =
      bytes_at-copy_at_apart _ index (to_le 2 v) buf (length pkt)
        (Outside-cases q buf (length pkt) index 2 outside (omega arith) (omega arith))
      ∙ bytes_at-copy_at_apart _ (slot_address q s) desc buf (length pkt) (
          rw desc_whole (
            Outside-cases q buf (length pkt) (slot_address q s) 16 outside (omega arith)
              (omega (arith, slot-lt ring_at s))))
      ∙ bytes_at-copy_at_self d buf pkt fits

  pub desc_at-place : desc_at q s (place q s buf pkt desc index v d) ≡ desc
  desc_at-place =
      bytes_at-copy_at_apart _ index (to_le 2 v) (slot_address q s) 16 (inr (omega arith))
      ∙ rw desc_whole at (
          bytes_at-copy_at_self with_packet (slot_address q s) desc
            (omega (arith, desc_whole, slot_inside ring_at s, length-copy_at d buf pkt)))

  pub index-place : read_le 2 index (place q s buf pkt desc index v d) ≡ v % 2 ^ 16
  index-place = read_le-write_le_16 index v _ (
      omega (
        arith,
        slot_inside ring_at s,
        length-copy_at with_packet (slot_address q s) desc,
        length-copy_at d buf pkt,
      ))

  -- Any other two bytes of the header.
  pub other_index-place :
      (other : ℕ)
      → InHeader q other
      → (other + 2 ≤ index) ⊎ (index + 2 ≤ other)
      → read_le 2 other (place q s buf pkt desc index v d) ≡ read_le 2 other d
  other_index-place other in_header apart = ap of_le (
      place_frame other 2 apart (inl (omega arith))
        (swap_sides (Outside-cases q buf (length pkt) other 2 outside (omega arith) (omega arith))))
