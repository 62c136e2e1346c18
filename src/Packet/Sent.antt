-- ===== src/Packet/Sent.antt =====
-- The memory after WritePacket of memif-new/memif/packet_writer.go has sent a packet of one buffer:
-- the descriptor, the packet and the index, and what stays as it was.
use memif.Prelude.{◌⊎◌, ℕ, ◌+◌, ◌%◌, ◌^◌, ◌≤◌, ◌≡◌, arith, List, length, ap, Bool, true, false}
use memif.Bytes.{read_le, bytes_at}
use memif.Desc.{DescBuf, get_flags, get_region, get_length, get_offset}
use memif.Desc.Fields.{Fields, fields, IsDesc, setters-IsDesc}
use memif.Types.{Interface, Queue}
use memif.Queue.View.{slot_address, desc_at, length-desc_at}
use memif.Packet.Place.{
  place_frame, other_index-place, length-place, packet-place, desc_at-place, index-place, InHeader,
}
use memif.Packet.Send.{CanSend, slot_at, sent, index_address, reset, reset-fields}

module _ (n : ℕ) (db : DescBuf) (h : IsDesc db) where
  pub get_flags-reset : get_flags (reset n db) ≡ 0
  unfolding fields
  get_flags-reset = ap (λ (f : Fields). f.flags) (reset-fields n db h)

  pub get_length-reset : get_length (reset n db) ≡ n % 2 ^ 32
  unfolding fields
  get_length-reset = ap (λ (f : Fields). f.len) (reset-fields n db h)

  pub get_offset-reset : get_offset (reset n db) ≡ get_offset db
  unfolding fields
  get_offset-reset = ap (λ (f : Fields). f.offset) (reset-fields n db h)

  pub get_region-reset : get_region (reset n db) ≡ get_region db
  unfolding fields
  get_region-reset = ap (λ (f : Fields). f.region) (reset-fields n db h)

  pub reset-IsDesc : IsDesc (reset n db)
  reset-IsDesc = (setters-IsDesc n _ (setters-IsDesc 0 _ (setters-IsDesc 0 db h).0).2).2

pub index-InHeader : (m : Bool) (q : Queue) → InHeader q (index_address m q)
index-InHeader true q = omega arith
index-InHeader false q = omega arith

module _ {m : Bool} {q : Queue} {l : ℕ} {d : List ℕ} {i : Interface} {pkt : List ℕ}
    (can : CanSend m q l d i pkt) where
  abbrev pub next_desc : DescBuf
  next_desc = desc_at q (slot_at m q d) d

  pub whole : IsDesc next_desc
  whole = length-desc_at can.ring_at (slot_at m q d)

  pub fits : get_offset next_desc + length pkt ≤ length d
  fits = omega (arith, can.room, can.fits)

  pub length-sent : length (sent m q pkt d) ≡ length d
  length-sent =
      length-place can.ring_at (slot_at m q d) (get_offset next_desc) pkt
        (reset (length pkt) next_desc) (index_address m q) (slot_at m q d + 1)
        (reset-IsDesc (length pkt) next_desc whole) fits can.outside (index-InHeader m q)

  pub desc_at-sent : desc_at q (slot_at m q d) (sent m q pkt d) ≡ reset (length pkt) next_desc
  desc_at-sent =
      desc_at-place can.ring_at (slot_at m q d) (get_offset next_desc) pkt
        (reset (length pkt) next_desc) (index_address m q) (slot_at m q d + 1)
        (reset-IsDesc (length pkt) next_desc whole) fits can.outside (index-InHeader m q)

  pub packet-sent : bytes_at (get_offset next_desc) (length pkt) (sent m q pkt d) ≡ pkt
  packet-sent =
      packet-place can.ring_at (slot_at m q d) (get_offset next_desc) pkt
        (reset (length pkt) next_desc) (index_address m q) (slot_at m q d + 1)
        (reset-IsDesc (length pkt) next_desc whole) fits can.outside (index-InHeader m q)

  pub index-sent : slot_at m q (sent m q pkt d) ≡ (slot_at m q d + 1) % 2 ^ 16
  index-sent =
      index-place can.ring_at (slot_at m q d) (get_offset next_desc) pkt
        (reset (length pkt) next_desc) (index_address m q) (slot_at m q d + 1)
        (reset-IsDesc (length pkt) next_desc whole) fits can.outside (index-InHeader m q)

  -- What the three writes do not reach.
  pub sent_frame :
      (lo n : ℕ)
      → (lo + n ≤ index_address m q) ⊎ (index_address m q + 2 ≤ lo)
      → (lo + n ≤ slot_address q (slot_at m q d)) ⊎ (slot_address q (slot_at m q d) + 16 ≤ lo)
      → (lo + n ≤ get_offset next_desc) ⊎ (get_offset next_desc + length pkt ≤ lo)
      → bytes_at lo n (sent m q pkt d) ≡ bytes_at lo n d
  sent_frame =
      place_frame can.ring_at (slot_at m q d) (get_offset next_desc) pkt
        (reset (length pkt) next_desc) (index_address m q) (slot_at m q d + 1)
        (reset-IsDesc (length pkt) next_desc whole) fits can.outside (index-InHeader m q)

  pub other_index-sent :
      (other : ℕ)
      → InHeader q other
      → (other + 2 ≤ index_address m q) ⊎ (index_address m q + 2 ≤ other)
      → read_le 2 other (sent m q pkt d) ≡ read_le 2 other d
  other_index-sent =
      other_index-place can.ring_at (slot_at m q d) (get_offset next_desc) pkt
        (reset (length pkt) next_desc) (index_address m q) (slot_at m q d + 1)
        (reset-IsDesc (length pkt) next_desc whole) fits can.outside (index-InHeader m q)
