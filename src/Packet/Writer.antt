-- ===== src/Packet/Writer.antt =====
-- WritePacket of memif-new/memif/packet_writer.go.
use memif.Prelude.{
  ℕ, zero, suc, ◌+◌, ◌-◌, ◌%◌, ◌^◌, Option, some, List, ltb, if◌then◌else◌, length, bit_and, take,
  min,
}
use memif.Bytes.{copy_at, slice}
use memif.Desc.{
  DescBuf, desc_flag_next, new_desc_buf, set_flags, set_length, get_region, get_length, get_offset,
}
use memif.Types.{Interface, Queue}
use memif.Types.Os.{Call}
use memif.Ring.{int}
use memif.Queue.{
  ◌>>=◌, region_data, set_region_data, read_head, read_tail, write_head, write_tail, get_desc_buf,
  put_desc_buf, interrupt,
}

-- `q.ring.size - 1`
abbrev pub slot_mask : Queue → ℕ
slot_mask q = int (q.ring.size + 2 ^ 64 - 1)

-- What a call of WritePacket returns and leaves: the count, the interface and the requests.
pub record Written : Type 0 where
  pub count : ℕ
  pub iface : Interface
  pub calls : List Call

-- The descriptor of `slot` with flags and length reset, its buffer's size and offset.
pub record Slot : Type 0 where
  pub desc : DescBuf
  pub buffer_size : ℕ
  pub offset : ℕ

-- Getting the next descriptor: a master takes the buffer's size from the descriptor.
unfoldable pub take_slot : Queue → ℕ → DescBuf → Interface → Option Slot
take_slot q slot db i = do
  db' ← get_desc_buf q (bit_and slot (slot_mask q)) db i
  let desc = set_flags 0 db'
  some (record {
    desc = set_length 0 desc;
    buffer_size = if i.args.is_master then get_length desc else i.run.packet_buffer_size;
    offset = get_offset (set_length 0 desc);
  })

-- `copy(data[offset:offset+size], pkt[:])`: the bytes copied, and the interface.
unfoldable pub fill_buffer : Slot → List ℕ → Interface → Option (ℕ × Interface)
fill_buffer s pkt i = do
  d ← region_data i (get_region s.desc)
  _ ← slice d s.offset (s.offset + s.buffer_size)
  some (
    min s.buffer_size (length pkt),
    set_region_data (get_region s.desc) (copy_at d s.offset (take s.buffer_size pkt)) i,
  )

-- After the loop: the last descriptor, and the index that the peer reads.
unfoldable pub publish : Queue → ℕ → DescBuf → ℕ → Interface → List Call → Option Written
publish q slot desc n i calls = do
  i₁ ← put_desc_buf q (bit_and slot (slot_mask q)) desc i
  i₂ ← if i.args.is_master then write_tail q (slot + 1) i₁ else write_head q (slot + 1) i₁
  calls' ← interrupt q i₂ calls
  some (record { count = n; iface = i₂; calls = calls' })

-- The loop `for n < len(pkt)`, with `free` the slots left behind `slot`. It copies the packet's
-- first bytes into every buffer, as the code does.
unfoldable pub write_chain :
    ℕ → Queue → ℕ → DescBuf → ℕ → List ℕ → Interface → List Call → Option Written
write_chain zero q slot desc n pkt i calls =
    if ltb n (length pkt)
    then (do calls' ← interrupt q i calls; some (record { count = 0; iface = i; calls = calls' }))
    else publish q slot desc n i calls
write_chain (suc free) q slot desc n pkt i calls =
    let more : Option Written = do
      i₁ ← put_desc_buf q (bit_and slot (slot_mask q)) (set_flags desc_flag_next desc) i
      s ← take_slot q (slot + 1) (set_flags desc_flag_next desc) i₁
      (tmp, i₂) ← fill_buffer s pkt i₁
      write_chain free q (slot + 1) (set_length tmp s.desc) (n + tmp) pkt i₂ calls
    in if ltb n (length pkt) then more else publish q slot desc n i calls

-- The first buffer, once a slot is free.
unfoldable pub write_first : ℕ → Queue → ℕ → List ℕ → Interface → List Call → Option Written
write_first zero q slot pkt i calls = do
  calls' ← interrupt q i calls
  some (record { count = 0; iface = i; calls = calls' })
write_first (suc free) q slot pkt i calls = do
  s ← take_slot q slot new_desc_buf i
  (n, i₁) ← fill_buffer s pkt i
  write_chain free q slot (set_length n s.desc) n pkt i₁ calls

-- The slot that WritePacket begins at, and how many are free: uint16 differences.
unfoldable pub free_slots : Queue → Interface → Option (ℕ × ℕ)
free_slots q i =
    if i.args.is_master
    then (do
      slot ← read_tail q i
      head ← read_head q i
      some (slot, (head + 2 ^ 16 - slot) % 2 ^ 16))
    else (do
      slot ← read_head q i
      tail ← read_tail q i
      some (slot, (q.ring.size + 2 ^ 16 - slot + tail) % 2 ^ 16))

unfoldable pub write_packet : Queue → List ℕ → Interface → List Call → Option Written
write_packet q pkt i calls = do (slot, free) ← free_slots q i; write_first free q slot pkt i calls
