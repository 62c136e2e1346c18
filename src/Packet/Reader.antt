-- ===== src/Packet/Reader.antt =====
-- ReadPacket of memif-new/memif/packet_reader.go.
use memif.Prelude.{
  ℕ, zero, suc, ◌+◌, ◌-◌, ◌%◌, ◌^◌, Bool, Option, some, true, false, List, ◌==◌, if◌then◌else◌,
  bit_and,
}
use memif.Bytes.{copy_at, slice, slice_from}
use memif.Desc.{
  DescBuf, desc_flag_next, new_desc_buf, get_flags, get_region, get_length, get_offset,
}
use memif.Types.{Interface, Queue}
use memif.Queue.{
  ◌>>=◌, region_data, read_head, read_tail, write_head, write_tail, get_desc_buf, set_desc_length,
}
use memif.Packet.Writer.{slot_mask}

-- What a call of ReadPacket returns and leaves. `complete` is false for the error "Incomplete
-- chained buffer"; the count is 0 then.
pub record ReadResult : Type 0 where
  pub count : ℕ
  pub complete : Bool
  pub pkt : List ℕ
  pub queue : Queue
  pub iface : Interface

-- One descriptor: `desc`, the packet buffer and the count after it.
pub record Chunk : Type 0 where
  pub desc : DescBuf
  pub pkt : List ℕ
  pub pkt_offset : ℕ

-- Copy the buffer of descriptor `slot` to `pkt[pktOffset:]`.
unfoldable pub read_slot : Queue → ℕ → DescBuf → List ℕ → ℕ → Interface → Option Chunk
read_slot q slot db pkt pkt_offset i = do
  desc ← get_desc_buf q (bit_and slot (slot_mask q)) db i
  let len = get_length desc
  d ← region_data i (get_region desc)
  src ← slice d (get_offset desc) (get_offset desc + len)
  _ ← slice_from pkt pkt_offset
  some (record { desc = desc; pkt = copy_at pkt pkt_offset src; pkt_offset = pkt_offset + len })

-- `for nSlots > 0 { setDescLength(head & mask); head++ }`, then writeHead.
unfoldable pub refill : ℕ → Queue → ℕ → Interface → Option Interface
refill zero q head i = write_head q head i
refill (suc n) q head i = do
  i₁ ← set_desc_length q (bit_and head (slot_mask q)) i.run.packet_buffer_size i
  refill n q (head + 1) i₁

abbrev pub read_done : ℕ → List ℕ → Queue → Interface → ReadResult
read_done n pkt q i = record { count = n; complete = true; pkt = pkt; queue = q; iface = i }

-- From the label refill: on.
unfoldable pub finish : Queue → ℕ → List ℕ → ℕ → Interface → Option ReadResult
finish q slot pkt pkt_offset i =
    if i.args.is_master
    then (do
      i' ← write_tail q slot i
      some (read_done pkt_offset pkt (record q { last_head = slot % 2 ^ 16 }) i'))
    else (do
      head ← read_head q i
      i' ← refill ((q.ring.size + 2 ^ 16 - head + slot % 2 ^ 16) % 2 ^ 16) q head i
      some (read_done pkt_offset pkt (record q { last_tail = slot % 2 ^ 16 }) i'))

-- The loop over chained descriptors, with `n_slots` slots that the peer has passed on.
unfoldable pub read_chain : ℕ → Queue → ℕ → Chunk → Interface → Option ReadResult
read_chain zero q slot c i =
    if bit_and (get_flags c.desc) desc_flag_next == desc_flag_next
    then some (record { count = 0; complete = false; pkt = c.pkt; queue = q; iface = i })
    else finish q slot c.pkt c.pkt_offset i
read_chain (suc n_slots) q slot c i =
    let more : Option ReadResult = do
      c' ← read_slot q slot c.desc c.pkt c.pkt_offset i
      read_chain n_slots q (slot + 1) c' i
    in if bit_and (get_flags c.desc) desc_flag_next == desc_flag_next
      then more
      else finish q slot c.pkt c.pkt_offset i

unfoldable pub read_first : ℕ → Queue → ℕ → List ℕ → Interface → Option ReadResult
read_first zero q slot pkt i = finish q slot pkt 0 i
read_first (suc n_slots) q slot pkt i = do
  c ← read_slot q slot new_desc_buf pkt 0 i
  read_chain n_slots q (slot + 1) c i

unfoldable pub read_packet : Queue → List ℕ → Interface → Option ReadResult
read_packet q pkt i =
    if i.args.is_master
    then (do
      last_slot ← read_head q i
      read_first ((last_slot + 2 ^ 16 - q.last_head) % 2 ^ 16) q q.last_head pkt i)
    else (do
      last_slot ← read_tail q i
      read_first ((last_slot + 2 ^ 16 - q.last_tail) % 2 ^ 16) q q.last_tail pkt i)
