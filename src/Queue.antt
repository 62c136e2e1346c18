-- ===== src/Queue.antt =====
-- How a queue reaches its ring in shared memory: memif-new/memif/memif_unsafe.go and the
-- descriptor and ring copies of memif.go. A run-time panic, or an unsafe access that leaves the
-- mapped slice, is `none`.
pub mod Memory
pub mod View
use memif.Prelude.{
  ℕ, ◌+◌, ◌*◌, ◌%◌, ◌^◌, Bool, Option, none, some, List, [], ◌∷◌, ◌++◌, ltb, leb, ◌==◌,
  if◌then◌else◌, length, get_elem?, set, bit_and, take, drop,
}
use memif.Bytes.{copy, copy_at, slice_from, read_le, write_le}
use memif.Desc.{DescBuf, desc_size, desc_length_offset}
use memif.Types.{Interface, MemoryRegion, Queue, Ring}
use memif.Types.Os.{Os, Call, write}
use memif.Ring.{ring_size, ring_flags_offset, ring_head_offset, ring_tail_offset, int}

infixl 5 ◌>>=◌
abbrev pub ◌>>=◌ {ℓ κ} : {A : Type ℓ} {B : Type κ} → Option A → (A → Option B) → Option B
none >>= f = none
some a >>= f = f a

-- `i.regions[k].data`, where a nil slice has no bytes.
abbrev pub region_bytes : MemoryRegion → List ℕ
region_bytes r = elim r.bytes [ none ↦ [] | some xs ↦ xs ]

unfoldable pub region_data : Interface → ℕ → Option (List ℕ)
region_data i k = do r ← get_elem? i.regions k; some (region_bytes r)

-- Write `xs` where the slice of region `k` was: both have the same length.
abbrev pub with_bytes : MemoryRegion → List ℕ → MemoryRegion
with_bytes r xs = record r { bytes = elim r.bytes [ none ↦ none | some _ ↦ some xs ] }

unfoldable pub set_region_data : ℕ → List ℕ → Interface → Interface
set_region_data k xs i = elim (get_elem? i.regions k) [
  | none ↦ i
  | some r ↦ record i { regions = set i.regions k (with_bytes r xs) }
]

-- `*(*uint16)(unsafe.Pointer(&data[addr]))`
unfoldable pub load16 : Interface → ℕ → ℕ → Option ℕ
load16 i k addr = do
  d ← region_data i k
  if ltb (addr + 1) (length d) then some (read_le 2 addr d) else none

unfoldable pub store16 : ℕ → ℕ → ℕ → Interface → Option Interface
store16 k addr val i = do
  d ← region_data i k
  if ltb (addr + 1) (length d) then some (set_region_data k (write_le 2 addr val d) i) else none

unfoldable pub read_head : Queue → Interface → Option ℕ
read_head q i = load16 i q.ring.region (int (q.ring.offset + ring_head_offset))

unfoldable pub read_tail : Queue → Interface → Option ℕ
read_tail q i = load16 i q.ring.region (int (q.ring.offset + ring_tail_offset))

unfoldable pub write_head : Queue → ℕ → Interface → Option Interface
write_head q value i = store16 q.ring.region (int (q.ring.offset + ring_head_offset)) value i

unfoldable pub write_tail : Queue → ℕ → Interface → Option Interface
write_tail q value i = store16 q.ring.region (int (q.ring.offset + ring_tail_offset)) value i

-- The address of descriptor `slot`.
abbrev pub desc_address : Queue → ℕ → ℕ
desc_address q slot = int (q.ring.offset + ring_size + slot * desc_size)

-- It stores the low 16 bits of the 32-bit length field.
unfoldable pub set_desc_length : Queue → ℕ → ℕ → Interface → Option Interface
set_desc_length q slot len i =
    store16 q.ring.region (int (q.ring.offset + ring_size + slot * desc_size + desc_length_offset))
      len i

unfoldable pub get_flags : Queue → Interface → Option ℕ
get_flags q i = load16 i q.ring.region (int (q.ring.offset + ring_flags_offset))

-- getDescBuf: the new contents of the descriptor buffer `db`.
unfoldable pub get_desc_buf : Queue → ℕ → DescBuf → Interface → Option DescBuf
get_desc_buf q slot db i = do
  d ← region_data i q.ring.region
  src ← slice_from d (desc_address q slot)
  some (copy db src)

unfoldable pub put_desc_buf : Queue → ℕ → DescBuf → Interface → Option Interface
put_desc_buf q slot db i = do
  d ← region_data i q.ring.region
  _ ← slice_from d (desc_address q slot)
  some (set_region_data q.ring.region (copy_at d (desc_address q slot) db) i)

-- putRing
unfoldable pub put_ring : Queue → Interface → Option Interface
put_ring q i = do
  d ← region_data i q.ring.region
  _ ← slice_from d q.ring.offset
  some (set_region_data q.ring.region (copy_at d q.ring.offset q.ring.rb) i)

-- updateRing: the ring with its header read from shared memory.
unfoldable pub update_ring : Queue → Interface → Option Ring
update_ring q i = do
  d ← region_data i q.ring.region
  src ← slice_from d q.ring.offset
  some (record q.ring { rb = copy q.ring.rb src })

abbrev pub ring_flag_interrupt : ℕ
ring_flag_interrupt = 1

-- isInterrupt
unfoldable pub is_interrupt : Queue → Interface → Option Bool
is_interrupt q i = do flags ← get_flags q i; some (bit_and flags ring_flag_interrupt == 0)

-- The eight bytes that wake an eventfd: `binary.PutUvarint(buf, 1)`.
abbrev pub wake_bytes : List ℕ
wake_bytes = 1 ∷ 0 ∷ 0 ∷ 0 ∷ 0 ∷ 0 ∷ 0 ∷ 0 ∷ []

-- `interrupt`, but for the error that its callers drop: the requests with that of this call.
unfoldable pub interrupt : Queue → Interface → List Call → Option (List Call)
interrupt q i calls = do
  on ← is_interrupt q i
  some (if on then calls ++ (write q.interrupt_fd wake_bytes ∷ []) else calls)
