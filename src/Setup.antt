-- ===== src/Setup.antt =====
-- What a slave sets up before it connects: its memory region and its queues (addRegion,
-- initializeRegions, initializeQueues of memif-new/memif/interface.go; memfdCreate of
-- interface_unsafe.go).
pub mod Frame
pub mod Descs
pub mod Write
pub mod Round
pub mod Memory
pub mod Queues
pub mod Pair
pub mod Regions
pub mod Traffic
pub mod Mirror
pub mod Overlap
pub mod Turns
use memif.Prelude.{
  ℕ, zero, suc, ◌+◌, ◌-◌, ◌*◌, ◌^◌, Bool, true, false, List, [], ◌∷◌, ◌++◌, Option, none, some,
  get_elem?, ltb, if◌then◌else◌,
}
use memif.Desc.{DescBuf, new_desc_buf, set_flags, set_region, set_length, set_offset}
use memif.Types.{Interface, MemoryRegion, Queue, RingType, s2m, m2s}
use memif.Types.Os.{Os, Call}
use memif.Ring
use memif.Ring.{cookie, interface_new_ring}
use memif.Region.{packet_buffer_offset, region_size, buffer_offset}
use memif.Queue.{put_ring, put_desc_buf}
use memif.Socket.{
  Socket, Outcome, done, fail, panic, M, ◌>>=◌, ◌>>◌, return, wrap, ignore, deref, sys, sys_,
  get_interface, put_interface,
}

-- memfdCreate
unfoldable pub memfd_create : Os → M ℕ
memfd_create os = wrap "memfdCreate: %s" (sys os Call.memfd_create)

-- On an error, close the new region's file and return it.
unfoldable pub or_close : Os → ℕ → M (Unit {0}) → M (Unit {0})
or_close os fd m s = elim (m s) [
  | done a s' ↦ done a s'
  | fail e s' ↦ elim (ignore (sys os (Call.close fd)) s') [
    | done _ s'' ↦ fail e s''
    | fail _ s'' ↦ fail e s''
    | panic ↦ panic
  ]
  | panic ↦ panic
]

-- mmap(2) of a whole file, shared.
unfoldable pub mmap : Os → ℕ → ℕ → M (List ℕ)
mmap os fd size = do _ ← sys os (Call.mmap fd size); λ s. done (os.mapped s.calls fd size) s

unfoldable pub add_region : Os → ℕ → Bool → Bool → M (Unit {0})
add_region os i has_packet_buffers has_rings = do
  x ← get_interface i
  let size = region_size x.run has_packet_buffers has_rings
  fd ← memfd_create os
  or_close os fd (wrap "memfdCreate: %s" (sys_ os (Call.add_seals fd)))
  or_close os fd (wrap "memfdCreate: %s" (sys_ os (Call.ftruncate fd size)))
  xs ← wrap "addRegion: %s" (mmap os fd size)
  put_interface i (record x {
    regions =
        x.regions
        ++ (record {
          bytes = some xs;
          size = size;
          fd = fd;
          packet_buffer_offset = packet_buffer_offset x.run has_rings;
        }
            ∷ []);
  })

unfoldable pub initialize_regions : Os → ℕ → M (Unit {0})
initialize_regions os i = wrap "initializeRegions: %s" (add_region os i true true)

-- An access to shared memory; it panics where the slice is left.
unfoldable pub on_memory : ℕ → (Interface → Option Interface) → M (Unit {0})
on_memory i f = do x ← get_interface i; y ← deref (f x); put_interface i y

-- The loop over the slots of one queue, `n` rounds from slot `slot` on. The descriptor that it
-- writes is reused from round to round.
unfoldable pub write_descs : ℕ → ℕ → Queue → ℕ → DescBuf → M DescBuf
write_descs i zero q slot desc = return desc
write_descs i (suc n) q slot desc = do
  x ← get_interface i
  first ← deref (get_elem? x.regions 0)
  let desc' = set_offset (buffer_offset x.run first.packet_buffer_offset slot) desc
  on_memory i (put_desc_buf q slot desc')
  write_descs i n q (slot + 1) desc'

-- `j < q.ring.size`, for the size as a signed integer.
abbrev pub rounds : ℕ → ℕ
rounds size = if ltb size (2 ^ 63) then size else 0

-- A slave sends on rings to the master, and receives on rings from it.
abbrev pub add_queue : RingType → Queue → Interface → Interface
add_queue s2m q x = record x { tx_queues = x.tx_queues ++ (q ∷ []) }
add_queue m2s q x = record x { rx_queues = x.rx_queues ++ (q ∷ []) }

-- One round of either loop over the queue pairs: the ring's header and all its descriptors.
unfoldable pub initialize_queue : Os → ℕ → RingType → ℕ → DescBuf → M DescBuf
initialize_queue os i t qid desc = do
  x ← get_interface i
  let ring = Ring.set_flags 1 (Ring.set_cookie cookie (interface_new_ring x.run 0 t qid))
  efd ← sys os Call.eventfd
  let q : Queue = record { ring = ring; last_head = 0; last_tail = 0; interrupt_fd = efd }
  on_memory i (put_ring q)
  y ← get_interface i
  put_interface i (add_queue t q y)
  write_descs i (rounds ring.size) q (qid * ring.size) desc

-- The queues from `qid` on, `n` of them.
unfoldable pub initialize_queues_of : Os → ℕ → RingType → ℕ → ℕ → DescBuf → M DescBuf
initialize_queues_of os i t zero qid desc = return desc
initialize_queues_of os i t (suc n) qid desc = do
  desc' ← initialize_queue os i t qid desc
  initialize_queues_of os i t n (qid + 1) desc'

unfoldable pub initialize_queues : Os → ℕ → M (Unit {0})
initialize_queues os i = do
  x ← get_interface i
  let desc = set_length x.run.packet_buffer_size (set_region 0 (set_flags 0 new_desc_buf))
  desc' ← initialize_queues_of os i s2m x.run.num_queue_pairs 0 desc
  _ ← initialize_queues_of os i m2s x.run.num_queue_pairs 0 desc'
  return tt
