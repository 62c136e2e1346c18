-- ===== src/Region.antt =====
-- The sizes that addRegion of memif-new/memif/interface.go computes for a slave's region: first
-- the rings, then the packet buffers.
pub mod Layout
use memif.Prelude.{ℕ, ◌+◌, ◌*◌, ◌%◌, ◌^◌, Bool, true, if◌then◌else◌}
use memif.Desc.{desc_size}
use memif.Types.{MemoryConfig}
use memif.Ring.{ring_size}

abbrev pub uint16 : ℕ → ℕ
uint16 x = x % 2 ^ 16

abbrev pub uint32 : ℕ → ℕ
uint32 x = x % 2 ^ 32

-- `uint32((n + n) * (ringSize + descSize*(1<<log2)))`: the operands, and so the product, are
-- uint16.
unfoldable pub packet_buffer_offset : MemoryConfig → Bool → ℕ
packet_buffer_offset run has_rings =
    if has_rings
    then uint16 (
        uint16 (run.num_queue_pairs + run.num_queue_pairs)
        * uint16 (ring_size + desc_size * uint16 (2 ^ run.log2_ring_size)))
    else 0

unfoldable pub region_size : MemoryConfig → Bool → Bool → ℕ
region_size run has_packet_buffers has_rings =
    let offset = packet_buffer_offset run has_rings in
    if has_packet_buffers
    then uint32 (
        offset
        + uint32 (run.packet_buffer_size * uint32 (2 ^ run.log2_ring_size))
          * uint16 (run.num_queue_pairs + run.num_queue_pairs))
    else offset

-- Where initializeQueues places packet buffer `slot`, for a region whose buffers begin at `first`.
unfoldable pub buffer_offset : MemoryConfig → ℕ → ℕ → ℕ
buffer_offset run first slot = uint32 (first + uint32 slot * run.packet_buffer_size)
