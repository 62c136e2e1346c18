-- ===== src/Tests/Memory.antt =====
-- Descriptors, ring headers and the layout of a region.
use memif.Prelude.{◌+◌, ◌*◌, ◌%◌, ◌^◌, ◌≤◌, ◌<◌, ◌≡◌, ◌↔◌, refl, arith, true}
use memif.Desc.{new_desc_buf, set_flags, set_region, set_length, set_offset, set_metadata}
use memif.Desc.Fields.{fields, set-fields, new_desc_buf-IsDesc}
use memif.Types.{MemoryConfig, s2m, m2s}
use memif.Ring.{interface_new_ring}
use memif.Region.{packet_buffer_offset, region_size, buffer_offset}
use memif.Region.Layout.{
  Fits, ring_count, ring_extent, packet_buffer_offset_iff, rings_apart, buffers_apart,
}

-- The package's default configuration.
abbrev defaults : MemoryConfig
defaults = record { num_queue_pairs = 1; log2_ring_size = 10; packet_buffer_size = 2048 }

defaults-Fits : Fits defaults
defaults-Fits = omega arith

set-fields_example :
    (fields (set_flags 70000 new_desc_buf)
      ≡ record (fields new_desc_buf) { flags = 70000 % 2 ^ 16 })
    × (fields (set_region 70000 new_desc_buf)
        ≡ record (fields new_desc_buf) { region = 70000 % 2 ^ 16 })
    × (fields (set_length 70000 new_desc_buf)
        ≡ record (fields new_desc_buf) { len = 70000 % 2 ^ 32 })
    × (fields (set_offset 70000 new_desc_buf)
        ≡ record (fields new_desc_buf) { offset = 70000 % 2 ^ 32 })
    × (fields (set_metadata 70000 new_desc_buf)
        ≡ record (fields new_desc_buf) { metadata = 70000 % 2 ^ 32 })
set-fields_example = set-fields 70000 new_desc_buf new_desc_buf-IsDesc

packet_buffer_offset_iff_example :
    (packet_buffer_offset (record defaults { num_queue_pairs = 2 }) true
      ≡ ring_count (record defaults { num_queue_pairs = 2 })
        * ring_extent (record defaults { num_queue_pairs = 2 }))
    ↔ (ring_count (record defaults { num_queue_pairs = 2 })
          * ring_extent (record defaults { num_queue_pairs = 2 })
        < 2 ^ 16)
packet_buffer_offset_iff_example =
    packet_buffer_offset_iff (record defaults { num_queue_pairs = 2 }) (omega arith)

-- Two queue pairs of the default size: the buffers are placed at byte 512, inside the first ring.
two_pairs : packet_buffer_offset (record defaults { num_queue_pairs = 2 }) true ≡ 512
unfolding packet_buffer_offset
two_pairs = refl

rings_apart_example :
    ((interface_new_ring defaults 0 s2m 0).offset + ring_extent defaults
      ≤ (interface_new_ring defaults 0 m2s 0).offset)
    × ((interface_new_ring defaults 0 m2s 0).offset + ring_extent defaults
        ≤ packet_buffer_offset defaults true)
rings_apart_example =
    rings_apart defaults defaults-Fits s2m m2s 0 0 (omega arith) (omega arith) (omega arith)

buffers_apart_example :
    (packet_buffer_offset defaults true
      ≤ buffer_offset defaults (packet_buffer_offset defaults true) 5)
    × (buffer_offset defaults (packet_buffer_offset defaults true) 5 + 2048
        ≤ buffer_offset defaults (packet_buffer_offset defaults true) 7)
    × (buffer_offset defaults (packet_buffer_offset defaults true) 7 + 2048
        ≤ region_size defaults true true)
buffers_apart_example =
    buffers_apart defaults defaults-Fits 5 7 (omega arith) (omega arith) (omega arith)
