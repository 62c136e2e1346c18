-- ===== src/Ring.antt =====
-- The memif ring of memif-new/memif/memif.go: a header of 128 bytes, followed by its descriptors.
pub mod Header
use memif.Prelude.{ℕ, ◌+◌, ◌*◌, ◌%◌, ◌^◌, List, replicate}
use memif.Bytes.{read_le, write_le}
use memif.Desc.{desc_size}
use memif.Types.{MemoryConfig, Ring, RingType, s2m, m2s}

abbrev pub cookie : ℕ
cookie = 0x3E31F20

abbrev pub ring_size : ℕ
ring_size = 128

abbrev pub ring_cookie_offset : ℕ
ring_cookie_offset = 0

abbrev pub ring_flags_offset : ℕ
ring_flags_offset = 4

abbrev pub ring_head_offset : ℕ
ring_head_offset = 6

abbrev pub ring_tail_offset : ℕ
ring_tail_offset = 64

-- A Go int as a 64-bit pattern.
abbrev pub int : ℕ → ℕ
int x = x % 2 ^ 64

-- The function `newRing`, on what a peer sent. It does not use its region index.
unfoldable pub new_ring : ℕ → RingType → ℕ → ℕ → Ring
new_ring region_index ring_type ring_offset log2_ring_size = record {
  ring_type = ring_type;
  size = int (2 ^ log2_ring_size);
  log2_size = log2_ring_size;
  region = 0;
  rb = replicate ring_size 0;
  offset = ring_offset;
}

-- The bytes that one ring takes: the header and its descriptors.
abbrev pub ring_bytes : ℕ → ℕ
ring_bytes size = int (ring_size + desc_size * size)

abbrev pub first_offset : RingType → ℕ → ℕ → ℕ
first_offset s2m pairs bytes = 0
first_offset m2s pairs bytes = pairs * bytes

-- The method `newRing`, on the interface's running configuration.
unfoldable pub interface_new_ring : MemoryConfig → ℕ → RingType → ℕ → Ring
interface_new_ring run region_index ring_type ring_index =
    let size = int (2 ^ run.log2_ring_size) in
    let bytes = ring_bytes size in
    record {
      ring_type = ring_type;
      size = size;
      log2_size = run.log2_ring_size;
      region = 0;
      rb = replicate ring_size 0;
      offset = int (first_offset ring_type run.num_queue_pairs bytes + ring_index * bytes);
    }

unfoldable pub get_cookie : Ring → ℕ
get_cookie r = read_le 4 ring_cookie_offset r.rb

unfoldable pub get_flags : Ring → ℕ
get_flags r = read_le 2 ring_flags_offset r.rb

unfoldable pub get_head : Ring → ℕ
get_head r = read_le 2 ring_head_offset r.rb

unfoldable pub get_tail : Ring → ℕ
get_tail r = read_le 2 ring_tail_offset r.rb

unfoldable pub set_cookie : ℕ → Ring → Ring
set_cookie val r = record r { rb = write_le 4 ring_cookie_offset val r.rb }

unfoldable pub set_flags : ℕ → Ring → Ring
set_flags val r = record r { rb = write_le 2 ring_flags_offset val r.rb }

unfoldable pub set_head : ℕ → Ring → Ring
set_head val r = record r { rb = write_le 2 ring_head_offset val r.rb }

unfoldable pub set_tail : ℕ → Ring → Ring
set_tail val r = record r { rb = write_le 2 ring_tail_offset val r.rb }
