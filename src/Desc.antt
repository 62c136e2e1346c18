-- ===== src/Desc.antt =====
-- The memif descriptor of memif-new/memif/memif.go: sixteen bytes in shared memory.
pub mod Fields
use memif.Prelude.{ℕ, List, replicate}
use memif.Bytes.{read_le, write_le}

abbrev pub desc_size : ℕ
desc_size = 16

abbrev pub desc_flags_offset : ℕ
desc_flags_offset = 0

abbrev pub desc_region_offset : ℕ
desc_region_offset = 2

abbrev pub desc_length_offset : ℕ
desc_length_offset = 4

abbrev pub desc_offset_offset : ℕ
desc_offset_offset = 8

abbrev pub desc_metadata_offset : ℕ
desc_metadata_offset = 12

abbrev pub desc_flag_next : ℕ
desc_flag_next = 1

abbrev pub DescBuf : Type 0
DescBuf = List ℕ

unfoldable pub new_desc_buf : DescBuf
new_desc_buf = replicate desc_size 0

unfoldable pub get_flags : DescBuf → ℕ
get_flags db = read_le 2 desc_flags_offset db

unfoldable pub get_region : DescBuf → ℕ
get_region db = read_le 2 desc_region_offset db

unfoldable pub get_length : DescBuf → ℕ
get_length db = read_le 4 desc_length_offset db

unfoldable pub get_offset : DescBuf → ℕ
get_offset db = read_le 4 desc_offset_offset db

unfoldable pub get_metadata : DescBuf → ℕ
get_metadata db = read_le 4 desc_metadata_offset db

-- `uint16(val)` and `uint32(val)` keep the low bytes, which is what `to_le` writes.
unfoldable pub set_flags : ℕ → DescBuf → DescBuf
set_flags val db = write_le 2 desc_flags_offset val db

unfoldable pub set_region : ℕ → DescBuf → DescBuf
set_region val db = write_le 2 desc_region_offset val db

unfoldable pub set_length : ℕ → DescBuf → DescBuf
set_length val db = write_le 4 desc_length_offset val db

unfoldable pub set_offset : ℕ → DescBuf → DescBuf
set_offset val db = write_le 4 desc_offset_offset val db

unfoldable pub set_metadata : ℕ → DescBuf → DescBuf
set_metadata val db = write_le 4 desc_metadata_offset val db
