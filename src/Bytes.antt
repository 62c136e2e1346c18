-- ===== src/Bytes.antt =====
-- Go byte slices: the built-in `copy`, slicing, and the little-endian integers of
-- encoding/binary. A byte slice is a list of numbers; a slice expression out of range panics,
-- which is `none`.
pub mod Copy
pub mod Endian
use memif.Prelude.{
  ℕ, zero, suc, ◌+◌, ◌-◌, ◌*◌, ◌/◌, ◌%◌, List, [], ◌∷◌, Option, none, some, leb, ◌&&◌,
  if◌then◌else◌, take, drop, length,
}

-- `copy(dst, src)`: as many bytes as fit, and `dst` keeps its length.
unfoldable pub copy : List ℕ → List ℕ → List ℕ
copy [] src = []
copy (x ∷ dst) [] = x ∷ dst
copy (x ∷ dst) (y ∷ src) = y ∷ copy dst src

-- `copy(dst[off:], src)`, for an offset inside.
unfoldable pub copy_at : List ℕ → ℕ → List ℕ → List ℕ
unfolding copy
copy_at dst zero src = copy dst src
copy_at [] (suc off) src = []
copy_at (x ∷ dst) (suc off) src = x ∷ copy_at dst off src

-- The bytes `xs[off : off+n]`.
abbrev pub bytes_at : ℕ → ℕ → List ℕ → List ℕ
bytes_at off n xs = take n (drop off xs)

-- `xs[lo:]`
unfoldable pub slice_from : List ℕ → ℕ → Option (List ℕ)
slice_from xs lo = if leb lo (length xs) then some (drop lo xs) else none

-- `xs[lo : hi]`, for a slice with no spare capacity.
unfoldable pub slice : List ℕ → ℕ → ℕ → Option (List ℕ)
slice xs lo hi = if leb lo hi && leb hi (length xs) then some (bytes_at lo (hi - lo) xs) else none

-- `PutUint` of a value of `n` bytes, lowest byte first.
abbrev pub to_le : ℕ → ℕ → List ℕ
to_le zero v = []
to_le (suc n) v = (v % 256) ∷ to_le n (v / 256)

-- The number that bytes stand for, lowest byte first.
abbrev pub of_le : List ℕ → ℕ
of_le [] = 0
of_le (b ∷ bs) = b + 256 * of_le bs

-- `Uint16(xs[off:])` and the like, `n` bytes wide.
abbrev pub read_le : ℕ → ℕ → List ℕ → ℕ
read_le n off xs = of_le (bytes_at off n xs)

-- `PutUint16(xs[off:], v)` and the like.
abbrev pub write_le : ℕ → ℕ → ℕ → List ℕ → List ℕ
write_le n off v xs = copy_at xs off (to_le n v)
