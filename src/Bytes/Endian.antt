-- ===== src/Bytes/Endian.antt =====
-- Little-endian integers read back what was written.
use memif.Prelude.{
  ◌∙◌, ℕ, zero, suc, ◌+◌, ◌/◌, ◌%◌, ◌^◌, ◌≤◌, ◌<◌, ◌≡◌, refl, ap, List, arith, length, ◌⊎◌, All,
}
use memif.Bytes.{bytes_at, to_le, of_le, read_le, write_le}
use memif.Bytes.Copy.{bytes_at-copy_at_self, bytes_at-copy_at_apart}
use native.Mathlib.Nat.{pow-suc}

abbrev pub IsByte : ℕ → Type 0
IsByte b = b < 256

pub length-to_le : (n v : ℕ) → length (to_le n v) ≡ n
length-to_le zero v = refl
length-to_le (suc n) v = ap suc (length-to_le n (v / 256))

pub of_le-to_le : (n v : ℕ) → v < 256 ^ n → of_le (to_le n v) ≡ v
of_le-to_le zero v h = omega arith
of_le-to_le (suc n) v h =
    omega (arith, of_le-to_le n (v / 256) (omega (arith, pow-suc 256 n)), pow-suc 256 n)

pub of_le-to_le_mod16 : (v : ℕ) → of_le (to_le 2 v) ≡ v % 2 ^ 16
of_le-to_le_mod16 v = omega arith

pub of_le-to_le_mod32 : (v : ℕ) → of_le (to_le 4 v) ≡ v % 2 ^ 32
of_le-to_le_mod32 v = omega arith

pub to_le-IsByte : (n v : ℕ) → All IsByte (to_le n v)
to_le-IsByte zero v = tt
to_le-IsByte (suc n) v = (omega arith, to_le-IsByte n (v / 256))

module _ (n off v : ℕ) (xs : List ℕ) where
  -- The field itself, before it is read as a number.
  pub bytes_at-write_le_self :
      off + n ≤ length xs → bytes_at off n (write_le n off v xs) ≡ to_le n v
  bytes_at-write_le_self h =
      rw (length-to_le n v) at
        (bytes_at-copy_at_self xs off (to_le n v) (omega (arith, length-to_le n v)))

  -- A field apart from the written one reads as before.
  pub read_le-write_le_apart :
      (m lo : ℕ)
      → (lo + m ≤ off) ⊎ (off + n ≤ lo)
      → read_le m lo (write_le n off v xs) ≡ read_le m lo xs
  read_le-write_le_apart m lo h =
      ap of_le (bytes_at-copy_at_apart xs off (to_le n v) lo m (rw (length-to_le n v) h))

-- A field reads back as the value cut to its width.
pub read_le-write_le_16 :
    (off v : ℕ) (xs : List ℕ)
    → off + 2 ≤ length xs
    → read_le 2 off (write_le 2 off v xs) ≡ v % 2 ^ 16
read_le-write_le_16 off v xs h =
    ap of_le (bytes_at-write_le_self 2 off v xs h) ∙ of_le-to_le_mod16 v

pub read_le-write_le_32 :
    (off v : ℕ) (xs : List ℕ)
    → off + 4 ≤ length xs
    → read_le 4 off (write_le 4 off v xs) ≡ v % 2 ^ 32
read_le-write_le_32 off v xs h =
    ap of_le (bytes_at-write_le_self 4 off v xs h) ∙ of_le-to_le_mod32 v
