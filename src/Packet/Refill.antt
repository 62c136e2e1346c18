-- ===== src/Packet/Refill.antt =====
-- The ring after a slave's refill at the end of ReadPacket of memif-new/memif/packet_reader.go,
-- which gives the descriptors it offers the length of a whole buffer.
pub mod Descs
use memif.Prelude.{
  ℕ, zero, suc, ◌+◌, ◌*◌, ◌%◌, ◌^◌, ◌≤◌, ◌<◌, ◌≡◌, ◌≢◌, ◌⊎◌, inl, inr, refl, sym, ap, subst, ◌∙◌,
  arith, List, [], ◌∷◌, length,
}
use memif.Prelude.Modulo.{mod-ne}
use memif.Bytes.{bytes_at, read_le, write_le, to_le, of_le}
use memif.Bytes.Copy.{length-copy_at, bytes_at-copy_at_apart, bytes_at-bytes_at, length-bytes_at}
use memif.Bytes.Endian.{read_le-write_le_16, read_le-write_le_apart, length-to_le}
use memif.Desc
use memif.Desc.{get_length, get_offset}
use memif.Types.{Queue}
use memif.Queue.View.{
  RingAt, RingAt-length, head_address, tail_address, slot_address, head_at, tail_at, desc_at,
  slot-lt, size-pos,
}
use memif.Packet.Place.{Outside-cases}
use memif.Packet.Transfer.{SameRing}
use memif.Packet.Receive.{refilled}
use memif.Packet.Stream.Holds.{Buffers, Named, Kept, slot_desc}
use memif.Packet.Stream.Slots.{Outside-shrink, slots_apart}
use native.Mathlib.Decide.{ℕ_discrete}

of_le-halves : (bs : List ℕ) → length bs ≡ 4 → of_le bs ≡ read_le 2 0 bs + 2 ^ 16 * read_le 2 2 bs
of_le-halves [] h = absurd (omega arith)
of_le-halves (a ∷ []) h = absurd (omega arith)
of_le-halves (a ∷ b ∷ []) h = absurd (omega arith)
of_le-halves (a ∷ b ∷ c ∷ []) h = absurd (omega arith)
of_le-halves (a ∷ b ∷ c ∷ e ∷ []) h = omega arith
of_le-halves (a ∷ b ∷ c ∷ e ∷ f ∷ bs) h = absurd (omega arith)

-- The two halves of the length in the descriptor at `a`.
get_length-halves :
    (a : ℕ) (d : List ℕ)
    → a + 16 ≤ length d
    → get_length (bytes_at a 16 d) ≡ read_le 2 (a + 4) d + 2 ^ 16 * read_le 2 (a + 4 + 2) d
unfolding get_length
get_length-halves a d fit =
    ap of_le (bytes_at-bytes_at d a 16 4 4 (omega arith))
    ∙ of_le-halves (bytes_at (a + 4) 4 d) (length-bytes_at d (a + 4) 4 (omega arith))
    ∙ ap (λ n. read_le 2 0 (bytes_at (a + 4) 4 d) + 2 ^ 16 * n)
        (ap of_le (bytes_at-bytes_at d (a + 4) 4 2 2 (omega arith)))
    ∙ ap (λ n. n + 2 ^ 16 * read_le 2 (a + 4 + 2) d)
        (ap of_le (bytes_at-bytes_at d (a + 4) 4 0 2 (omega arith))
          ∙ ap (λ n. read_le 2 n d) (let z : a + 4 + 0 ≡ a + 4 = omega arith in z))

-- Writing the low half of a length whose high half is zero writes the length.
pub get_length-write_le :
    (a v : ℕ) (d : List ℕ)
    → a + 16 ≤ length d
    → v < 2 ^ 16
    → get_length (bytes_at a 16 d) < 2 ^ 16
    → get_length (bytes_at a 16 (write_le 2 (a + 4) v d)) ≡ v
get_length-write_le a v d fit small short =
    get_length-halves a (write_le 2 (a + 4) v d)
      (omega (arith, length-copy_at d (a + 4) (to_le 2 v)))
    ∙ omega (
      arith,
      get_length-halves a d fit,
      read_le-write_le_16 (a + 4) v d (omega arith),
      read_le-write_le_apart 2 (a + 4) v d 2 (a + 4 + 2) (inr (omega arith)),
    )

-- Every length in the ring has its high half zero.
abbrev pub Short : Queue → List ℕ → Type 0
Short q d = (s : ℕ) → s < q.ring.size → get_length (slot_desc q s d) < 2 ^ 16

module _ (q : Queue) (size : ℕ) where
  abbrev pub offered : ℕ → List ℕ → List ℕ
  offered head d = write_le 2 (slot_address q head + 4) size d

  pub length-offered : (head : ℕ) (d : List ℕ) → length (offered head d) ≡ length d
  length-offered head d = length-copy_at d (slot_address q head + 4) (to_le 2 size)

  pub length-refilled : (n head : ℕ) (d : List ℕ) → length (refilled n q size head d) ≡ length d
  unfolding refilled
  length-refilled zero head d = length-copy_at d (head_address q) (to_le 2 head)
  length-refilled (suc n) head d =
      length-refilled n (head + 1) (offered head d) ∙ length-offered head d

  pub head_at-refilled :
      (n head : ℕ) (d : List ℕ)
      → head_address q + 2 ≤ length d
      → head_at q (refilled n q size head d) ≡ (head + n) % 2 ^ 16
  unfolding refilled
  head_at-refilled zero head d fit = read_le-write_le_16 (head_address q) head d fit ∙ omega arith
  head_at-refilled (suc n) head d fit =
      head_at-refilled n (head + 1) (offered head d) (omega (arith, length-offered head d))
      ∙ omega arith

  first_apart :
      (s t : ℕ)
      → s ≡ t
      → (lo k : ℕ) → (lo + k ≤ slot_address q s + 4) ⊎ (slot_address q s + 6 ≤ lo)
      → (lo + k ≤ slot_address q t + 4) ⊎ (slot_address q t + 4 + 2 ≤ lo)
  first_apart s t e lo k (inl h) = inl (rw (sym e) h)
  first_apart s t e lo k (inr h) = inr (rw (sym e) (omega arith))

  -- What a refill does not reach.
  pub refilled_frame :
      (n head : ℕ) (d : List ℕ) (lo k : ℕ)
      → (lo + k ≤ head_address q) ⊎ (head_address q + 2 ≤ lo)
      → ((j : ℕ)
          → j < n
          → (lo + k ≤ slot_address q (head + j) + 4) ⊎ (slot_address q (head + j) + 6 ≤ lo))
      → bytes_at lo k (refilled n q size head d) ≡ bytes_at lo k d
  unfolding refilled
  refilled_frame zero head d lo k from_head from_slots =
      bytes_at-copy_at_apart d (head_address q) (to_le 2 head) lo k from_head
  refilled_frame (suc n) head d lo k from_head from_slots =
      refilled_frame n (head + 1) (offered head d) lo k from_head (λ j lt.
        subst (λ s. (lo + k ≤ slot_address q s + 4) ⊎ (slot_address q s + 6 ≤ lo))
          (let z : head + suc j ≡ head + 1 + j = omega arith in z)
          (from_slots (suc j) (omega arith)))
      ∙ bytes_at-copy_at_apart d (slot_address q head + 4) (to_le 2 size) lo k
          (first_apart (head + 0) head (omega arith) lo k (from_slots 0 (omega arith)))

-- Where the offered slots lie, on either side's queue.
pub refilled-SameRing :
    {q r : Queue} (n size head : ℕ) (d : List ℕ)
    → SameRing q r
    → refilled n r size head d ≡ refilled n q size head d
unfolding refilled
refilled-SameRing zero size head d same = rw same.offset
refilled-SameRing (suc n) size head d same =
    rw (refilled-SameRing n size (head + 1) _ same, same.offset, same.size) refl
