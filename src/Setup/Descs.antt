-- ===== src/Setup/Descs.antt =====
-- The descriptors of a ring once initializeQueues of memif-new/memif/interface.go has written them.
use memif.Prelude.{
  ℕ, zero, suc, ◌+◌, ◌*◌, ◌%◌, ◌^◌, ◌≤◌, ◌<◌, ◌≡◌, ◌⊎◌, inl, inr, refl, ap, ◌∙◌, arith, List,
  length, subst,
}
use memif.Bytes.{bytes_at, copy_at}
use memif.Bytes.Copy.{bytes_at-copy_at_self, bytes_at-copy_at_apart, length-copy_at}
use memif.Desc.{DescBuf, get_region, get_length, get_offset, set_offset}
use memif.Desc.Fields.{Fields, fields, IsDesc, setters-IsDesc, set_offset-fields}
use memif.Types.{Queue, MemoryConfig}
use memif.Region.{buffer_offset}
use memif.Packet.Stream.Holds.{slot_desc}
use native.Mathlib.Decide.{ℕ_discrete}

-- Descriptors from `slot` on, `n` of them, each made from the one before by its buffer's offset.
abbrev pub described : Queue → MemoryConfig → ℕ → ℕ → ℕ → DescBuf → List ℕ → List ℕ
described q run first zero slot desc d = d
described q run first (suc n) slot desc d =
    described q run first n (slot + 1) (set_offset (buffer_offset run first slot) desc)
      (copy_at d (q.ring.offset + 128 + slot * 16) (set_offset (buffer_offset run first slot) desc))

module _ (q : Queue) (run : MemoryConfig) (first : ℕ) where
  pub length-described :
      (n slot : ℕ) (desc : DescBuf) (d : List ℕ)
      → length (described q run first n slot desc d) ≡ length d
  length-described zero slot desc d = refl
  length-described (suc n) slot desc d =
      length-described n (slot + 1) _ _ ∙ length-copy_at d (q.ring.offset + 128 + slot * 16) _

  pub set_offset-IsDesc : (v : ℕ) (desc : DescBuf) → IsDesc desc → IsDesc (set_offset v desc)
  set_offset-IsDesc v desc whole = (setters-IsDesc v desc whole).3

  pub described_frame :
      (n slot : ℕ) (desc : DescBuf) (d : List ℕ) (lo m : ℕ)
      → IsDesc desc
      → (lo + m ≤ q.ring.offset + 128 + slot * 16) ⊎ (q.ring.offset + 128 + (slot + n) * 16 ≤ lo)
      → bytes_at lo m (described q run first n slot desc d) ≡ bytes_at lo m d
  described_frame zero slot desc d lo m whole apart = refl
  described_frame (suc n) slot desc d lo m whole apart =
      let whole' = set_offset-IsDesc (buffer_offset run first slot) desc whole in
      described_frame n (slot + 1) _ _ lo m whole'
        (elim apart [ inl h ↦ inl (omega arith) | inr h ↦ inr (omega arith) ])
      ∙ bytes_at-copy_at_apart d (q.ring.offset + 128 + slot * 16) _ lo m
          (rw whole' (elim apart [ inl h ↦ inl h | inr h ↦ inr (omega arith) ]))

  offset-small : (slot : ℕ) → buffer_offset run first slot % 2 ^ 32 ≡ buffer_offset run first slot
  unfolding buffer_offset
  offset-small slot = omega arith

  -- Each names its buffer, in the region of the first descriptor, and keeps the length.
  pub described_at :
      (n slot : ℕ) (desc : DescBuf) (d : List ℕ) (k : ℕ)
      → IsDesc desc
      → slot ≤ k
      → k < slot + n
      → q.ring.offset + 128 + (slot + n) * 16 ≤ length d
      → (get_region (slot_desc q k (described q run first n slot desc d)) ≡ get_region desc)
        × (get_offset (slot_desc q k (described q run first n slot desc d))
            ≡ buffer_offset run first k)
        × (get_length (slot_desc q k (described q run first n slot desc d)) ≡ get_length desc)
  unfolding fields
  described_at zero slot desc d k whole from to room = absurd (omega arith)
  described_at (suc n) slot desc d k whole from to room =
      let v = buffer_offset run first slot in
      let whole' = set_offset-IsDesc v desc whole in
      let changed = set_offset-fields v desc whole in
      let region' : get_region (set_offset v desc) ≡ get_region desc =
        ap (λ (f : Fields). f.region) changed in
      let length' : get_length (set_offset v desc) ≡ get_length desc =
        ap (λ (f : Fields). f.len) changed in
      elim (ℕ_discrete slot k) [
        | yes e ↦
            let here : slot_desc q slot (described q run first (suc n) slot desc d)
                ≡ set_offset v desc =
              described_frame n (slot + 1) _ _ (q.ring.offset + 128 + slot * 16) 16 whole'
                (inl (omega arith))
              ∙ (rw whole' at (
                  bytes_at-copy_at_self d (q.ring.offset + 128 + slot * 16) (set_offset v desc)
                    (omega (arith, whole')))) in
            subst
              (λ j.
                (get_region (slot_desc q j (described q run first (suc n) slot desc d))
                  ≡ get_region desc)
                × (get_offset (slot_desc q j (described q run first (suc n) slot desc d))
                    ≡ buffer_offset run first j)
                × (get_length (slot_desc q j (described q run first (suc n) slot desc d))
                    ≡ get_length desc))
              e
              (rw here
                (region', ap (λ (f : Fields). f.offset) changed ∙ offset-small slot, length'))
        | no ne ↦
            let (r, o, z) =
              described_at n (slot + 1) (set_offset v desc) _ k whole' (omega arith) (omega arith) (
                omega (
                  arith,
                  length-copy_at d (q.ring.offset + 128 + slot * 16) (set_offset v desc),
                )) in
            (r ∙ region', o, z ∙ length')
      ]
