-- ===== src/Packet/Refill/Descs.antt =====
-- The descriptors and the packets of a ring after a slave's refill.
use memif.Prelude.{
  ℕ, zero, suc, ◌+◌, ◌*◌, ◌%◌, ◌^◌, ◌≤◌, ◌<◌, ◌≡◌, ◌≢◌, ◌⊎◌, inl, inr, refl, sym, ap, subst, ◌∙◌,
  arith, List, length,
}
use memif.Prelude.Modulo.{mod-ne}
use memif.Bytes.{bytes_at, to_le, of_le}
use memif.Bytes.Copy.{bytes_at-bytes_at, bytes_at-copy_at_apart}
use memif.Desc
use memif.Desc.{get_length, get_offset}
use memif.Types.{Queue}
use memif.Queue.View.{
  RingAt, RingAt-length, head_address, tail_address, slot_address, tail_at, slot-lt, slot_inside,
  desc_at,
}
use memif.Packet.Place.{Outside-cases}
use memif.Packet.Receive.{refilled}
use memif.Packet.Refill.{Short, offered, length-offered, refilled_frame, get_length-write_le}
use memif.Packet.Stream.Holds.{Buffers, Named, Kept, slot_desc}
use memif.Packet.Stream.Slots.{Outside-shrink, slots_apart}
use native.Mathlib.Decide.{ℕ_discrete}

module _ (q : Queue) (size : ℕ) where
  -- A field other than the length keeps its bytes in every descriptor.
  field-refilled :
      (n head : ℕ) (d : List ℕ) (s lo k : ℕ)
      → lo + k ≤ 16
      → (lo + k ≤ 4) ⊎ (6 ≤ lo)
      → bytes_at lo k (slot_desc q s (refilled n q size head d)) ≡ bytes_at lo k (slot_desc q s d)
  field-refilled n head d s lo k inside apart =
      bytes_at-bytes_at (refilled n q size head d) (q.ring.offset + 128 + s * 16) 16 lo k inside
      ∙ refilled_frame q size n head d (q.ring.offset + 128 + s * 16 + lo) k (inr (omega arith))
          (λ j lt. elim (ℕ_discrete s ((head + j) % q.ring.size)) [
            | yes e ↦ elim apart [ inl h ↦ inl (omega arith) | inr h ↦ inr (omega arith) ]
            | no ne ↦ elim (slots_apart s _ ne) [
              | inl h ↦ inl (omega arith)
              | inr h ↦ inr (omega arith)
            ]
          ])
      ∙ sym (bytes_at-bytes_at d (q.ring.offset + 128 + s * 16) 16 lo k inside)

  pub Named-refilled :
      {off : ℕ → ℕ} (n head : ℕ) (d : List ℕ)
      → Named q off d
      → Named q off (refilled n q size head d)
  unfolding Desc.get_region get_offset
  Named-refilled n head d named = record {
    region = λ s lt.
        ap of_le (field-refilled n head d s 2 2 (omega arith) (inl (omega arith)))
        ∙ named.region s lt;
    offset = λ s lt.
        ap of_le (field-refilled n head d s 8 4 (omega arith) (inr (omega arith)))
        ∙ named.offset s lt;
  }

  pub tail_at-refilled :
      (n head : ℕ) (d : List ℕ) → tail_at q (refilled n q size head d) ≡ tail_at q d
  tail_at-refilled n head d = ap of_le (
      refilled_frame q size n head d (tail_address q) 2 (inr (omega arith))
        (λ j lt. inl (omega arith)))

  pub desc-refilled :
      (n head : ℕ) (d : List ℕ) (s : ℕ)
      → ((j : ℕ) → j < n → s ≢ (head + j) % q.ring.size)
      → slot_desc q s (refilled n q size head d) ≡ slot_desc q s d
  desc-refilled n head d s other =
      refilled_frame q size n head d (q.ring.offset + 128 + s * 16) 16 (inr (omega arith)) (λ j lt.
        elim (slots_apart s _ (other j lt)) [
          | inl h ↦ inl (omega arith)
          | inr h ↦ inr (omega arith)
        ])

  -- A slot that is not offered keeps its descriptor and its buffer.
  pub Kept-refilled :
      {l : ℕ} {off : ℕ → ℕ} (n head : ℕ) (d : List ℕ) (s : ℕ)
      → RingAt q l d
      → Buffers q size off (length d)
      → s < q.ring.size
      → ((j : ℕ) → j < n → s ≢ (head + j) % q.ring.size)
      → Kept q size off d (refilled n q size head d) s
  Kept-refilled {off = off} n head d s ring_at buffers lt other = record {
    desc = desc-refilled n head d s other;
    buffer = λ k h.
        let away = Outside-shrink q (off s) (off s) k size refl h (buffers.outside s lt) in
        refilled_frame q size n head d (off s) k
          (Outside-cases q (off s) k (head_address q) 2 away (omega arith) (omega arith))
          (λ j below.
            elim (Outside-cases q (off s) k (slot_address q (head + j)) 16 away (omega arith)
              (omega (arith, slot-lt ring_at (head + j)))) [
                | inl h₁ ↦ inl (omega arith)
                | inr h₁ ↦ inr (omega arith)
              ]);
  }

  module _ {l : ℕ} (narrow : size < 2 ^ 16) where
    offered-length :
        (head : ℕ) (d : List ℕ)
        → RingAt q l d
        → Short q d
        → get_length (desc_at q head (offered q size head d)) ≡ size
    offered-length head d ring_at short =
        get_length-write_le (slot_address q head) size d (slot_inside ring_at head) narrow
          (short _ (slot-lt ring_at head))

    Short-offered :
        (head : ℕ) (d : List ℕ) → RingAt q l d → Short q d → Short q (offered q size head d)
    Short-offered head d ring_at short s lt = elim (ℕ_discrete s (head % q.ring.size)) [
      | yes e ↦
          subst (λ k. get_length (slot_desc q k (offered q size head d)) < 2 ^ 16) (sym e)
            (omega (arith, offered-length head d ring_at short))
      | no ne ↦
          subst (λ db. get_length db < 2 ^ 16)
            (sym (
              bytes_at-copy_at_apart d (slot_address q head + 4) (to_le 2 size)
                (q.ring.offset + 128 + s * 16) 16
                (elim (slots_apart s _ ne) [
                  | inl h ↦ inl (omega arith)
                  | inr h ↦ inr (omega arith)
                ])))
            (short s lt)
    ]

    -- The offered slots have the buffer's length.
    pub get_length-refilled :
        (n head : ℕ) (d : List ℕ)
        → RingAt q l d
        → Short q d
        → n ≤ q.ring.size
        → (j : ℕ) → j < n
        → get_length (desc_at q (head + j) (refilled n q size head d)) ≡ size
    unfolding refilled
    get_length-refilled zero head d ring_at short few j lt = absurd (omega arith)
    get_length-refilled (suc n) head d ring_at short few zero lt =
        let z : head + 0 ≡ head = omega arith in
        rw z (
          ap get_length (
            desc-refilled n (head + 1) (offered q size head d) (head % q.ring.size) (λ j below e.
              mod-ne q.ring.size head (1 + j) (omega arith) (omega arith) (
                ap (λ k. k % q.ring.size) (let y : head + (1 + j) ≡ head + 1 + j = omega arith in y)
                ∙ sym e)))
          ∙ offered-length head d ring_at short)
    get_length-refilled (suc n) head d ring_at short few (suc j) lt =
        let z : head + suc j ≡ head + 1 + j = omega arith in
        rw z (
          get_length-refilled n (head + 1) (offered q size head d)
            (RingAt-length _ ring_at (length-offered q size head d))
            (Short-offered head d ring_at short) (omega arith) j (omega arith))

    pub Short-refilled :
        (n head : ℕ) (d : List ℕ) → RingAt q l d → Short q d → Short q (refilled n q size head d)
    unfolding refilled
    Short-refilled zero head d ring_at short s lt =
        subst (λ db. get_length db < 2 ^ 16)
          (sym (desc-refilled zero head d s (λ j below e. omega arith))) (short s lt)
    Short-refilled (suc n) head d ring_at short s lt =
        Short-refilled n (head + 1) (offered q size head d)
          (RingAt-length _ ring_at (length-offered q size head d))
          (Short-offered head d ring_at short) s lt
