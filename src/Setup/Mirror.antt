-- ===== src/Setup/Mirror.antt =====
-- The queue that a peer makes of an announced ring (parseAddRing of memif-new/memif/control_channel.go).
use memif.Prelude.{ℕ, ◌≡◌, refl, sym, ap, ◌∙◌, arith, inl, inr, List}
use memif.Types.{Queue}
use memif.Desc.{get_region, get_offset}
use memif.Packet.Transfer.{SameRing}
use memif.Packet.Stream.Holds.{Buffers, Named, slot_desc}

-- The other side's queue of a ring has the ring's slots and their buffers.
module _ {q r : Queue} (same : SameRing q r) where
  pub swapped : SameRing r q
  swapped = record { region = sym same.region; offset = sym same.offset; size = sym same.size }

  pub Buffers-SameRing :
      (size : ℕ) (off : ℕ → ℕ) (len : ℕ) → Buffers r size off len → Buffers q size off len
  Buffers-SameRing size off len b = record {
    room = λ s lt. b.room s (omega (arith, same.size));
    outside = λ s lt. elim (b.outside s (omega (arith, same.size))) [
      | inl h ↦ inl (omega (arith, same.offset))
      | inr h ↦ inr (omega (arith, same.offset, same.size))
    ];
    apart = λ s t ls lt ne. b.apart s t (omega (arith, same.size)) (omega (arith, same.size)) ne;
  }

  pub desc-SameRing : (s : ℕ) (d : List ℕ) → slot_desc q s d ≡ slot_desc r s d
  desc-SameRing s d = rw (same.offset) refl

  pub Named-SameRing : (off : ℕ → ℕ) (d : List ℕ) → Named r off d → Named q off d
  Named-SameRing off d n = record {
    region = λ s lt.
        ap get_region (desc-SameRing s d) ∙ n.region s (omega (arith, same.size)) ∙ same.region;
    offset = λ s lt. ap get_offset (desc-SameRing s d) ∙ n.offset s (omega (arith, same.size));
  }
