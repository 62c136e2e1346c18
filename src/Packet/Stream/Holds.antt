-- ===== src/Packet/Stream/Holds.antt =====
-- The packets that the bytes of a ring hold, and what a write elsewhere leaves of them.
use memif.Prelude.{
  ℕ, suc, ◌+◌, ◌*◌, ◌%◌, ◌≤◌, ◌<◌, ◌≡◌, ◌≢◌, ◌⊎◌, sym, ap, subst, ◌∙◌, arith, List, [], ◌∷◌, ◌++◌,
  length,
}
use memif.Bytes.{bytes_at}
use memif.Desc.{DescBuf, get_flags, get_region, get_length, get_offset}
use memif.Types.{Queue}
use memif.Packet.Place.{Outside}
use native.Mathlib.Nat.{mod-add-mod}

-- Where the buffers of a ring lie in a region of `len` bytes: the buffer of slot `s` begins at
-- `off s` and has `size` bytes; it ends inside the region, and meets neither the ring nor another
-- buffer.
pub record Buffers (q : Queue) (size : ℕ) (off : ℕ → ℕ) (len : ℕ) : Type 0 where
  pub room : (s : ℕ) → s < q.ring.size → off s + size ≤ len
  pub outside : (s : ℕ) → s < q.ring.size → Outside q (off s) size
  pub apart :
      (s t : ℕ)
      → s < q.ring.size
      → t < q.ring.size
      → s ≢ t
      → (off s + size ≤ off t) ⊎ (off t + size ≤ off s)

-- Descriptor `s`, below the ring's size.
abbrev pub slot_desc : Queue → ℕ → List ℕ → DescBuf
slot_desc q s d = bytes_at (q.ring.offset + 128 + s * 16) 16 d

-- Every descriptor names its buffer.
pub record Named (q : Queue) (off : ℕ → ℕ) (d : List ℕ) : Type 0 where
  pub region : (s : ℕ) → s < q.ring.size → get_region (slot_desc q s d) ≡ q.ring.region
  pub offset : (s : ℕ) → s < q.ring.size → get_offset (slot_desc q s d) ≡ off s

module _ (q : Queue) (size : ℕ) (off : ℕ → ℕ) where
  -- Slot `s` has the packet `p`, in one buffer.
  pub record SlotHolds (d : List ℕ) (s : ℕ) (p : List ℕ) : Type 0 where
    pub single : get_flags (slot_desc q s d) % 2 ≡ 0
    pub len : get_length (slot_desc q s d) ≡ length p
    pub packet : bytes_at (off s) (length p) d ≡ p
    pub fits : length p ≤ size

  -- The slots from counter `s` on have the packets, one each.
  abbrev pub Holds : List ℕ → ℕ → List (List ℕ) → Type 0
  Holds d s [] = Unit
  Holds d s (p ∷ ps) = SlotHolds d (s % q.ring.size) p × Holds d (s + 1) ps

  -- The descriptor and the buffer of slot `s` are in `e` as in `d`.
  pub record Kept (d e : List ℕ) (s : ℕ) : Type 0 where
    pub desc : slot_desc q s e ≡ slot_desc q s d
    pub buffer : (n : ℕ) → n ≤ size → bytes_at (off s) n e ≡ bytes_at (off s) n d

  -- `n` bytes from `lo` on lie outside the ring and its buffers.
  pub record Clear (lo n : ℕ) : Type 0 where
    pub ring : Outside q lo n
    pub buffers : (s : ℕ) → s < q.ring.size → (lo + n ≤ off s) ⊎ (off s + size ≤ lo)

  -- Outside the ring and its buffers `e` is as `d`.
  pub record Elsewhere (d e : List ℕ) : Type 0 where
    pub whole : length e ≡ length d
    pub same : (lo n : ℕ) → Clear lo n → bytes_at lo n e ≡ bytes_at lo n d

  SlotHolds-Kept :
      (d e : List ℕ) (s : ℕ) (p : List ℕ) → Kept d e s → SlotHolds d s p → SlotHolds e s p
  SlotHolds-Kept d e s p k h = record {
    single = rw k.desc h.single;
    len = rw k.desc h.len;
    packet = k.buffer (length p) h.fits ∙ h.packet;
    fits = h.fits;
  }

  pub Holds-Kept :
      (d e : List ℕ) (s : ℕ) (ps : List (List ℕ))
      → ((n : ℕ) → n < length ps → Kept d e ((s + n) % q.ring.size))
      → Holds d s ps
      → Holds e s ps
  Holds-Kept d e s [] k h = tt
  Holds-Kept d e s (p ∷ ps) k (first, rest) = (
    SlotHolds-Kept d e (s % q.ring.size) p
        (subst (λ m. Kept d e (m % q.ring.size)) (let z : s + 0 ≡ s = omega arith in z)
          (k 0 (omega arith)))
        first,
    Holds-Kept d e (s + 1) ps
        (λ n lt.
          subst (λ m. Kept d e (m % q.ring.size)) (let z : s + suc n ≡ s + 1 + n = omega arith in z)
            (k (suc n) (omega arith)))
        rest,
  )

  -- One packet more, in the slot after the last.
  pub Holds-append :
      (d : List ℕ) (s : ℕ) (ps : List (List ℕ)) (p : List ℕ)
      → Holds d s ps
      → SlotHolds d ((s + length ps) % q.ring.size) p
      → Holds d s (ps ++ (p ∷ []))
  Holds-append d s [] p h new =
      (subst (λ m. SlotHolds d (m % q.ring.size) p) (let z : s + 0 ≡ s = omega arith in z) new, tt)
  Holds-append d s (p₁ ∷ ps) p (first, rest) new = (
    first,
    Holds-append d (s + 1) ps p rest (
        subst (λ m. SlotHolds d (m % q.ring.size) p)
          (let z : s + suc (length ps) ≡ s + 1 + length ps = omega arith in z) new),
  )

  -- Only the slots that the counters stand for matter.
  pub Holds-counter :
      (d : List ℕ) (s t : ℕ) (ps : List (List ℕ))
      → s % q.ring.size ≡ t % q.ring.size
      → Holds d s ps
      → Holds d t ps
  Holds-counter d s t [] e h = tt
  Holds-counter d s t (p ∷ ps) e (first, rest) = (
    subst (λ m. SlotHolds d m p) e first,
    Holds-counter d (s + 1) (t + 1) ps
        (sym (mod-add-mod s q.ring.size 1)
          ∙ ap (λ m. (m + 1) % q.ring.size) e
          ∙ mod-add-mod t q.ring.size 1)
        rest,
  )
