-- ===== src/Setup/Memory.antt =====
-- The bytes that a round of initializeQueues of memif-new/memif/interface.go leaves.
use memif.Prelude.{
  ℕ, ◌+◌, ◌*◌, ◌^◌, ◌≤◌, ◌<◌, ◌≡◌, ◌⊎◌, inl, inr, refl, ap, sym, ◌∙◌, arith, List, length,
}
use memif.Bytes.{bytes_at, copy_at, copy, of_le, read_le}
use memif.Bytes.Copy.{
  bytes_at-copy_at_self, bytes_at-copy_at_apart, length-copy_at, bytes_at-bytes_at,
}
use memif.Desc.{DescBuf, get_region, get_length}
use memif.Desc.Fields.{IsDesc}
use memif.Types.{Queue, MemoryConfig, RingType}
use memif.Ring
use memif.Ring.{cookie, interface_new_ring}
use memif.Region.{buffer_offset}
use memif.Region.Layout.{Fits}
use memif.Queue.View.{head_at, tail_at}
use memif.Packet.Stream.Holds.{Named, slot_desc}
use memif.Setup.Descs.{length-described, described_frame, described_at}
use memif.Setup.Round.{new_queue, queue_bytes, rb-new_queue, region-new_queue, size-new_queue}

-- A ring whose header and descriptors are as initializeQueues leaves them.
pub record Fresh (q : Queue) (off : ℕ → ℕ) (d : List ℕ) : Type 0 where
  pub cookie_word : read_le 4 q.ring.offset d ≡ cookie
  pub head : head_at q d ≡ 0
  pub tail : tail_at q d ≡ 0
  pub named : Named q off d

rb_fields :
    (run : MemoryConfig) (t : RingType) (efd : ℕ)
    → (read_le 4 0 (new_queue run t efd).ring.rb ≡ cookie)
      × (read_le 2 6 (new_queue run t efd).ring.rb ≡ 0)
      × (read_le 2 64 (new_queue run t efd).ring.rb ≡ 0)
unfolding new_queue interface_new_ring Ring.set_flags Ring.set_cookie copy_at copy
rb_fields run t efd = (refl, refl, refl)

module _ (run : MemoryConfig) (fits : Fits run) (t : RingType) (efd first : ℕ) (desc : DescBuf)
    (whole : IsDesc desc) (d : List ℕ) where
  abbrev q : Queue
  q = new_queue run t efd

  abbrev n : ℕ
  n = 2 ^ run.log2_ring_size

  abbrev pub after : List ℕ
  after = queue_bytes q run n first desc d

  pub length-after : length after ≡ length d
  length-after = length-described q run first n 0 desc _ ∙ length-copy_at d q.ring.offset q.ring.rb

  -- What lies outside the ring stays.
  pub after_frame :
      (lo m : ℕ)
      → (lo + m ≤ q.ring.offset) ⊎ (q.ring.offset + 128 + 16 * q.ring.size ≤ lo)
      → bytes_at lo m after ≡ bytes_at lo m d
  after_frame lo m apart =
      described_frame q run first n 0 desc _ lo m whole (elim apart [
        | inl h ↦ inl (omega arith)
        | inr h ↦ inr (omega (arith, size-new_queue run fits t efd))
      ])
      ∙ bytes_at-copy_at_apart d q.ring.offset q.ring.rb lo m
          (elim apart [ inl h ↦ inl h | inr h ↦ inr (omega (arith, rb-new_queue run fits t efd)) ])

  module _ (room : q.ring.offset + 128 + 16 * q.ring.size ≤ length d) where
    -- Bytes of the header.
    header_at :
        (a m : ℕ) → a + m ≤ 128 → bytes_at (q.ring.offset + a) m after ≡ bytes_at a m q.ring.rb
    header_at a m inside =
        described_frame q run first n 0 desc _ (q.ring.offset + a) m whole (inl (omega arith))
        ∙ sym (bytes_at-bytes_at (copy_at d q.ring.offset q.ring.rb) q.ring.offset 128 a m inside)
        ∙ ap (bytes_at a m) (
            rw (rb-new_queue run fits t efd) at (
              bytes_at-copy_at_self d q.ring.offset q.ring.rb
                (omega (arith, rb-new_queue run fits t efd))))

    within : q.ring.offset + 128 + (0 + n) * 16 ≤ length (copy_at d q.ring.offset q.ring.rb)
    within = omega (arith, size-new_queue run fits t efd, length-copy_at d q.ring.offset q.ring.rb)

    pub after-Fresh : get_region desc ≡ 0 → Fresh q (buffer_offset run first) after
    after-Fresh region = record {
      cookie_word =
          ap (λ o. read_le 4 o after) (omega arith)
          ∙ ap of_le (header_at 0 4 (omega arith))
          ∙ (rb_fields run t efd).0;
      head = ap of_le (header_at 6 2 (omega arith)) ∙ (rb_fields run t efd).1;
      tail = ap of_le (header_at 64 2 (omega arith)) ∙ (rb_fields run t efd).2;
      named = record {
        region = λ s lt.
            (described_at q run first n 0 desc _ s whole (omega arith)
              (omega (arith, size-new_queue run fits t efd)) within).0
            ∙ region
            ∙ sym (region-new_queue run fits t efd);
        offset = λ s lt.
            (described_at q run first n 0 desc _ s whole (omega arith)
              (omega (arith, size-new_queue run fits t efd)) within).1;
      };
    }

    pub after-lengths :
        (s : ℕ) → s < q.ring.size → get_length (slot_desc q s after) ≡ get_length desc
    after-lengths s lt =
        (described_at q run first n 0 desc _ s whole (omega arith)
          (omega (arith, size-new_queue run fits t efd)) within).2
