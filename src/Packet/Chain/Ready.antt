-- ===== src/Packet/Chain/Ready.antt =====
-- A slave's ring whose slots all have a buffer, and the writes of WritePacket to it.
use memif.Prelude.{
  ℕ, ◌+◌, ◌*◌, ◌%◌, ◌^◌, ◌≤◌, ◌<◌, ◌≡◌, ◌≢◌, refl, ◌⊎◌, inl, inr, ap, subst, sym, ◌∙◌, arith, List,
  length, false, some,
}
use memif.Bytes.{bytes_at, copy_at, write_le, to_le, of_le}
use memif.Bytes.Copy.{bytes_at-copy_at_self, bytes_at-copy_at_apart, length-copy_at}
use memif.Bytes.Endian.{read_le-write_le_16, length-to_le}
use memif.Desc.{DescBuf, get_region, get_offset, set_flags, set_length}
use memif.Desc.Fields.{Fields, fields, IsDesc, setters-IsDesc, set_flags-fields, set_length-fields}
use memif.Types.{Interface, Queue, Arguments, MemoryConfig}
use memif.Queue.{region_data, set_region_data}
use memif.Queue.Memory.{region_data-set, args-set_region_data, run-set_region_data}
use memif.Queue.View.{
  RingAt, RingAt-length, slot_address, slot-lt, size-pos, slot_inside, head_at, head_address,
  desc_at, length-desc_at,
}
use memif.Packet.Place.{Outside-cases, swap_sides}
use memif.Packet.Stream.Holds.{Buffers, Named, slot_desc}
use memif.Packet.Stream.Slots.{slots_apart, Outside-shrink}
use native.Mathlib.Decide.{ℕ_discrete}

-- A slave has mapped the bytes `d`, in which the ring has 2^`l` slots with buffers of the configured
-- size `size` at `off`.
pub record Ready (q : Queue) (l size : ℕ) (off : ℕ → ℕ) (i : Interface) (d : List ℕ) : Type 0 where
  pub role : i.args.is_master ≡ false
  pub buffer_size : i.run.packet_buffer_size ≡ size
  pub mapped : region_data i q.ring.region ≡ some d
  pub ring_at : RingAt q l d
  pub buffers : Buffers q size off (length d)
  pub named : Named q off d

-- A descriptor for the slot that index `s` stands for, which names the slot's buffer.
pub record Names (q : Queue) (off : ℕ → ℕ) (s : ℕ) (desc : DescBuf) : Type 0 where
  pub whole : IsDesc desc
  pub region : get_region desc ≡ q.ring.region
  pub offset : get_offset desc ≡ off (s % q.ring.size)

module _ {q : Queue} {off : ℕ → ℕ} {s : ℕ} {desc : DescBuf} (v : ℕ)
    (names : Names q off s desc) where
  pub Names-set_flags : Names q off s (set_flags v desc)
  unfolding fields
  Names-set_flags = record {
    whole = (setters-IsDesc v desc names.whole).0;
    region = ap (λ (f : Fields). f.region) (set_flags-fields v desc names.whole) ∙ names.region;
    offset = ap (λ (f : Fields). f.offset) (set_flags-fields v desc names.whole) ∙ names.offset;
  }

  pub Names-set_length : Names q off s (set_length v desc)
  unfolding fields
  Names-set_length = record {
    whole = (setters-IsDesc v desc names.whole).2;
    region = ap (λ (f : Fields). f.region) (set_length-fields v desc names.whole) ∙ names.region;
    offset = ap (λ (f : Fields). f.offset) (set_length-fields v desc names.whole) ∙ names.offset;
  }

module _ {q : Queue} {l size : ℕ} {off : ℕ → ℕ} {i : Interface} {d : List ℕ}
    (ready : Ready q l size off i d) where
  pub desc_at-Names : (s : ℕ) → Names q off s (desc_at q s d)
  desc_at-Names s = record {
    whole = length-desc_at ready.ring_at s;
    region = ready.named.region _ (slot-lt ready.ring_at s);
    offset = ready.named.offset _ (slot-lt ready.ring_at s);
  }

  pub Ready-bytes :
      (e : List ℕ)
      → length e ≡ length d
      → Named q off e
      → Ready q l size off (set_region_data q.ring.region e i) e
  Ready-bytes e same named = record {
    role =
        ap (λ (a : Arguments). a.is_master) (args-set_region_data i q.ring.region e) ∙ ready.role;
    buffer_size =
        ap (λ (c : MemoryConfig). c.packet_buffer_size) (run-set_region_data i q.ring.region e)
        ∙ ready.buffer_size;
    mapped = region_data-set i q.ring.region ready.mapped e same;
    ring_at = RingAt-length e ready.ring_at same;
    buffers = rw same ready.buffers;
    named = named;
  }

  Named-frame :
      (e : List ℕ) → ((s : ℕ) → s < q.ring.size → slot_desc q s e ≡ slot_desc q s d) → Named q off e
  Named-frame e same = record {
    region = λ s lt. rw (same s lt) (ready.named.region s lt);
    offset = λ s lt. rw (same s lt) (ready.named.offset s lt);
  }

  -- Bytes put into a buffer, no more than it holds.
  module _ (s : ℕ) (xs : List ℕ) (fits : length xs ≤ size) where
    abbrev pub filled : List ℕ
    filled = copy_at d (off (s % q.ring.size)) xs

    filled_frame :
        (a n : ℕ)
        → q.ring.offset ≤ a
        → a + n ≤ q.ring.offset + 128 + 16 * q.ring.size
        → bytes_at a n filled ≡ bytes_at a n d
    filled_frame a n from to = bytes_at-copy_at_apart d (off (s % q.ring.size)) xs a n (
        swap_sides (
          Outside-cases q (off (s % q.ring.size)) (length xs) a n
            (Outside-shrink q _ (off (s % q.ring.size)) (length xs) size refl fits
              (ready.buffers.outside _ (slot-lt ready.ring_at s)))
            from to))

    pub filled-Ready : Ready q l size off (set_region_data q.ring.region filled i) filled
    filled-Ready =
        Ready-bytes filled (length-copy_at d _ xs)
          (Named-frame filled λ t lt. filled_frame _ 16 (omega arith) (omega arith))

    pub head_at-filled : head_at q filled ≡ head_at q d
    head_at-filled = ap of_le (filled_frame (head_address q) 2 (omega arith) (omega arith))

  -- A descriptor that names its buffer.
  module _ (s : ℕ) (desc : DescBuf) (names : Names q off s desc) where
    abbrev pub put : List ℕ
    put = copy_at d (slot_address q s) desc

    put_self : slot_desc q (s % q.ring.size) put ≡ desc
    put_self = rw (names.whole) at (
        bytes_at-copy_at_self d (slot_address q s) desc
          (omega (arith, names.whole, slot_inside ready.ring_at s)))

    put_frame :
        (a n : ℕ)
        → (a + n ≤ slot_address q s) ⊎ (slot_address q s + 16 ≤ a)
        → bytes_at a n put ≡ bytes_at a n d
    put_frame a n apart =
        bytes_at-copy_at_apart d (slot_address q s) desc a n (rw names.whole apart)

    put_other : (t : ℕ) → t ≢ s % q.ring.size → slot_desc q t put ≡ slot_desc q t d
    put_other t ne =
        put_frame (q.ring.offset + 128 + t * 16) 16 (elim (slots_apart t (s % q.ring.size) ne) [
          | inl h ↦ inl (omega arith)
          | inr h ↦ inr (omega arith)
        ])

    put-Named : Named q off put
    put-Named = record {
      region = λ t lt. elim (ℕ_discrete t (s % q.ring.size)) [
        | yes e ↦
            subst (λ k. get_region (slot_desc q k put) ≡ q.ring.region) (sym e)
              (rw put_self names.region)
        | no ne ↦ rw (put_other t ne) (ready.named.region t lt)
      ];
      offset = λ t lt. elim (ℕ_discrete t (s % q.ring.size)) [
        | yes e ↦
            subst (λ k. get_offset (slot_desc q k put) ≡ off k) (sym e) (rw put_self names.offset)
        | no ne ↦ rw (put_other t ne) (ready.named.offset t lt)
      ];
    }

    pub put-Ready : Ready q l size off (set_region_data q.ring.region put i) put
    put-Ready = Ready-bytes put (length-copy_at d _ desc) put-Named

    pub head_at-put : head_at q put ≡ head_at q d
    head_at-put = ap of_le (put_frame (head_address q) 2 (inl (omega arith)))

  -- The index that the peer reads.
  module _ (v : ℕ) where
    abbrev pub moved : List ℕ
    moved = write_le 2 (head_address q) v d

    pub moved-Ready : Ready q l size off (set_region_data q.ring.region moved i) moved
    moved-Ready = Ready-bytes moved (length-copy_at d _ (to_le 2 v)) (
        Named-frame moved λ t lt.
          bytes_at-copy_at_apart d (head_address q) (to_le 2 v) _ 16
            (inr (omega (arith, length-to_le 2 v))))

    pub head_at-moved : head_at q moved ≡ v % 2 ^ 16
    head_at-moved =
        read_le-write_le_16 (head_address q) v d
          (omega (arith, ready.ring_at.inside, size-pos ready.ring_at))
