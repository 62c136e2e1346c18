-- ===== src/Setup/Queues.antt =====
-- The whole of initializeQueues of memif-new/memif/interface.go for one queue pair, as many as is the
-- default: a ring of each kind, with its descriptors and buffers.
use memif.Prelude.{
  ◌%◌, refl, ℕ, zero, suc, ◌+◌, ◌*◌, ◌^◌, ◌≤◌, ◌<◌, ◌≡◌, inl, inr, ap, ◌∙◌, arith, true, List,
  length, some, get_elem?,
}
use memif.Bytes.{bytes_at, of_le}
use memif.Desc.{DescBuf, new_desc_buf, get_length, set_flags, set_region, set_length, get_region}
use memif.Desc.Fields.{
  Fields, fields, IsDesc, setters-IsDesc, set_length-fields, set_region-fields, set_offset-fields,
  new_desc_buf-IsDesc,
}
use memif.Types.{Interface, Queue, MemoryConfig, RingType, s2m, m2s}
use memif.Types.Os.{Os, Call}
use memif.Region.{packet_buffer_offset, region_size, buffer_offset}
use memif.Region.Layout.{
  Fits, ring_count, ring_extent, rank_fits, mul-le, buffer_offset-eq, region_size-eq, slots_extent,
}
use memif.Queue.View.{RingAt, head_address, tail_address}
use memif.Packet.Stream.Holds.{Buffers}
use memif.Socket.{Socket, done, return}
use memif.Setup.{initialize_queue, initialize_queues_of, initialize_queues}
use memif.Setup.Write.{get_interface-eq, bind-done, last_desc}
use memif.Setup.Round.{new_queue, size-new_queue, offset-new_queue}
use memif.Setup.Memory.{Fresh}
use native.Mathlib.Decide.{dec_lt}

-- Where the packet buffers begin.
abbrev pub buffer_of : MemoryConfig → ℕ → ℕ
buffer_of run = buffer_offset run (packet_buffer_offset run true)

module _ (run : MemoryConfig) (fits : Fits run) (pos : 0 < run.packet_buffer_size) where
  module _ (t : RingType) (efd : ℕ) where
    abbrev q : Queue
    q = new_queue run t efd

    pub ring_fits : q.ring.offset + 128 + 16 * q.ring.size ≤ ring_count run * ring_extent run
    ring_fits = omega (
      arith,
      offset-new_queue run fits t efd,
      size-new_queue run fits t efd,
      rank_fits run fits.some_pair fits.rings t 0 fits.some_pair,
    )

    in_pairs : (s : ℕ) → s < q.ring.size → s < ring_count run * 2 ^ run.log2_ring_size
    in_pairs s lt = omega (
      arith,
      size-new_queue run fits t efd,
      mul-le 1 (ring_count run) (2 ^ run.log2_ring_size) (omega (arith, fits.some_pair)),
    )

    slot_place :
        (s : ℕ)
        → s < q.ring.size
        → buffer_of run s ≡ ring_count run * ring_extent run + s * run.packet_buffer_size
    slot_place s lt = buffer_offset-eq run fits s (in_pairs s lt) pos

    pub queue-Buffers : Buffers q run.packet_buffer_size (buffer_of run) (region_size run true true)
    queue-Buffers = record {
      room = λ s lt. omega (
        arith,
        slot_place s lt,
        region_size-eq run fits,
        slots_extent run fits s (in_pairs s lt),
      );
      outside = λ s lt. inr (omega (arith, slot_place s lt, ring_fits));
      apart = λ a b la lb ne. elim (dec_lt a b) [
        | yes h ↦ inl (
            omega (
              arith,
              slot_place a la,
              slot_place b lb,
              mul-le (a + 1) b run.packet_buffer_size (omega arith),
            ))
        | no h ↦ inr (
            omega (
              arith,
              slot_place a la,
              slot_place b lb,
              mul-le (b + 1) a run.packet_buffer_size (omega arith),
            ))
      ];
    }

    pub queue-RingAt :
        (d : List ℕ) → length d ≡ region_size run true true → RingAt q run.log2_ring_size d
    queue-RingAt d same = record {
      slots = size-new_queue run fits t efd;
      small = omega (arith, ring_fits, fits.rings);
      inside = omega (arith, ring_fits, region_size-eq run fits);
      bounded = omega (arith, fits.buffers, region_size-eq run fits);
    }

-- A ring stays fresh while its bytes do.
pub Fresh-frame :
    (q : Queue) (off : ℕ → ℕ) (d e : List ℕ)
    → 0 < q.ring.size
    → ((lo m : ℕ)
        → q.ring.offset ≤ lo
        → lo + m ≤ q.ring.offset + 128 + 16 * q.ring.size
        → bytes_at lo m e ≡ bytes_at lo m d)
    → Fresh q off d
    → Fresh q off e
Fresh-frame q off d e pos frame fresh = record {
  cookie_word = ap of_le (frame q.ring.offset 4 (omega arith) (omega arith)) ∙ fresh.cookie_word;
  head = ap of_le (frame (head_address q) 2 (omega arith) (omega arith)) ∙ fresh.head;
  tail = ap of_le (frame (tail_address q) 2 (omega arith) (omega arith)) ∙ fresh.tail;
  named = record {
    region = λ s lt.
        rw (frame (q.ring.offset + 128 + s * 16) 16 (omega arith) (omega arith))
          (fresh.named.region s lt);
    offset = λ s lt.
        rw (frame (q.ring.offset + 128 + s * 16) 16 (omega arith) (omega arith))
          (fresh.named.offset s lt);
  };
}

-- The descriptors that are passed from slot to slot keep their size, their region and their length.
pub last_desc-kept :
    (run : MemoryConfig) (first n slot : ℕ) (desc : DescBuf)
    → IsDesc desc
    → get_region desc ≡ 0
    → IsDesc (last_desc run first n slot desc)
      × (get_region (last_desc run first n slot desc) ≡ 0)
      × (get_length (last_desc run first n slot desc) ≡ get_length desc)
unfolding fields
last_desc-kept run first zero slot desc whole region = (whole, region, refl)
last_desc-kept run first (suc n) slot desc whole region =
    let changed = set_offset-fields (buffer_offset run first slot) desc whole in
    let (kept, r, len) =
      last_desc-kept run first n (slot + 1) _
        (setters-IsDesc (buffer_offset run first slot) desc whole).3
        (ap (λ (f : Fields). f.region) changed ∙ region) in
    (kept, r, len ∙ ap (λ (f : Fields). f.len) changed)

-- The descriptor that the first slot begins with.
abbrev pub initial_desc : MemoryConfig → DescBuf
initial_desc run = set_length run.packet_buffer_size (set_region 0 (set_flags 0 new_desc_buf))

pub initial_desc-kept :
    (run : MemoryConfig)
    → IsDesc (initial_desc run)
      × (get_region (initial_desc run) ≡ 0)
      × (get_length (initial_desc run) ≡ run.packet_buffer_size % 2 ^ 32)
unfolding fields
initial_desc-kept run =
    let flagged = (setters-IsDesc 0 new_desc_buf new_desc_buf-IsDesc).0 in
    let placed = (setters-IsDesc 0 (set_flags 0 new_desc_buf) flagged).1 in
    (
      (setters-IsDesc run.packet_buffer_size (set_region 0 (set_flags 0 new_desc_buf)) placed).2,
      ap (λ (f : Fields). f.region)
            (set_length-fields run.packet_buffer_size (set_region 0 (set_flags 0 new_desc_buf))
              placed)
          ∙ ap (λ (f : Fields). f.region) (set_region-fields 0 (set_flags 0 new_desc_buf) flagged),
      ap (λ (f : Fields). f.len)
          (set_length-fields run.packet_buffer_size (set_region 0 (set_flags 0 new_desc_buf))
            placed),
    )

module _ (os : Os)
    (accepts : (calls : List Call) (c : Call) → ((v : ℕ) × (os.reply calls c ≡ some v)))
    (i : ℕ) where
  -- The loop over the one queue pair.
  one_pair :
      (t : RingType) (pairs : ℕ) (desc desc' : DescBuf) (s s' : Socket)
      → pairs ≡ 1
      → initialize_queue os i t 0 desc s ≡ done desc' s'
      → initialize_queues_of os i t pairs 0 desc s ≡ done desc' s'
  unfolding initialize_queues_of return
  one_pair t pairs desc desc' s s' e round =
      ap (λ (k : ℕ). initialize_queues_of os i t k 0 desc s) e
      ∙ bind-done (initialize_queue os i t 0 desc) _ desc' s s' round

  pub both_loops :
      (x : Interface) (s s₁ s₂ : Socket) (desc₁ desc₂ : DescBuf)
      → get_elem? s.interfaces i ≡ some x
      → x.run.num_queue_pairs ≡ 1
      → initialize_queue os i s2m 0 (initial_desc x.run) s ≡ done desc₁ s₁
      → initialize_queue os i m2s 0 desc₁ s₁ ≡ done desc₂ s₂
      → initialize_queues os i s ≡ done tt s₂
  unfolding initialize_queues return
  both_loops x s s₁ s₂ desc₁ desc₂ there one tx rx =
      get_interface-eq i x s _ there
      ∙ bind-done (initialize_queues_of os i s2m x.run.num_queue_pairs 0 (initial_desc x.run)) _
          desc₁ s s₁ (one_pair s2m x.run.num_queue_pairs (initial_desc x.run) desc₁ s s₁ one tx)
      ∙ bind-done (initialize_queues_of os i m2s x.run.num_queue_pairs 0 desc₁) _ desc₂ s₁ s₂
          (one_pair m2s x.run.num_queue_pairs desc₁ desc₂ s₁ s₂ one rx)
