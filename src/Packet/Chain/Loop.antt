-- ===== src/Packet/Chain/Loop.antt =====
-- The rounds of the loop of WritePacket, and the whole call.
use memif.Prelude.{
  ℕ, zero, suc, ◌+◌, ◌*◌, ◌%◌, ◌^◌, ◌≤◌, ◌<◌, ◌≡◌, ◌⊎◌, inl, inr, refl, ◌∙◌, arith, List, length,
  false, some, Option, min, take, length-take, lt→ltb, le→ltb,
}
use memif.Bytes.{copy_at}
use memif.Desc.{DescBuf, get_offset, set_flags, set_length, desc_flag_next, new_desc_buf}
use memif.Desc.Fields.{IsDesc, new_desc_buf-IsDesc}
use memif.Types.{Interface, Queue}
use memif.Types.Os.{Call}
use memif.Queue.{◌>>=◌, set_region_data, interrupt}
use memif.Queue.View.{desc_at, head_at, slot-lt, put_slot-eq, interrupt-eq, kick}
use memif.Queue.Memory.{set_region_data-set}
use memif.Packet.Writer.{Written, write_chain, write_first, Slot, take_slot, fill_buffer, publish}
use memif.Packet.Send.{take_slot-eq, fill_buffer-eq, publish-eq}
use memif.Packet.Chain.Ready.{
  Ready, Names, Names-set_flags, Names-set_length, desc_at-Names, filled, filled-Ready,
  head_at-filled, put, put-Ready, head_at-put, moved, moved-Ready, head_at-moved,
}

-- `n` bytes are counted, and `m` buffers more are wanted, of `t` bytes each.
abbrev pub Wants : ℕ → ℕ → ℕ → ℕ → Type 0
Wants len t n zero = len ≤ n
Wants len t n (suc m) = (n + m * t < len) × (len ≤ n + (m * t + t))

Wants-step : (len t n m : ℕ) → Wants len t n (suc m) → Wants len t (n + t) m
Wants-step len t n zero (more, enough) = omega arith
Wants-step len t n (suc m) (more, enough) = (omega arith, omega arith)

module _ (q : Queue) (l size : ℕ) (off : ℕ → ℕ) where
  -- A call returns `count`, with the ring ready again and this head in it.
  abbrev pub Returns : Option Written → ℕ → ℕ → Type 0
  Returns o count head =
      (w : Written) × (e : List ℕ) × (o ≡ some w)
      × Ready q l size off w.iface e
      × (w.count ≡ count)
      × (head_at q e ≡ head)

  module _ {i : Interface} {d : List ℕ} (ready : Ready q l size off i d) (pkt : List ℕ)
      (calls : List Call) where
    publish-Returns :
        (slot : ℕ) (desc : DescBuf) (n count head : ℕ)
        → Names q off slot desc
        → n ≡ count
        → (slot + 1) % 2 ^ 16 ≡ head
        → Returns (publish q slot desc n i calls) count head
    publish-Returns slot desc n count head names counted index =
        let ready₁ = put-Ready ready slot desc names in
        (
          _,
          moved ready₁ (slot + 1),
          publish-eq ready.ring_at i ready.mapped false slot desc n calls ready.role,
          rw
              (set_region_data-set i q.ring.region ready.mapped (put ready slot desc names)
                (moved ready₁ (slot + 1)))
              at (moved-Ready ready₁ (slot + 1)),
          counted,
          head_at-moved ready₁ (slot + 1) ∙ index,
        )

    refused :
        Returns
          (do calls' ← interrupt q i calls; some (record { count = 0; iface = i; calls = calls' }))
          0
          (head_at q d)
    refused = (
      record { count = 0; iface = i; calls = kick q d calls },
      d,
      rw (interrupt-eq ready.ring_at i ready.mapped calls) refl,
      ready,
      refl,
      refl,
    )

    -- Getting a slot's buffer and filling it.
    abbrev taken : (slot : ℕ) → Slot
    taken slot = record {
      desc = set_length 0 (set_flags 0 (desc_at q slot d));
      buffer_size = i.run.packet_buffer_size;
      offset = get_offset (desc_at q slot d);
    }

    bytes_fit : length (take size pkt) ≤ size
    bytes_fit = omega (arith, length-take {0} size pkt)

    take-eq : (slot : ℕ) (db : DescBuf) → IsDesc db → take_slot q slot db i ≡ some (taken slot)
    take-eq slot db whole = take_slot-eq ready.ring_at i ready.mapped false slot db whole ready.role

    taken-Names :
        (slot n : ℕ)
        → Names q off slot (set_length n (set_length 0 (set_flags 0 (desc_at q slot d))))
    taken-Names slot n =
        Names-set_length n (Names-set_length 0 (Names-set_flags 0 (desc_at-Names ready slot)))

    fill-eq :
        (slot : ℕ)
        → fill_buffer (taken slot) pkt i
          ≡ some (
            min size (length pkt),
            set_region_data q.ring.region (filled ready slot (take size pkt) bytes_fit) i,
          )
    fill-eq slot =
        fill_buffer-eq ready.ring_at i ready.mapped (taken slot) pkt
          (Names-set_length 0 (Names-set_flags 0 (desc_at-Names ready slot))).region
          (omega (
            arith,
            (desc_at-Names ready slot).offset,
            ready.buffer_size,
            ready.buffers.room _ (slot-lt ready.ring_at slot),
          ))
        ∙ λ k. some (
          min (ready.buffer_size k) (length pkt),
          set_region_data q.ring.region
              (copy_at d ((desc_at-Names ready slot).offset k) (take (ready.buffer_size k) pkt)) i,
        )

  -- The loop from index `slot` on, with the counted bytes and the wanted buffers.
  abbrev Loops : ℕ → ℕ → ℕ → ℕ → ℕ → ℕ → Option Written → Type 0
  Loops free m slot n t head o =
      ((m ≤ free) × Returns o (n + m * t) ((slot + m + 1) % 2 ^ 16))
      ⊎ ((free < m) × Returns o 0 head)

  Loops-step :
      (free m slot n t head head' : ℕ) (o : Option Written)
      → head' ≡ head
      → Loops free m (slot + 1) (n + t) t head' o
      → Loops (suc free) (suc m) slot n t head o
  Loops-step free m slot n t head head' o e (inl (le, (w, bytes, returned, ready, count, index))) =
      inl (omega arith, (w, bytes, returned, ready, omega arith, omega arith))
  Loops-step free m slot n t head head' o e (inr (lt, (w, bytes, returned, ready, count, same))) =
      inr (omega arith, (w, bytes, returned, ready, omega arith, omega arith))

  module _ (pkt : List ℕ) (calls : List Call) where
    abbrev share : ℕ
    share = min size (length pkt)

    pub chain-Loops :
        (free m : ℕ) (slot : ℕ) (desc : DescBuf) (n : ℕ) (i : Interface) (d : List ℕ)
        → Ready q l size off i d
        → Names q off slot desc
        → Wants (length pkt) share n m
        → Loops free m slot n share (head_at q d) (write_chain free q slot desc n pkt i calls)
    unfolding write_chain
    chain-Loops zero zero slot desc n i d ready names wants = inl (
      omega arith,
      rw (le→ltb n (length pkt) wants)
          (publish-Returns ready pkt calls slot desc n _ _ names (omega arith) (omega arith)),
    )
    chain-Loops zero (suc m) slot desc n i d ready names wants =
        inr (omega arith, rw (lt→ltb n (length pkt) (omega arith)) (refused ready pkt calls))
    chain-Loops (suc free) zero slot desc n i d ready names wants = inl (
      omega arith,
      rw (le→ltb n (length pkt) wants)
          (publish-Returns ready pkt calls slot desc n _ _ names (omega arith) (omega arith)),
    )
    chain-Loops (suc free) (suc m) slot desc n i d ready names wants =
        let next = Names-set_flags desc_flag_next names in
        let ready₁ = put-Ready ready slot _ next in
        let ready₂ = filled-Ready ready₁ (slot + 1) (take size pkt) (bytes_fit ready₁ pkt calls) in
        Loops-step free m slot n share (head_at q d) _ _
          (head_at-filled ready₁ (slot + 1) _ (bytes_fit ready₁ pkt calls)
            ∙ head_at-put ready slot _ next)
          (rw
            (
              lt→ltb n (length pkt) (omega arith),
              put_slot-eq ready.ring_at i ready.mapped slot (set_flags desc_flag_next desc),
              take-eq ready₁ pkt calls (slot + 1) (set_flags desc_flag_next desc) next.whole,
              fill-eq ready₁ pkt calls (slot + 1),
            )
            (chain-Loops free m (slot + 1) _ (n + share) _ _ ready₂
              (taken-Names ready₁ pkt calls (slot + 1) share)
              (Wants-step (length pkt) share n m wants)))

    -- The call, with `m` buffers wanted after the first.
    pub first-Loops :
        (free m : ℕ) (slot : ℕ) (i : Interface) (d : List ℕ)
        → Ready q l size off i d
        → Wants (length pkt) share share m
        → ((suc m ≤ free)
            × Returns
                (write_first free q slot pkt i calls)
                (suc m * share)
                ((slot + suc m) % 2 ^ 16))
          ⊎ ((free < suc m) × Returns (write_first free q slot pkt i calls) 0 (head_at q d))
    unfolding write_first
    first-Loops zero m slot i d ready wants = inr (omega arith, refused ready pkt calls)
    first-Loops (suc free) m slot i d ready wants =
        rw
          (
            take-eq ready pkt calls slot new_desc_buf new_desc_buf-IsDesc,
            fill-eq ready pkt calls slot,
          )
          (one_more (
            chain-Loops free m slot _ share _ _ ready₁ (taken-Names ready pkt calls slot share)
              wants))
      where
        ready₁ :
            Ready q l size off
              (set_region_data q.ring.region
                (filled ready slot (take size pkt) (bytes_fit ready pkt calls))
                i)
              (filled ready slot (take size pkt) (bytes_fit ready pkt calls))
        ready₁ = filled-Ready ready slot (take size pkt) (bytes_fit ready pkt calls)

        one_more :
            {o : Option Written}
            → Loops free m slot share share
                (head_at q (filled ready slot (take size pkt) (bytes_fit ready pkt calls)))
                o
            → ((suc m ≤ suc free) × Returns o (suc m * share) ((slot + suc m) % 2 ^ 16))
              ⊎ ((suc free < suc m) × Returns o 0 (head_at q d))
        one_more (inl (le, (w, bytes, returned, again, count, index))) =
            inl (omega arith, (w, bytes, returned, again, omega arith, omega arith))
        one_more (inr (lt, (w, bytes, returned, again, count, same))) = inr (
          omega arith,
          (
            w,
            bytes,
            returned,
            again,
            count,
            same ∙ head_at-filled ready slot (take size pkt) (bytes_fit ready pkt calls),
          ),
        )
