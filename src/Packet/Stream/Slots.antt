-- ===== src/Packet/Stream/Slots.antt =====
-- WritePacket into the next slot of a ring whose descriptors name disjoint buffers, for either
-- role: the slot's packet, and what the other slots keep.
use memif.Prelude.{
  ℕ, ◌+◌, ◌-◌, ◌*◌, ◌%◌, ◌^◌, ◌≤◌, ◌<◌, ◌≡◌, ◌≢◌, ◌⊎◌, inl, inr, refl, sym, ap, subst, ◌∙◌, arith,
  Bool, List, [], ◌∷◌, ◌++◌, length, some,
}
use memif.Prelude.Modulo.{mod-ne, wrap_slot}
use memif.Bytes.{bytes_at}
use memif.Desc.{get_region, get_offset}
use memif.Types.{Interface, Queue}
use memif.Queue.{region_data}
use memif.Queue.View.{RingAt, slot_address, slot-lt, desc_at}
use memif.Packet.Place.{Outside, Outside-cases, swap_sides}
use memif.Packet.Send.{CanSend, index_address, slot_at, size_of, sent, reset}
use memif.Packet.Sent.{
  get_flags-reset, get_length-reset, get_offset-reset, get_region-reset, whole, length-sent,
  desc_at-sent, packet-sent, sent_frame, index-InHeader,
}
use memif.Packet.Stream.Holds.{
  Buffers, Named, SlotHolds, Holds, Kept, Elsewhere, slot_desc, Holds-Kept, Holds-append,
}
use native.Mathlib.Decide.{dec_lt, ℕ_discrete}

pub Outside-shrink : (q : Queue) (a b n m : ℕ) → a ≡ b → n ≤ m → Outside q b m → Outside q a n
Outside-shrink q a b n m e h (inl below) = inl (omega arith)
Outside-shrink q a b n m e h (inr above) = inr (omega arith)

pub slots_apart : (s t : ℕ) → s ≢ t → (s * 16 + 16 ≤ t * 16) ⊎ (t * 16 + 16 ≤ s * 16)
slots_apart s t h = elim (dec_lt s t) [ yes lt ↦ inl (omega arith) | no ge ↦ inr (omega arith) ]

pub wrapped :
    {q : Queue} {l : ℕ} {d : List ℕ}
    → RingAt q l d
    → (s : ℕ) → s % 2 ^ 16 % q.ring.size ≡ s % q.ring.size
wrapped {q} {l} r s =
    subst (λ m. s % 2 ^ 16 % m ≡ s % m) (sym r.slots)
      (wrap_slot l s (omega (arith, r.slots, r.small)))

-- A sender of role `m` with the bytes `d`, whose next slot has a buffer of `size` bytes.
pub record Ready (m : Bool) (size : ℕ) (off : ℕ → ℕ) (l : ℕ) (q : Queue) (d : List ℕ)
    (i : Interface) : Type 0 where
  pub role : i.args.is_master ≡ m
  pub ring_at : RingAt q l d
  pub mapped : region_data i q.ring.region ≡ some d
  pub sized : size_of i m (desc_at q (slot_at m q d) d) ≡ size
  pub narrow : size < 2 ^ 32
  pub buffers : Buffers q size off (length d)
  pub named : Named q off d

module _ {m : Bool} {size l : ℕ} {off : ℕ → ℕ} {q : Queue} {d : List ℕ} {i : Interface}
    (rd : Ready m size off l q d i) (pkt : List ℕ) (fits : length pkt ≤ size) where
  -- The sender's next slot.
  abbrev pub next : ℕ
  next = slot_at m q d % q.ring.size

  next-lt : next < q.ring.size
  next-lt = slot-lt rd.ring_at (slot_at m q d)

  next_offset : get_offset (slot_desc q next d) ≡ off next
  next_offset = rd.named.offset next next-lt

  pub can_send : CanSend m q l d i pkt
  can_send = record {
    role = rd.role;
    ring_at = rd.ring_at;
    mapped = rd.mapped;
    same_region = rd.named.region next next-lt;
    room = omega (arith, next_offset, rd.buffers.room next next-lt, rd.sized);
    fits = omega (arith, rd.sized);
    outside =
        Outside-shrink q _ (off next) (length pkt) size next_offset fits
          (rd.buffers.outside next next-lt);
  }

  abbrev pub after : List ℕ
  after = sent m q pkt d

  -- Any other slot keeps its descriptor and its buffer.
  pub others-Kept : (t : ℕ) → t < q.ring.size → t ≢ next → Kept q size off d after t
  others-Kept t lt ne = record {
    desc =
        sent_frame can_send (q.ring.offset + 128 + t * 16) 16
          (inr (omega (arith, index-InHeader m q)))
          (elim (slots_apart t next ne) [ inl h ↦ inl (omega arith) | inr h ↦ inr (omega arith) ])
          (swap_sides (
            Outside-cases q (get_offset (slot_desc q next d)) (length pkt)
              (q.ring.offset + 128 + t * 16) 16 can_send.outside (omega arith) (omega arith)));
    buffer = λ n h.
        let away = Outside-shrink q (off t) (off t) n size refl h (rd.buffers.outside t lt) in
        sent_frame can_send (off t) n
          (Outside-cases q (off t) n (index_address m q) 2 away (omega (arith, index-InHeader m q))
            (omega (arith, index-InHeader m q)))
          (Outside-cases q (off t) n (slot_address q (slot_at m q d)) 16 away (omega arith)
            (omega (arith, next-lt)))
          (elim (rd.buffers.apart t next lt next-lt ne) [
            | inl h₁ ↦ inl (omega (arith, next_offset))
            | inr h₁ ↦ inr (omega (arith, next_offset))
          ]);
  }

  pub after-Elsewhere : Elsewhere q size off d after
  after-Elsewhere = record {
    whole = length-sent can_send;
    same = λ lo n clear.
        sent_frame can_send lo n
          (Outside-cases q lo n (index_address m q) 2 clear.ring (omega (arith, index-InHeader m q))
            (omega (arith, index-InHeader m q)))
          (Outside-cases q lo n (slot_address q (slot_at m q d)) 16 clear.ring (omega arith)
            (omega (arith, next-lt)))
          (elim (clear.buffers next next-lt) [
            | inl h ↦ inl (omega (arith, next_offset))
            | inr h ↦ inr (omega (arith, next_offset))
          ]);
  }

  pub next_desc-after : slot_desc q next after ≡ reset (length pkt) (slot_desc q next d)
  next_desc-after = desc_at-sent can_send

  pub next_holds : SlotHolds q size off after next pkt
  next_holds = record {
    single = rw next_desc-after (omega (arith, get_flags-reset (length pkt) _ (whole can_send)));
    len =
        rw next_desc-after
          (get_length-reset (length pkt) _ (whole can_send) ∙ omega (arith, rd.narrow, fits));
    packet = subst (λ o. bytes_at o (length pkt) after ≡ pkt) next_offset (packet-sent can_send);
    fits = fits;
  }

  pub Named-after : Named q off after
  Named-after = record {
    region = λ s lt. elim (ℕ_discrete s next) [
      | yes e ↦
          subst (λ k. get_region (slot_desc q k after) ≡ q.ring.region) (sym e)
            (rw next_desc-after
              (get_region-reset (length pkt) _ (whole can_send) ∙ rd.named.region next next-lt))
      | no ne ↦ rw ((others-Kept s lt ne).desc) (rd.named.region s lt)
    ];
    offset = λ s lt. elim (ℕ_discrete s next) [
      | yes e ↦
          subst (λ k. get_offset (slot_desc q k after) ≡ off k) (sym e)
            (rw next_desc-after (get_offset-reset (length pkt) _ (whole can_send) ∙ next_offset))
      | no ne ↦ rw ((others-Kept s lt ne).desc) (rd.named.offset s lt)
    ];
  }

  -- The slots that begin at counter `first` hold `ps`, and end before the sender's.
  module _ (first : ℕ) (ps : List (List ℕ)) (holds : Holds q size off d first ps)
      (ends : (first + length ps) % 2 ^ 16 ≡ slot_at m q d) (space : length ps < q.ring.size) where
    next_slot : (first + length ps) % q.ring.size ≡ next
    next_slot = sym (wrapped rd.ring_at (first + length ps)) ∙ ap (λ h. h % q.ring.size) ends

    pending-Kept : (n : ℕ) → n < length ps → Kept q size off d after ((first + n) % q.ring.size)
    pending-Kept n lt = others-Kept _ (slot-lt rd.ring_at (first + n)) λ e.
        let step : first + n + (length ps - n) ≡ first + length ps = omega arith in
        mod-ne q.ring.size (first + n) (length ps - n) (omega arith) (omega arith)
          (ap (λ k. k % q.ring.size) step ∙ next_slot ∙ sym e)

    pub Holds-after : Holds q size off after first (ps ++ (pkt ∷ []))
    Holds-after =
        Holds-append q size off after first ps pkt
          (Holds-Kept q size off d after first ps pending-Kept holds)
          (subst (λ s. SlotHolds q size off after s pkt) (sym next_slot) next_holds)

    -- Behind the last packet the descriptors stay.
    pub behind-Kept :
        (n : ℕ)
        → length ps < n
        → n < length ps + q.ring.size
        → Kept q size off d after ((first + n) % q.ring.size)
    behind-Kept n more less = others-Kept _ (slot-lt rd.ring_at (first + n)) λ e.
        let step : first + length ps + (n - length ps) ≡ first + n = omega arith in
        mod-ne q.ring.size (first + length ps) (n - length ps) (omega arith) (omega arith)
          (ap (λ k. k % q.ring.size) step ∙ e ∙ sym next_slot)
