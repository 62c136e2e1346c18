-- ===== src/Packet/Duplex/Untouched.antt =====
-- What a call on one ring leaves of another ring in the same region.
use memif.Prelude.{
  ℕ, ◌+◌, ◌*◌, ◌^◌, ◌≤◌, ◌<◌, ◌≡◌, ◌⊎◌, inl, inr, sym, ap, subst, ◌∙◌, arith, List, length,
}
use memif.Bytes.{bytes_at, of_le}
use memif.Desc.{get_length, get_region, get_offset}
use memif.Types.{Queue, Arguments, MemoryConfig}
use memif.Queue.{set_region_data}
use memif.Queue.Memory.{region_data-set, args-set_region_data, run-set_region_data}
use memif.Queue.View.{RingAt, RingAt-length, slot-lt, head_address, tail_address}
use memif.Packet.Place.{Outside, swap_sides, Outside-cases}
use memif.Packet.Refill.{Short}
use memif.Packet.Stream.{World}
use memif.Packet.Stream.Holds.{Named, Elsewhere, Holds, Holds-Kept, slot_desc}
use memif.Packet.Stream.State.{Stream}
use memif.Packet.Credit.State.{Offered}

-- `e` has the ring as `d` has it.
pub record RingKept (q : Queue) (d e : List ℕ) : Type 0 where
  pub whole : length e ≡ length d
  pub ring :
      (lo n : ℕ)
      → q.ring.offset ≤ lo
      → lo + n ≤ q.ring.offset + 128 + 16 * q.ring.size
      → bytes_at lo n e ≡ bytes_at lo n d

-- It also has its buffers.
pub record Untouched (q : Queue) (size : ℕ) (off : ℕ → ℕ) (d e : List ℕ) : Type 0 where
  pub kept : RingKept q d e
  pub buffer :
      (s : ℕ) → s < q.ring.size → (n : ℕ) → n ≤ size → bytes_at (off s) n e ≡ bytes_at (off s) n d

-- What is used of two rings and their buffers lies apart.
pub record Apart (q : Queue) (size : ℕ) (off : ℕ → ℕ) (r : Queue) (size' : ℕ) (off' : ℕ → ℕ)
    : Type 0 where
  pub rings : Outside q r.ring.offset (128 + 16 * r.ring.size)
  pub first : (s : ℕ) → s < q.ring.size → Outside r (off s) size
  pub second : (s : ℕ) → s < r.ring.size → Outside q (off' s) size'
  pub buffers :
      (s t : ℕ)
      → s < q.ring.size
      → t < r.ring.size
      → (off s + size ≤ off' t) ⊎ (off' t + size' ≤ off s)

inside-Outside :
    (q : Queue) (lo n a m : ℕ) → Outside q a m → a ≤ lo → lo + n ≤ a + m → Outside q lo n
inside-Outside q lo n a m (inl h) from to = inl (omega arith)
inside-Outside q lo n a m (inr h) from to = inr (omega arith)

-- A ring apart from another and its buffers, whatever buffers it has.
pub Elsewhere-RingKept :
    {q r : Queue} {size : ℕ} {off : ℕ → ℕ} (d e : List ℕ)
    → Outside q r.ring.offset (128 + 16 * r.ring.size)
    → ((s : ℕ) → s < q.ring.size → Outside r (off s) size)
    → Elsewhere q size off d e
    → RingKept r d e
Elsewhere-RingKept {q} {r} {size} {off} d e rings buffers outside = record {
  whole = outside.whole;
  ring = λ lo n from to. outside.same lo n (record {
    ring = inside-Outside q lo n r.ring.offset (128 + 16 * r.ring.size) rings from (omega arith);
    buffers = λ s lt. swap_sides (Outside-cases r (off s) size lo n (buffers s lt) from to);
  });
}

pub Elsewhere-Untouched :
    {q r : Queue} {size size' : ℕ} {off off' : ℕ → ℕ} (d e : List ℕ)
    → Apart q size off r size' off'
    → Elsewhere q size off d e
    → Untouched r size' off' d e
Elsewhere-Untouched {q} {r} {size} {size'} {off} {off'} d e a outside = record {
  kept = Elsewhere-RingKept d e a.rings a.first outside;
  buffer = λ s lt n le. outside.same (off' s) n (record {
    ring = inside-Outside q (off' s) n (off' s) size' (a.second s lt) (omega arith) (omega arith);
    buffers =
        λ t below. elim (a.buffers t s below lt) [ inl h ↦ inr h | inr h ↦ inl (omega arith) ];
  });
}

module _ {q : Queue} {d e : List ℕ} (u : RingKept q d e) where
  pub desc-RingKept : (s : ℕ) → s < q.ring.size → slot_desc q s e ≡ slot_desc q s d
  desc-RingKept s lt = u.ring (q.ring.offset + 128 + s * 16) 16 (omega arith) (omega arith)

  pub Named-RingKept : {off : ℕ → ℕ} → Named q off d → Named q off e
  Named-RingKept named = record {
    region = λ s lt. ap get_region (desc-RingKept s lt) ∙ named.region s lt;
    offset = λ s lt. ap get_offset (desc-RingKept s lt) ∙ named.offset s lt;
  }

  pub Short-RingKept : Short q d → Short q e
  Short-RingKept short s lt =
      subst (λ db. get_length db < 2 ^ 16) (sym (desc-RingKept s lt)) (short s lt)

pub Holds-Untouched :
    {q : Queue} {size l : ℕ} {off : ℕ → ℕ} {d e : List ℕ} (first : ℕ) (ps : List (List ℕ))
    → RingAt q l d
    → Untouched q size off d e
    → Holds q size off d first ps
    → Holds q size off e first ps
Holds-Untouched {q} {size} {off = off} {d} {e} first ps ring_at u holds =
    Holds-Kept q size off d e first ps
      (λ n lt. record {
        desc = desc-RingKept u.kept _ (slot-lt ring_at (first + n));
        buffer = u.buffer _ (slot-lt ring_at (first + n));
      })
      holds

-- The ends of a ring after the region's bytes have become `e` for both.
abbrev pub with_bytes : List ℕ → World → World
with_bytes e w = record w {
  sender = set_region_data w.tx.ring.region e w.sender;
  receiver = set_region_data w.rx.ring.region e w.receiver;
}

module _ {size l : ℕ} {off : ℕ → ℕ} {w : World} {ps : List (List ℕ)} (e : List ℕ) where
  -- The slots may then hold other packets, as many.
  unfoldable pub Stream-RingKept :
      (st : Stream size off l w ps)
      → RingKept w.tx st.bytes e
      → (qs : List (List ℕ)) → length qs ≡ length ps
      → Holds w.tx size off e w.rx.last_head qs
      → Stream size off l (with_bytes e w) qs
  Stream-RingKept st u qs as_many holds = record {
    bytes = e;
    ring_at = RingAt-length e st.ring_at u.whole;
    same = st.same;
    sends =
        ap (λ (a : Arguments). a.is_master) (args-set_region_data w.sender w.tx.ring.region e)
        ∙ st.sends;
    receives =
        ap (λ (a : Arguments). a.is_master) (args-set_region_data w.receiver w.rx.ring.region e)
        ∙ st.receives;
    slave_maps = region_data-set w.sender w.tx.ring.region st.slave_maps e u.whole;
    master_maps = region_data-set w.receiver w.rx.ring.region st.master_maps e u.whole;
    buffer_size =
        ap (λ (c : MemoryConfig). c.packet_buffer_size)
          (run-set_region_data w.sender w.tx.ring.region e)
        ∙ st.buffer_size;
    narrow = st.narrow;
    buffers = rw (u.whole) st.buffers;
    named = Named-RingKept u st.named;
    tail = ap of_le (u.ring (tail_address w.tx) 2 (omega arith) (omega arith)) ∙ st.tail;
    counter = st.counter;
    head =
        ap of_le (u.ring (head_address w.tx) 2 (omega arith) (omega arith))
        ∙ st.head
        ∙ omega (arith, as_many);
    bound = omega (arith, as_many, st.bound);
    holds = holds;
  }

  unfoldable pub Offered-RingKept :
      {credit : ℕ} (st : Offered size off l w credit ps)
      → RingKept w.tx st.bytes e
      → Holds w.tx size off e w.rx.last_tail ps
      → Offered size off l (with_bytes e w) credit ps
  Offered-RingKept st u holds = record {
    bytes = e;
    ring_at = RingAt-length e st.ring_at u.whole;
    same = st.same;
    sends =
        ap (λ (a : Arguments). a.is_master) (args-set_region_data w.sender w.tx.ring.region e)
        ∙ st.sends;
    receives =
        ap (λ (a : Arguments). a.is_master) (args-set_region_data w.receiver w.rx.ring.region e)
        ∙ st.receives;
    master_maps = region_data-set w.sender w.tx.ring.region st.master_maps e u.whole;
    slave_maps = region_data-set w.receiver w.rx.ring.region st.slave_maps e u.whole;
    buffer_size =
        ap (λ (c : MemoryConfig). c.packet_buffer_size)
          (run-set_region_data w.receiver w.rx.ring.region e)
        ∙ st.buffer_size;
    narrow = st.narrow;
    buffers = rw (u.whole) st.buffers;
    named = Named-RingKept u st.named;
    short = Short-RingKept u st.short;
    counter = st.counter;
    tail = ap of_le (u.ring (tail_address w.tx) 2 (omega arith) (omega arith)) ∙ st.tail;
    head = ap of_le (u.ring (head_address w.tx) 2 (omega arith) (omega arith)) ∙ st.head;
    within = st.within;
    bound = st.bound;
    whole = λ n from to.
        ap get_length (desc-RingKept u _ (slot-lt st.ring_at (w.rx.last_tail + n)))
        ∙ st.whole n from to;
    holds = holds;
  }
