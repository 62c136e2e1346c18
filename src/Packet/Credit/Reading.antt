-- ===== src/Packet/Credit/Reading.antt =====
-- ReadPacket by the slave, which offers slots again.
use memif.Prelude.{
  ℕ, refl, inl, inr, ◌+◌, ◌-◌, ◌%◌, ◌^◌, ◌≤◌, ◌<◌, ◌≡◌, ◌≢◌, sym, ap, ◌∙◌, arith, List, length,
}
use memif.Prelude.Modulo.{mod-ne}
use memif.Desc.{get_length}
use memif.Types.{Queue, Arguments, MemoryConfig}
use memif.Queue.{set_region_data}
use memif.Queue.Memory.{region_data-set, args-set_region_data, run-set_region_data}
use memif.Queue.View.{slot_address, head_address, RingAt, RingAt-length, slot-lt, head_at, desc_at}
use memif.Packet.Receive.{refilled}
use memif.Packet.Place.{Outside-cases}
use memif.Packet.Stream.Step.{Step}
use memif.Packet.Refill.{refilled_frame, length-refilled, head_at-refilled}
use memif.Packet.Refill.Descs.{
  Named-refilled, tail_at-refilled, Kept-refilled, desc-refilled, get_length-refilled,
  Short-refilled,
}
use memif.Packet.Stream.{World}
use memif.Packet.Stream.Holds.{Holds, slot_desc, Holds-Kept}
use memif.Packet.Stream.Slots.{wrapped}
use memif.Packet.Credit.State.{Offered}
use native.Mathlib.Decide.{dec_lt}
use native.Mathlib.Nat.{mod-add-mod}

-- A wrapped counter, some steps on, stands for the same slot.
wrapped_steps :
    {q : Queue} {l : ℕ} {d : List ℕ} (ring_at : RingAt q l d) (a n : ℕ)
    → (a % 2 ^ 16 + n) % q.ring.size ≡ (a + n) % q.ring.size
wrapped_steps {q} ring_at a n =
    sym (mod-add-mod (a % 2 ^ 16) q.ring.size n)
    ∙ ap (λ m. (m + n) % q.ring.size) (wrapped ring_at a)
    ∙ mod-add-mod a q.ring.size n

module _ {size l : ℕ} {off : ℕ → ℕ} {w : World} {credit : ℕ} {ps : List (List ℕ)}
    (st : Offered size off l w credit ps) (step : ℕ) (rest : List (List ℕ))
    (taken : step + length rest ≡ length ps) (one : step ≤ 1) where
  -- How many slots the slave offers when it has taken `step` packets, and the bytes after that.
  abbrev fresh : ℕ
  fresh = w.tx.ring.size + step - credit

  abbrev pub refilled_bytes : List ℕ
  refilled_bytes = refilled fresh w.tx size (head_at w.tx st.bytes) st.bytes

  -- The slave's index then.
  abbrev index : ℕ
  index = (w.rx.last_tail + step) % 2 ^ 16

  abbrev pub read_world : World
  read_world = record w {
    rx = record w.rx { last_tail = index };
    receiver = set_region_data w.rx.ring.region refilled_bytes w.receiver;
    sender = set_region_data w.tx.ring.region refilled_bytes w.sender;
  }

  pub length-after : length refilled_bytes ≡ length st.bytes
  length-after = length-refilled w.tx size fresh (head_at w.tx st.bytes) st.bytes

  -- `n` slots behind the index, within the old credit, there is no slot that is offered again.
  kept_slot :
      (n : ℕ)
      → step + n < credit
      → (j : ℕ) → j < fresh
      → (index + n) % w.tx.ring.size ≢ (head_at w.tx st.bytes + j) % w.tx.ring.size
  kept_slot n below j lt e =
      let there : w.rx.last_tail + step + n + (credit + j - (step + n))
          ≡ w.rx.last_tail + credit + j =
        omega arith in
      mod-ne w.tx.ring.size (w.rx.last_tail + step + n) (credit + j - (step + n)) (omega arith)
        (omega (arith, st.bound))
        (ap (λ m. m % w.tx.ring.size) there
          ∙ sym (wrapped_steps st.ring_at (w.rx.last_tail + credit) j)
          ∙ ap (λ h. (h + j) % w.tx.ring.size) (sym st.head)
          ∙ sym e
          ∙ wrapped_steps st.ring_at (w.rx.last_tail + step) n)

  -- The slots without a packet have the whole length: those offered before, and the fresh ones.
  whole-after :
      (n : ℕ)
      → length rest ≤ n
      → n < w.tx.ring.size
      → get_length (desc_at w.tx (index + n) refilled_bytes) ≡ size
  whole-after n from to = elim (dec_lt (step + n) credit) [
    | yes below ↦
        ap get_length
          (desc-refilled w.tx size fresh (head_at w.tx st.bytes) st.bytes _ (kept_slot n below))
        ∙ ap (λ s. get_length (slot_desc w.tx s st.bytes))
            (wrapped_steps st.ring_at (w.rx.last_tail + step) n
              ∙ ap (λ m. m % w.tx.ring.size)
                  (let z : w.rx.last_tail + step + n ≡ w.rx.last_tail + (step + n) = omega arith in
                    z))
        ∙ st.whole (step + n) (omega arith) below
    | no above ↦
        let there : w.rx.last_tail + step + n ≡ w.rx.last_tail + credit + (step + n - credit) =
          omega arith in
        ap (λ s. get_length (slot_desc w.tx s refilled_bytes))
          (wrapped_steps st.ring_at (w.rx.last_tail + step) n
            ∙ ap (λ m. m % w.tx.ring.size) there
            ∙ sym (wrapped_steps st.ring_at (w.rx.last_tail + credit) (step + n - credit))
            ∙ ap (λ h. (h + (step + n - credit)) % w.tx.ring.size) (sym st.head))
        ∙ get_length-refilled w.tx size st.narrow fresh (head_at w.tx st.bytes) st.bytes st.ring_at
            st.short (omega (arith, st.within)) (step + n - credit) (omega arith)
  ]

  pub read-Offered :
      Holds w.tx size off st.bytes index rest → Offered size off l read_world w.tx.ring.size rest
  read-Offered holds = record {
    bytes = refilled_bytes;
    ring_at = RingAt-length refilled_bytes st.ring_at length-after;
    same = record { region = st.same.region; offset = st.same.offset; size = st.same.size };
    sends =
        ap (λ (a : Arguments). a.is_master)
          (args-set_region_data w.sender w.tx.ring.region refilled_bytes)
        ∙ st.sends;
    receives =
        ap (λ (a : Arguments). a.is_master)
          (args-set_region_data w.receiver w.rx.ring.region refilled_bytes)
        ∙ st.receives;
    master_maps =
        region_data-set w.sender w.tx.ring.region st.master_maps refilled_bytes length-after;
    slave_maps =
        region_data-set w.receiver w.rx.ring.region st.slave_maps refilled_bytes length-after;
    buffer_size =
        ap (λ (c : MemoryConfig). c.packet_buffer_size)
          (run-set_region_data w.receiver w.rx.ring.region refilled_bytes)
        ∙ st.buffer_size;
    narrow = st.narrow;
    buffers = rw length-after st.buffers;
    named = Named-refilled w.tx size fresh (head_at w.tx st.bytes) st.bytes st.named;
    short =
        Short-refilled w.tx size st.narrow fresh (head_at w.tx st.bytes) st.bytes st.ring_at
          st.short;
    counter = omega arith;
    head =
        head_at-refilled w.tx size fresh (head_at w.tx st.bytes) st.bytes
          (omega (arith, st.ring_at.inside))
        ∙ omega (arith, st.head, st.bound);
    tail =
        tail_at-refilled w.tx size fresh (head_at w.tx st.bytes) st.bytes
        ∙ omega (arith, st.tail, taken);
    within = omega (arith, st.within, st.bound);
    bound = omega arith;
    whole = whole-after;
    holds =
        Holds-Kept w.tx size off st.bytes refilled_bytes index rest
          (λ n lt.
            Kept-refilled w.tx size fresh (head_at w.tx st.bytes) st.bytes _ st.ring_at st.buffers
              (slot-lt st.ring_at (index + n)) (kept_slot n (omega (arith, st.within))))
          holds;
  }

  pub read-Step :
      {k : ℕ} (holds : Holds w.tx size off st.bytes index rest)
      → Step k off w read_world st.bytes (read-Offered holds).bytes
  unfolding read-Offered
  read-Step holds = record {
    tx = refl;
    ring = refl;
    sender = refl;
    receiver = refl;
    elsewhere = record {
      whole = length-after;
      same = λ lo n clear.
          refilled_frame w.tx size fresh (head_at w.tx st.bytes) st.bytes lo n
            (Outside-cases w.tx lo n (head_address w.tx) 2 clear.ring (omega arith) (omega arith))
            (λ j lt.
              elim (Outside-cases w.tx lo n (slot_address w.tx (head_at w.tx st.bytes + j)) 16
                clear.ring (omega arith)
                (omega (arith, slot-lt st.ring_at (head_at w.tx st.bytes + j)))) [
                  | inl h ↦ inl (omega arith)
                  | inr h ↦ inr (omega arith)
                ]);
    };
  }
