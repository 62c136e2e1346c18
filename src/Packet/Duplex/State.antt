-- ===== src/Packet/Duplex/State.antt =====
-- The states of both ends of two rings, one in each direction, whose slots have the same buffers.
use memif.Prelude.{ℕ, ◌+◌, ◌*◌, ◌≤◌, ◌≡◌, refl, sym, ap, subst, ◌∙◌, arith, inl, inr, List}
use memif.Types.{Queue, Ring}
use memif.Packet.Stream.{World}
use memif.Packet.Stream.Holds.{Holds}
use memif.Packet.Stream.Slots.{Outside-shrink}
use memif.Packet.Stream.State.{Stream}
use memif.Packet.Stream.Step.{Step}
use memif.Packet.Credit.State.{Offered}
use memif.Packet.Duplex.{Ends, Queues, up, down}
use memif.Packet.Duplex.Sides.{upper, lower, down-upper, up-lower}
use memif.Packet.Duplex.Untouched.{
  Apart, Untouched, RingKept, Elsewhere-RingKept, Elsewhere-Untouched, Stream-RingKept,
  Offered-RingKept, Holds-Untouched,
}
use native.Mathlib.Decide.{ℕ_discrete}

-- Each ring is in a state of its direction; both lie in the same bytes, apart, with as many slots and
-- the same buffers.
pub record Duplex (size : ℕ) (off : ℕ → ℕ) (l : ℕ) (w : Ends) (s : Queues) : Type 0 where
  pub rising : Stream size off l (up w) s.ups
  pub falling : Offered size off l (down w) s.credit s.downs
  pub shared : falling.bytes ≡ rising.bytes
  pub slave_region : w.slave_rx.ring.region ≡ w.slave_tx.ring.region
  pub master_region : w.master_tx.ring.region ≡ w.master_rx.ring.region
  pub rings : w.slave_tx.ring.offset + 128 + 16 * w.slave_tx.ring.size ≤ w.master_tx.ring.offset
  pub as_many : w.master_tx.ring.size ≡ w.slave_tx.ring.size

module _ {size l : ℕ} {off : ℕ → ℕ} {w : Ends} {s : Queues} (st : Duplex size off l w s) where
  -- What a call that leaves the buffers reaches lies apart from the other ring and its buffers.
  upper-Apart : Apart w.slave_tx 0 off w.master_tx size off
  upper-Apart = record {
    rings = inr (omega (arith, st.rings));
    first = λ k lt.
        Outside-shrink w.master_tx (off k) (off k) 0 size refl (omega arith)
          (st.falling.buffers.outside k (omega (arith, st.as_many)));
    second = λ k lt. st.rising.buffers.outside k (omega (arith, st.as_many));
    buffers = λ k t lk lt. elim (ℕ_discrete k t) [
      | yes e ↦ inl (subst (λ j. off k + 0 ≤ off j) e (omega arith))
      | no ne ↦ elim (st.rising.buffers.apart k t lk (omega (arith, st.as_many)) ne) [
        | inl h ↦ inl (omega arith)
        | inr h ↦ inr h
      ]
    ];
  }

  lower-Apart : Apart w.master_tx 0 off w.slave_tx size off
  lower-Apart = record {
    rings = inl (omega (arith, st.rings));
    first = λ k lt.
        Outside-shrink w.slave_tx (off k) (off k) 0 size refl (omega arith)
          (st.rising.buffers.outside k (omega (arith, st.as_many)));
    second = λ k lt. st.falling.buffers.outside k (omega (arith, st.as_many));
    buffers = λ k t lk lt. elim (ℕ_discrete k t) [
      | yes e ↦ inl (subst (λ j. off k + 0 ≤ off j) e (omega arith))
      | no ne ↦ elim (st.falling.buffers.apart k t lk (omega (arith, st.as_many)) ne) [
        | inl h ↦ inl (omega arith)
        | inr h ↦ inr h
      ]
    ];
  }

  -- After a call on the ring that the slave sends on, if the packets on the way to the slave are still
  -- there.
  module _ (v : World) (ps : List (List ℕ)) (after : Stream size off l v ps) {k : ℕ}
      (few : k ≤ size) (step : Step k off (up w) v st.rising.bytes after.bytes) where
    second_ring : RingKept w.master_tx st.falling.bytes after.bytes
    second_ring =
        subst (λ d. RingKept w.master_tx d after.bytes) (sym st.shared)
          (Elsewhere-RingKept st.rising.bytes after.bytes (inr (omega (arith, st.rings)))
            (λ j lt.
              Outside-shrink w.master_tx (off j) (off j) k size refl few
                (st.falling.buffers.outside j (omega (arith, st.as_many))))
            step.elsewhere)

    module _ (holds : Holds w.master_tx size off after.bytes w.slave_rx.last_tail s.downs) where
      lower_kept :
          (o : Offered size off l (down (upper w v)) s.credit s.downs) × (o.bytes ≡ after.bytes)
      unfolding Offered-RingKept
      lower_kept =
          subst
            (λ (x : World). (o : Offered size off l x s.credit s.downs) × (o.bytes ≡ after.bytes))
            (down-upper st.slave_region st.master_region step)
            (Offered-RingKept after.bytes st.falling second_ring holds, refl)

      pub upper-Duplex : Duplex size off l (upper w v) (record s { ups = ps })
      upper-Duplex = record {
        rising = after;
        falling = lower_kept.0;
        shared = lower_kept.1;
        slave_region = st.slave_region ∙ ap (λ (q : Queue). q.ring.region) (sym step.tx);
        master_region = st.master_region ∙ ap (λ (r : Ring). r.region) (sym step.ring);
        rings =
            subst (λ (q : Queue). q.ring.offset + 128 + 16 * q.ring.size ≤ w.master_tx.ring.offset)
              (sym step.tx) st.rings;
        as_many = st.as_many ∙ ap (λ (q : Queue). q.ring.size) (sym step.tx);
      }

  -- A call that leaves the buffers leaves them there.
  pub downs_kept :
      (v : World) (ps : List (List ℕ)) (after : Stream size off l v ps)
      → Step 0 off (up w) v st.rising.bytes after.bytes
      → Holds w.master_tx size off after.bytes w.slave_rx.last_tail s.downs
  downs_kept v ps after step =
      Holds-Untouched w.slave_rx.last_tail s.downs st.falling.ring_at
        (subst (λ d. Untouched w.master_tx size off d after.bytes) (sym st.shared)
          (Elsewhere-Untouched st.rising.bytes after.bytes upper-Apart step.elsewhere))
        st.falling.holds

  -- The same for the ring that the master sends on.
  module _ (v : World) (credit : ℕ) (ps : List (List ℕ)) (after : Offered size off l v credit ps)
      {k : ℕ} (few : k ≤ size) (step : Step k off (down w) v st.falling.bytes after.bytes) where
    first_ring : RingKept w.slave_tx st.rising.bytes after.bytes
    first_ring =
        subst (λ d. RingKept w.slave_tx d after.bytes) st.shared
          (Elsewhere-RingKept st.falling.bytes after.bytes (inl (omega (arith, st.rings)))
            (λ j lt.
              Outside-shrink w.slave_tx (off j) (off j) k size refl few
                (st.rising.buffers.outside j (omega (arith, st.as_many))))
            step.elsewhere)

    module _ (holds : Holds w.slave_tx size off after.bytes w.master_rx.last_head s.ups) where
      upper_kept : (o : Stream size off l (up (lower w v)) s.ups) × (after.bytes ≡ o.bytes)
      unfolding Stream-RingKept
      upper_kept =
          subst (λ (x : World). (o : Stream size off l x s.ups) × (after.bytes ≡ o.bytes))
            (up-lower st.slave_region st.master_region step)
            (Stream-RingKept after.bytes st.rising first_ring s.ups refl holds, refl)

      pub lower-Duplex : Duplex size off l (lower w v) (record s { credit = credit; downs = ps })
      lower-Duplex = record {
        rising = upper_kept.0;
        falling = after;
        shared = upper_kept.1;
        slave_region = ap (λ (r : Ring). r.region) step.ring ∙ st.slave_region;
        master_region = ap (λ (q : Queue). q.ring.region) step.tx ∙ st.master_region;
        rings =
            subst
              (λ (q : Queue).
                w.slave_tx.ring.offset + 128 + 16 * w.slave_tx.ring.size ≤ q.ring.offset)
              (sym step.tx) st.rings;
        as_many = ap (λ (q : Queue). q.ring.size) step.tx ∙ st.as_many;
      }

  pub ups_kept :
      (v : World) (credit : ℕ) (ps : List (List ℕ)) (after : Offered size off l v credit ps)
      → Step 0 off (down w) v st.falling.bytes after.bytes
      → Holds w.slave_tx size off after.bytes w.master_rx.last_head s.ups
  ups_kept v credit ps after step =
      Holds-Untouched w.master_rx.last_head s.ups st.rising.ring_at
        (subst (λ d. Untouched w.slave_tx size off d after.bytes) st.shared
          (Elsewhere-Untouched st.falling.bytes after.bytes lower-Apart step.elsewhere))
        st.rising.holds
