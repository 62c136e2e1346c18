-- ===== src/Packet/Credit/Refine.antt =====
-- The ring that a slave offers its slots on, as a queue of packets with a credit.
use memif.Prelude.{◌≤◌, ℕ, ◌≡◌, refl, arith, List, [], ◌∷◌, length, some, subst, lt→ltb, le→ltb}
use memif.Types.{Queue}
use memif.Packet.Stream.{World, Action, write, read, act, run}
use memif.Packet.Stream.Refine.{Fits, AllFit}
use memif.Packet.Stream.Step.{Step, same-Step}
use memif.Packet.Credit.{credit_act, credit_run}
use memif.Packet.Credit.State.{Offered}
use memif.Packet.Credit.Writing.{written, act-write, written-Offered, written-Step, act-write_full}
use memif.Packet.Credit.Calls.{
  empty_world, act-read_empty, empty-Offered, empty-Step, taken_world, act-read, rest-Offered,
  rest-Step,
}
use native.Mathlib.Decide.{dec_lt}

-- What one call does to a ring that holds `ps`.
abbrev pub Credited :
    (size : ℕ) (off : ℕ → ℕ) (l : ℕ) (a : Action) (w : World) (credit : ℕ) (ps : List (List ℕ))
    → Offered size off l w credit ps
    → Type 0
Credited size off l a w credit ps st =
    let (x, credit', ps') = credit_act w.tx.ring.size a credit ps in
    (w' : World) × (act a w ≡ some (x, w'))
    × (st' : Offered size off l w' credit' ps') × Step size off w w' st.bytes st'.bytes

pub act-Credited :
    {size l : ℕ} {off : ℕ → ℕ} {w : World} {credit : ℕ} (ps : List (List ℕ)) (a : Action)
    → Fits size a
    → (st : Offered size off l w credit ps) → Credited size off l a w credit ps st
unfolding credit_act
act-Credited {size} {off = off} {w} {credit} ps (write pkt) fits st =
    elim (dec_lt (length ps) credit) [
      | yes lt ↦ rw (lt→ltb (length ps) credit lt) (
        written st pkt fits lt,
        act-write st pkt fits lt,
        written-Offered st pkt fits lt,
        written-Step st pkt fits lt,
      )
      | no ge ↦ rw (le→ltb (length ps) credit (omega arith)) (
        w,
        act-write_full st pkt (omega (arith, st.within)),
        st,
        same-Step size off w st.bytes st.master_maps st.slave_maps,
      )
    ]
act-Credited [] (read n) fits st =
    (empty_world st, act-read_empty st n, empty-Offered st, empty-Step st)
act-Credited (p ∷ ps) (read n) fits st =
    (taken_world st, act-read st n fits, rest-Offered st, rest-Step st)

-- A read leaves the buffers, whatever their size.
pub read-Credited :
    {size l : ℕ} {off : ℕ → ℕ} {w : World} {credit : ℕ} (ps : List (List ℕ)) (n : ℕ)
    → size ≤ n
    → (st : Offered size off l w credit ps)
    → let (x, credit', ps') = credit_act w.tx.ring.size (read n) credit ps in
      (w' : World) × (act (read n) w ≡ some (x, w'))
      × (st' : Offered size off l w' credit' ps') × Step 0 off w w' st.bytes st'.bytes
unfolding credit_act
read-Credited [] n fits st = (empty_world st, act-read_empty st n, empty-Offered st, empty-Step st)
read-Credited (p ∷ ps) n fits st =
    (taken_world st, act-read st n fits, rest-Offered st, rest-Step st)

-- The master's WritePacket and the slave's ReadPacket, called any number of times in any order, are
-- the operations of a first-in-first-out queue with a credit. From a state in which both sides have
-- mapped the ring, its slots have disjoint buffers of the configured size, below 2^16, the slave has
-- offered `credit` slots from its index on, and these hold the packets `ps`, with no written packet
-- longer than a buffer and no buffer read into shorter: all calls return; each answers as the queue
-- does, a write with the packet's length, or with 0 when as many packets are waiting as the credit
-- says, and a read with the oldest packet, whole, or with no bytes when none waits; each read, also
-- an empty one, renews the credit to the ring's size; and the ring then holds what the queue holds.
pub credit_run_refines :
    {size l : ℕ} {off : ℕ → ℕ} (acts : List Action) (w : World) (credit : ℕ) (ps : List (List ℕ))
    → AllFit size acts
    → Offered size off l w credit ps
    → let (xs, credit', ps') = credit_run w.tx.ring.size acts credit ps in
      (w' : World) × (run acts w ≡ some (xs, w')) × Offered size off l w' credit' ps'
unfolding run credit_run
credit_run_refines [] w credit ps fit st = (w, refl, st)
credit_run_refines {size} {l} {off} (a ∷ acts) w credit ps (fits, fit) st =
    let (w₁, here, st₁, step) = act-Credited ps a fits st in
    let (x, credit₁, ps₁) = credit_act w.tx.ring.size a credit ps in
    let (w₂, there, st₂) = credit_run_refines acts w₁ credit₁ ps₁ fit st₁ in
    let there' =
      subst (λ (q : Queue). run acts w₁ ≡ some ((credit_run q.ring.size acts credit₁ ps₁).0, w₂))
        step.tx there in
    let st₂' =
      subst
        (λ (q : Queue).
          let (xs, credit₂, ps₂) = credit_run q.ring.size acts credit₁ ps₁ in
          Offered size off l w₂ credit₂ ps₂)
        step.tx st₂ in
    (w₂, rw (here, there') refl, st₂')
