-- ===== src/Packet/Stream/Refine.antt =====
-- The ring as a bounded queue of packets.
use memif.Prelude.{ℕ, ◌≤◌, ◌≡◌, refl, arith, List, [], ◌∷◌, length, some, subst, lt→ltb, le→ltb}
use memif.Types.{Queue}
use memif.Packet.Stream.{World, Action, write, read, act, run, queue_act, queue_run}
use memif.Packet.Stream.State.{Stream}
use memif.Packet.Stream.Writing.{written, act-write, written-Stream, written-Step, act-write_full}
use memif.Packet.Stream.Reading.{
  read_world, act-read, rest-Stream, rest-Step, act-read_empty, empty-Stream, empty-Step,
}
use memif.Packet.Stream.Step.{Step, same-Step}
use native.Mathlib.Decide.{dec_lt}

-- A packet that fits a buffer; a buffer to read into that any packet fits.
abbrev pub Fits : ℕ → Action → Type 0
Fits size (write pkt) = length pkt ≤ size
Fits size (read n) = size ≤ n

abbrev pub AllFit : ℕ → List Action → Type 0
AllFit size [] = Unit
AllFit size (a ∷ acts) = Fits size a × AllFit size acts

-- What one call does to a ring that holds `ps`.
abbrev pub Refines :
    (size : ℕ) (off : ℕ → ℕ) (l : ℕ) (a : Action) (w : World) (ps : List (List ℕ))
    → Stream size off l w ps
    → Type 0
Refines size off l a w ps st =
    let (x, ps') = queue_act w.tx.ring.size a ps in
    (w' : World) × (act a w ≡ some (x, w'))
    × (st' : Stream size off l w' ps') × Step size off w w' st.bytes st'.bytes

pub act-Refines :
    {size l : ℕ} {off : ℕ → ℕ} {w : World} (ps : List (List ℕ)) (a : Action)
    → Fits size a
    → (st : Stream size off l w ps) → Refines size off l a w ps st
unfolding queue_act
act-Refines {size} {l} {off} {w} ps (write pkt) fits st = elim (dec_lt (length ps) w.tx.ring.size) [
  | yes lt ↦ rw (lt→ltb (length ps) w.tx.ring.size lt) (
    written st pkt fits lt,
    act-write st pkt fits lt,
    written-Stream st pkt fits lt,
    written-Step st pkt fits lt,
  )
  | no ge ↦ rw (le→ltb (length ps) w.tx.ring.size (omega arith)) (
    w,
    act-write_full st pkt fits (omega (arith, st.bound)),
    st,
    same-Step size off w st.bytes st.slave_maps st.master_maps,
  )
]
act-Refines [] (read n) fits st =
    (read_world st _, act-read_empty st n refl, empty-Stream st refl, empty-Step st refl)
act-Refines (p ∷ ps) (read n) fits st =
    (read_world st _, act-read st n fits, rest-Stream st, rest-Step st)

-- A read leaves the buffers, whatever their size.
pub read-Refines :
    {size l : ℕ} {off : ℕ → ℕ} {w : World} (ps : List (List ℕ)) (n : ℕ)
    → size ≤ n
    → (st : Stream size off l w ps)
    → let (x, ps') = queue_act w.tx.ring.size (read n) ps in
      (w' : World) × (act (read n) w ≡ some (x, w'))
      × (st' : Stream size off l w' ps') × Step 0 off w w' st.bytes st'.bytes
unfolding queue_act
read-Refines [] n fits st =
    (read_world st _, act-read_empty st n refl, empty-Stream st refl, empty-Step st refl)
read-Refines (p ∷ ps) n fits st =
    (read_world st _, act-read st n fits, rest-Stream st, rest-Step st)

-- The slave's WritePacket and the master's ReadPacket, called any number of times in any order, are
-- the operations of a bounded first-in-first-out queue. From a state in which both sides have
-- mapped the ring, its slots have disjoint buffers of the configured size, and it holds the packets
-- `ps`, with no written packet longer than a buffer and no buffer read into shorter: all calls
-- return; each answers as the queue does, a write with the packet's length, or with 0 when `size`
-- packets are waiting, and a read with the oldest packet, whole, or with no bytes when none waits;
-- and the ring then holds what the queue holds.
pub run_refines :
    {size l : ℕ} {off : ℕ → ℕ} (acts : List Action) (w : World) (ps : List (List ℕ))
    → AllFit size acts
    → Stream size off l w ps
    → (w' : World) × (run acts w ≡ some ((queue_run w.tx.ring.size acts ps).0, w'))
      × Stream size off l w' (queue_run w.tx.ring.size acts ps).1
unfolding run queue_run
run_refines [] w ps fit st = (w, refl, st)
run_refines {size} {l} {off} (a ∷ acts) w ps (fits, fit) st =
    let (w₁, here, st₁, step) = act-Refines ps a fits st in
    let (w₂, there, st₂) = run_refines acts w₁ (queue_act w.tx.ring.size a ps).1 fit st₁ in
    let there' =
      subst
        (λ (q : Queue).
          run acts w₁ ≡ some ((queue_run q.ring.size acts (queue_act w.tx.ring.size a ps).1).0, w₂))
        step.tx there in
    let st₂' =
      subst
        (λ (q : Queue).
          Stream size off l w₂ (queue_run q.ring.size acts (queue_act w.tx.ring.size a ps).1).1)
        step.tx st₂ in
    (w₂, rw (here, there') refl, st₂')
