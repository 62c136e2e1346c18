-- ===== src/Packet/Duplex/Refine.antt =====
-- Both directions as two queues of packets, while packets are on the way in one direction at a time.
use memif.Prelude.{ℕ, ◌≡◌, ◌≤◌, refl, sym, subst, ◌^◌, arith, List, [], ◌∷◌, length, some}
use memif.Packet.Stream.{World, write, read, act, queue_act}
use memif.Packet.Stream.Holds.{Holds}
use memif.Packet.Stream.State.{Stream}
use memif.Packet.Stream.Step.{Step}
use memif.Packet.Stream.Refine.{Fits, act-Refines, read-Refines}
use memif.Packet.Credit.{credit_act}
use memif.Packet.Credit.State.{Offered}
use memif.Packet.Credit.Refine.{act-Credited, read-Credited}
use memif.Packet.Duplex.{
  Ends, EndCall, upward, downward, Queues, up, down, call, calls, queues_call, queues_calls,
}
use memif.Packet.Duplex.Sides.{upper, lower}
use memif.Packet.Duplex.State.{Duplex, upper-Duplex, lower-Duplex, downs_kept, ups_kept}

abbrev pub BothFit : ℕ → List EndCall → Type 0
BothFit size [] = Unit
BothFit size (upward a ∷ cs) = Fits size a × BothFit size cs
BothFit size (downward a ∷ cs) = Fits size a × BothFit size cs

-- A side writes only while no packet is on its way to it.
abbrev pub MayCall : EndCall → Queues → Type 0
MayCall (upward (write p)) s = s.downs ≡ []
MayCall (upward (read n)) s = Unit
MayCall (downward (write p)) s = s.ups ≡ []
MayCall (downward (read n)) s = Unit

abbrev pub InTurn : ℕ → ℕ → List EndCall → Queues → Type 0
InTurn m n [] s = Unit
InTurn m n (c ∷ cs) s = MayCall c s × InTurn m n cs (queues_call m n c s).1

-- What a call does to both rings.
abbrev pub CallRefines : ℕ → (ℕ → ℕ) → ℕ → EndCall → Ends → Queues → Type 0
CallRefines size off l c w s =
    let (x, s') = queues_call (2 ^ l) (2 ^ l) c s in
    (w' : Ends) × (call c w ≡ some (x, w')) × Duplex size off l w' s'

module _ {size l : ℕ} {off : ℕ → ℕ} {w : Ends} {s : Queues} (st : Duplex size off l w s) where
  slave_writes :
      (p : List ℕ) → length p ≤ size → s.downs ≡ [] → CallRefines size off l (upward (write p)) w s
  unfolding call queues_call
  slave_writes p fits none_down =
      let (v, done, after, step) =
        subst
          (λ k.
            let (x, ps) = queue_act k (write p) s.ups in
            (v : World) × (act (write p) (up w) ≡ some (x, v))
            × (o : Stream size off l v ps) × Step size off (up w) v st.rising.bytes o.bytes)
          st.rising.ring_at.slots (act-Refines s.ups (write p) fits st.rising) in
      (
        upper w v,
        rw done refl,
        upper-Duplex st v _ after (omega arith) step (
            subst (Holds w.master_tx size off after.bytes w.slave_rx.last_tail) (sym none_down) tt),
      )

  master_reads : (n : ℕ) → size ≤ n → CallRefines size off l (upward (read n)) w s
  unfolding call queues_call
  master_reads n fits =
      let (v, done, after, step) =
        subst
          (λ k.
            let (x, ps) = queue_act k (read n) s.ups in
            (v : World) × (act (read n) (up w) ≡ some (x, v))
            × (o : Stream size off l v ps) × Step 0 off (up w) v st.rising.bytes o.bytes)
          st.rising.ring_at.slots (read-Refines s.ups n fits st.rising) in
      (
        upper w v,
        rw done refl,
        upper-Duplex st v _ after (omega arith) step (downs_kept st v _ after step),
      )

  master_writes :
      (p : List ℕ) → length p ≤ size → s.ups ≡ [] → CallRefines size off l (downward (write p)) w s
  unfolding call queues_call
  master_writes p fits none_up =
      let (v, done, after, step) =
        subst
          (λ k.
            let (x, credit, ps) = credit_act k (write p) s.credit s.downs in
            (v : World) × (act (write p) (down w) ≡ some (x, v))
            × (o : Offered size off l v credit ps) × Step size off (down w) v st.falling.bytes
                o.bytes)
          st.falling.ring_at.slots (act-Credited s.downs (write p) fits st.falling) in
      (
        lower w v,
        rw done refl,
        lower-Duplex st v _ _ after (omega arith) step
            (subst (Holds w.slave_tx size off after.bytes w.master_rx.last_head) (sym none_up) tt),
      )

  slave_reads : (n : ℕ) → size ≤ n → CallRefines size off l (downward (read n)) w s
  unfolding call queues_call
  slave_reads n fits =
      let (v, done, after, step) =
        subst
          (λ k.
            let (x, credit, ps) = credit_act k (read n) s.credit s.downs in
            (v : World) × (act (read n) (down w) ≡ some (x, v))
            × (o : Offered size off l v credit ps) × Step 0 off (down w) v st.falling.bytes o.bytes)
          st.falling.ring_at.slots (read-Credited s.downs n fits st.falling) in
      (
        lower w v,
        rw done refl,
        lower-Duplex st v _ _ after (omega arith) step (ups_kept st v _ _ after step),
      )

call-Refines :
    {size l : ℕ} {off : ℕ → ℕ} {w : Ends} {s : Queues} (c : EndCall) (cs : List EndCall)
    → Duplex size off l w s
    → BothFit size (c ∷ cs)
    → MayCall c s
    → CallRefines size off l c w s × BothFit size cs
call-Refines (upward (write p)) cs st (fits, fit) may = (slave_writes st p fits may, fit)
call-Refines (upward (read n)) cs st (fits, fit) may = (master_reads st n fits, fit)
call-Refines (downward (write p)) cs st (fits, fit) may = (master_writes st p fits may, fit)
call-Refines (downward (read n)) cs st (fits, fit) may = (slave_reads st n fits, fit)

-- Two rings with the same buffers, one for each direction: the calls, each made in its turn, answer as
-- two queues.
pub calls_refine :
    {size l : ℕ} {off : ℕ → ℕ} (cs : List EndCall) (w : Ends) (s : Queues)
    → BothFit size cs
    → InTurn (2 ^ l) (2 ^ l) cs s
    → Duplex size off l w s
    → let (xs, s') = queues_calls (2 ^ l) (2 ^ l) cs s in
      (w' : Ends) × (calls cs w ≡ some (xs, w')) × Duplex size off l w' s'
unfolding calls queues_calls
calls_refine [] w s fit turn st = (w, refl, st)
calls_refine (c ∷ cs) w s fit (may, turn) st =
    let ((w₁, here, st₁), fit') = call-Refines c cs st fit may in
    let (w₂, there, st₂) = calls_refine cs w₁ _ fit' turn st₁ in (w₂, rw (here, there) refl, st₂)
