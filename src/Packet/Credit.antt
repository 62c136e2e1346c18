-- ===== src/Packet/Credit.antt =====
-- A master that sends packets to its slave through one ring: WritePacket of
-- memif-new/memif/packet_writer.go fills slots that ReadPacket of packet_reader.go has offered, and
-- the bounded queue of packets that they are to be.
pub mod State
pub mod Writing
pub mod Reading
pub mod Calls
pub mod Refine
use memif.Prelude.{ℕ, true, List, [], ◌∷◌, ◌++◌, length, ltb, if◌then◌else◌}
use memif.Packet.Stream.{Action, write, read, Answer, count, packet}

-- The queue takes packets up to a credit. A read, also of an empty queue, renews the credit to
-- `size`.
unfoldable pub credit_act : ℕ → Action → ℕ → List (List ℕ) → Answer × ℕ × List (List ℕ)
credit_act size (write pkt) credit ps =
    if ltb (length ps) credit
    then (count (length pkt), credit, ps ++ (pkt ∷ []))
    else (count 0, credit, ps)
credit_act size (read n) credit [] = (packet true [], size, [])
credit_act size (read n) credit (p ∷ ps) = (packet true p, size, ps)

unfoldable pub credit_run : ℕ → List Action → ℕ → List (List ℕ) → List Answer × ℕ × List (List ℕ)
credit_run size [] credit ps = ([], credit, ps)
credit_run size (a ∷ acts) credit ps =
    let (x, credit₁, ps₁) = credit_act size a credit ps in
    let (xs, credit₂, ps₂) = credit_run size acts credit₁ ps₁ in (x ∷ xs, credit₂, ps₂)
