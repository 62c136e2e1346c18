-- ===== src/Packet/Duplex.antt =====
-- Both directions: a slave and a master with one queue each to send on and one to receive
-- on, whose rings lie in one region (memif-new/memif/packet_writer.go, packet_reader.go).
pub mod Untouched
pub mod Sides
pub mod State
pub mod Refine
pub mod Overlap
use memif.Prelude.{ℕ, Option, some, List, [], ◌∷◌}
use memif.Types.{Interface, Queue}
use memif.Queue.{◌>>=◌}
use memif.Packet.Stream.{World, Action, Answer, act, queue_act}
use memif.Packet.Credit.{credit_act}

-- Each side's interface, its queue to send on and its queue to receive on.
pub record Ends : Type 0 where
  pub slave : Interface
  pub slave_tx : Queue
  pub slave_rx : Queue
  pub master : Interface
  pub master_tx : Queue
  pub master_rx : Queue

-- A call on one end of the ring that the slave sends on, or of the one that the master sends on.
pub data EndCall : Type 0 where
  upward : Action → EndCall
  downward : Action → EndCall

abbrev pub up : Ends → World
up w = record { tx = w.slave_tx; sender = w.slave; rx = w.master_rx; receiver = w.master }

abbrev pub down : Ends → World
down w = record { tx = w.master_tx; sender = w.master; rx = w.slave_rx; receiver = w.slave }

unfoldable pub call : EndCall → Ends → Option (Answer × Ends)
call (upward a) w = do
  (x, v) ← act a (up w)
  some (x, record w { slave = v.sender; slave_tx = v.tx; master = v.receiver; master_rx = v.rx })
call (downward a) w = do
  (x, v) ← act a (down w)
  some (x, record w { master = v.sender; master_tx = v.tx; slave = v.receiver; slave_rx = v.rx })

unfoldable pub calls : List EndCall → Ends → Option (List Answer × Ends)
calls [] w = some ([], w)
calls (c ∷ cs) w = do (x, w₁) ← call c w; (xs, w₂) ← calls cs w₁; some (x ∷ xs, w₂)

-- The packets on the way to the master, and the credit of the master and the packets on the way to
-- the slave: two queues that know nothing of each other.
pub record Queues : Type 0 where
  pub ups : List (List ℕ)
  pub credit : ℕ
  pub downs : List (List ℕ)

unfoldable pub queues_call : ℕ → ℕ → EndCall → Queues → Answer × Queues
queues_call m n (upward a) s = let (x, ps) = queue_act m a s.ups in (x, record s { ups = ps })
queues_call m n (downward a) s =
    let (x, credit, ps) = credit_act n a s.credit s.downs in
    (x, record s { credit = credit; downs = ps })

unfoldable pub queues_calls : ℕ → ℕ → List EndCall → Queues → List Answer × Queues
queues_calls m n [] s = ([], s)
queues_calls m n (c ∷ cs) s =
    let (x, s₁) = queues_call m n c s in let (xs, s₂) = queues_calls m n cs s₁ in (x ∷ xs, s₂)
