-- ===== src/Packet/Stream.antt =====
-- A slave that sends packets to its master through one ring, call after call: WritePacket of
-- memif-new/memif/packet_writer.go on one side and ReadPacket of packet_reader.go on the other, in
-- any order, and the bounded queue of packets that they are to be.
pub mod Holds
pub mod Slots
pub mod Step
pub mod Front
pub mod State
pub mod Writing
pub mod Reading
pub mod Refine
use memif.Prelude.{
  ℕ, Bool, true, Option, some, none, List, [], ◌∷◌, ◌++◌, length, ltb, if◌then◌else◌, take,
  replicate,
}
use memif.Types.{Interface, Queue}
use memif.Queue.{◌>>=◌, region_data, set_region_data}
use memif.Packet.Writer.{write_packet}
use memif.Packet.Reader.{read_packet}

-- Both ends of a ring: the queue and the interface of the side that sends, and those of the side that
-- receives. Here the slave sends; Packet.Credit has the master send.
pub record World : Type 0 where
  pub tx : Queue
  pub sender : Interface
  pub rx : Queue
  pub receiver : Interface

-- A call of WritePacket by the sender, or of ReadPacket by the receiver with a new buffer of this
-- length.
pub data Action : Type 0 where
  write : List ℕ → Action
  read : ℕ → Action

-- What the caller sees: the count; whether there is no error, and the bytes read.
pub data Answer : Type 0 where
  count : ℕ → Answer
  packet : Bool → List ℕ → Answer

-- The bytes of region `k` of `i` are those of region `l` of `j` as well.
unfoldable pub share : Interface → ℕ → ℕ → Interface → Interface
share i k l j = elim (region_data i k) [ none ↦ j | some d ↦ set_region_data l d j ]

unfoldable pub act : Action → World → Option (Answer × World)
act (write pkt) w = do
  res ← write_packet w.tx pkt w.sender []
  some (
    count res.count,
    record w {
      sender = res.iface;
      receiver = share res.iface w.tx.ring.region w.rx.ring.region w.receiver;
    },
  )
act (read n) w = do
  res ← read_packet w.rx (replicate n 0) w.receiver
  some (
    packet res.complete (take res.count res.pkt),
    record w {
      rx = res.queue;
      receiver = res.iface;
      sender = share res.iface w.rx.ring.region w.tx.ring.region w.sender;
    },
  )

unfoldable pub run : List Action → World → Option (List Answer × World)
run [] w = some ([], w)
run (a ∷ acts) w = do (x, w₁) ← act a w; (xs, w₂) ← run acts w₁; some (x ∷ xs, w₂)

-- The queue: a packet more than `size` is refused with the count 0, and an empty queue gives no
-- bytes.
unfoldable pub queue_act : ℕ → Action → List (List ℕ) → Answer × List (List ℕ)
queue_act size (write pkt) ps =
    if ltb (length ps) size then (count (length pkt), ps ++ (pkt ∷ [])) else (count 0, ps)
queue_act size (read n) [] = (packet true [], [])
queue_act size (read n) (p ∷ ps) = (packet true p, ps)

unfoldable pub queue_run : ℕ → List Action → List (List ℕ) → List Answer × List (List ℕ)
queue_run size [] ps = ([], ps)
queue_run size (a ∷ acts) ps =
    let (x, ps₁) = queue_act size a ps in let (xs, ps₂) = queue_run size acts ps₁ in (x ∷ xs, ps₂)
