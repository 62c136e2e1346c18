-- ===== src/Apps/Relay.antt =====
-- The goroutines of the examples that pass packets on: Connected of
-- memif-new/_examples/responder/responder.go and of memif-new/_examples/bridge/bridge.go.
use memif.Prelude.{ℕ, zero, suc, Option, some, List, ltb, if◌then◌else◌, replicate}
use memif.Bytes.{slice}
use memif.Types.{Interface, Queue}
use memif.Types.Os.{Call}
use memif.Queue.{◌>>=◌}
use memif.Packet.Writer.{write_packet}
use memif.Packet.Reader.{read_packet}
use memif.Socket as Socket
use memif.Socket.{M}
use memif.Link.{get_rx_queue, get_tx_queue}

-- `make([]byte, 2048)`
abbrev pub packet_buffer : List ℕ
packet_buffer = replicate 2048 0

-- A round of a loop goes on with a new state, or sends the error of ReadPacket and ends the loop.
pub data Turn {ℓ} (A : Type ℓ) : Type ℓ where
  going : A → Turn A
  broken : Turn A

-- The responder's goroutine: its buffer, its two queues, and their interface.
pub record Responder : Type 0 where
  pub pkt : List ℕ
  pub rx : Queue
  pub tx : Queue
  pub iface : Interface
  pub calls : List Call

unfoldable pub responder_queues : ℕ → M (Queue × Queue)
responder_queues i =
    Socket.◌>>=◌ (get_rx_queue i 0)
      λ rx. Socket.◌>>=◌ (get_tx_queue i 0) λ tx. Socket.return (rx, tx)

-- The default branch of the select: a packet that is read is written back.
unfoldable pub respond_once : Responder → Option (Turn Responder)
respond_once r = do
  res ← read_packet r.rx r.pkt r.iface
  let next : Responder = record r { pkt = res.pkt; rx = res.queue; iface = res.iface }
  if ltb 0 res.count
      then (do
        out ← slice res.pkt 0 res.count
        w ← write_packet r.tx out res.iface r.calls
        some (going (record next { iface = w.iface; calls = w.calls })))
      else if res.complete
      then some (going next)
      else some broken

-- The loop, with the number of rounds until the quit channel is closed.
unfoldable pub respond : ℕ → Responder → Option (Turn Responder)
respond zero r = some (going r)
respond (suc n) r = do
  t ← respond_once r
  elim t [ going next ↦ respond n next | broken ↦ some broken ]

-- The bridge's goroutine: it reads from `from` and writes to the bridged interface `to`.
pub record Bridge : Type 0 where
  pub pkt : List ℕ
  pub rx : Queue
  pub from : Interface
  pub tx : Queue
  pub to : Interface
  pub calls : List Call

-- Once both interfaces are connected.
unfoldable pub bridge_queues : ℕ → ℕ → M (Queue × Queue)
bridge_queues i bri =
    Socket.◌>>=◌ (get_rx_queue i 0)
      λ rx. Socket.◌>>=◌ (get_tx_queue bri 0) λ tx. Socket.return (rx, tx)

unfoldable pub bridge_once : Bridge → Option (Turn Bridge)
bridge_once b = do
  res ← read_packet b.rx b.pkt b.from
  let next : Bridge = record b { pkt = res.pkt; rx = res.queue; from = res.iface }
  if ltb 0 res.count
      then (do
        out ← slice res.pkt 0 res.count
        w ← write_packet b.tx out b.to b.calls
        some (going (record next { to = w.iface; calls = w.calls })))
      else if res.complete
      then some (going next)
      else some broken

unfoldable pub bridge : ℕ → Bridge → Option (Turn Bridge)
bridge zero b = some (going b)
bridge (suc n) b = do
  t ← bridge_once b
  elim t [ going next ↦ bridge n next | broken ↦ some broken ]
