-- ===== src/Link.antt =====
-- Bringing an interface up and down: connect and disconnect of memif-new/memif/interface.go, and
-- the accessors that a client uses.
pub mod Frame
pub mod Release
use memif.Prelude.{
  ℕ, zero, suc, Bool, true, false, List, [], ◌∷◌, ◌++◌, Option, none, some, get_elem?, set, ◌+◌,
  ltb, length, ◌==◌, if◌then◌else◌,
}
use memif.Types.{Interface, MemoryConfig, MemoryRegion, Queue, RingType, s2m, m2s}
use memif.Types.Os.{Os, Call, Error, message, failed}
use memif.Ring.{cookie, get_cookie}
use memif.Queue.{update_ring, region_bytes}
use memif.Setup.{mmap}
use memif.Socket.{
  Socket, ControlChannel, Outcome, done, M, ◌>>=◌, ◌>>◌, return, throw, wrap, ignore, deref, sys,
  sys_, get_interface, put_interface, get_channel,
}

-- The loop of `connect` over the regions, `n` of them from `rid` on: map those that a peer sent.
unfoldable pub map_regions : Os → ℕ → ℕ → ℕ → M (Unit {0})
map_regions os i zero rid = return tt
map_regions os i (suc n) rid = do
  x ← get_interface i
  r ← deref (get_elem? x.regions rid)
  elim r.bytes [
    | some _ ↦ return tt
    | none ↦ do
      xs ← wrap "Mmap: %s" (mmap os r.fd r.size)
      put_interface i (record x { regions = set x.regions rid (record r { bytes = some xs }) })
  ]
  map_regions os i n (rid + 1)

abbrev pub queues_of : RingType → Interface → List Queue
queues_of s2m x = x.tx_queues
queues_of m2s x = x.rx_queues

abbrev pub set_queues : RingType → List Queue → Interface → Interface
set_queues s2m qs x = record x { tx_queues = qs }
set_queues m2s qs x = record x { rx_queues = qs }

-- The loop of `connect` over the tx queues (`s2m`) or the rx queues, `n` of them from `qid` on:
-- read each ring's header, and check its cookie. The ring is behind a pointer, so the queue keeps
-- the header; the two indices are reset in the loop's copy of the queue only, and stay.
unfoldable pub check_rings : ℕ → RingType → ℕ → ℕ → M (Unit {0})
check_rings i t zero qid = return tt
check_rings i t (suc n) qid = do
  x ← get_interface i
  q ← deref (get_elem? (queues_of t x) qid)
  ring ← deref (update_ring q x)
  put_interface i (set_queues t (set (queues_of t x) qid (record q { ring = ring })) x)
  if get_cookie ring == cookie then return tt else throw (message "Wrong cookie")
  check_rings i t n (qid + 1)

unfoldable pub connect : Os → ℕ → M (Unit {0})
connect os i = do
  x ← get_interface i
  map_regions os i (length x.regions) 0
  check_rings i s2m (length x.tx_queues) 0
  check_rings i m2s (length x.rx_queues) 0
  sys_ os (Call.connected_func i)

-- `q.close()` for each queue; close(2)'s error is dropped.
unfoldable pub close_queues : Os → List Queue → M (Unit {0})
close_queues os [] = return tt
close_queues os (q ∷ qs) = do ignore (sys os (Call.close q.interrupt_fd)); close_queues os qs

-- `syscall.Munmap` refuses an empty slice without a system call: EINVAL.
unfoldable pub munmap : Os → MemoryRegion → M (Unit {0})
munmap os r = elim (region_bytes r) [
  | [] ↦ throw (failed (Call.munmap r.fd))
  | x ∷ xs ↦ sys_ os (Call.munmap r.fd)
]

unfoldable pub close_regions : Os → List MemoryRegion → M (Unit {0})
close_regions os [] = return tt
close_regions os (r ∷ rs) = do munmap os r; sys_ os (Call.close r.fd); close_regions os rs

-- `disconnect`, for an interface with a control channel.
unfoldable pub disconnect_linked : Os → ℕ → M (Unit {0})
disconnect_linked os i = do
  wrap "DisconnectedFunc: " (sys_ os (Call.disconnected_func i))
  x ← get_interface i
  close_queues os x.tx_queues
  put_interface i (record x { tx_queues = [] })
  x₁ ← get_interface i
  close_queues os x₁.rx_queues
  put_interface i (record x₁ { rx_queues = [] })
  x₂ ← get_interface i
  close_regions os x₂.regions
  put_interface i (record x₂ { regions = []; cc = none; peer_name = []; remote_name = [] })

unfoldable pub disconnect : Os → ℕ → M (Unit {0})
disconnect os i = do
  x ← get_interface i
  elim x.cc [ none ↦ return tt | some _ ↦ disconnect_linked os i ]

-- GetRxQueue and GetTxQueue, for an index that is not negative.
unfoldable pub get_rx_queue : ℕ → ℕ → M Queue
get_rx_queue i qid = do
  x ← get_interface i
  elim (get_elem? x.rx_queues qid) [
    | none ↦ throw (message "Invalid Queue index")
    | some q ↦ return q
  ]

unfoldable pub get_tx_queue : ℕ → ℕ → M Queue
get_tx_queue i qid = do
  x ← get_interface i
  elim (get_elem? x.tx_queues qid) [
    | none ↦ throw (message "Invalid Queue index")
    | some q ↦ return q
  ]

unfoldable pub is_connecting : Interface → Bool
is_connecting x = elim x.cc [ none ↦ false | some _ ↦ true ]

unfoldable pub is_connected : ℕ → M Bool
is_connected i = do
  x ← get_interface i
  elim x.cc [ none ↦ return false | some c ↦ do cc ← get_channel c; return cc.is_connected ]
