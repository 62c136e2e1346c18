-- ===== src/Channel/Parse.antt =====
-- What a control channel does with each message it receives: the parse functions of
-- memif-new/memif/control_channel.go.
use memif.Prelude.{
  ℕ, Bool, true, false, List, [], ◌∷◌, ◌++◌, Option, none, some, leb, ltb, ◌==◌, ◌&&◌, ◌||◌,
  if◌then◌else◌, bit_and, drop,
}
use memif.Types.{Interface, Queue, RingType, s2m, m2s}
use memif.Types.Os.{Os, message, Cmsg, rights, other}
use memif.Ring.{new_ring}
use memif.Message.{
  version, msg_type_size, msg_add_ring_flag_s2m, read_hello, read_init, read_add_region,
  read_add_ring, read_connect, read_connected, read_disconnect, MsgInit,
}
use memif.Link.{connect}
use memif.Channel.{close}
use memif.Socket.{
  M, ◌>>=◌, ◌>>◌, return, throw, wrap, interface_refs, get_interface, put_interface, get_channel,
  put_channel, channel_interface,
}

-- `cc.data[msgTypeSize:]`
unfoldable pub body : ℕ → M (List ℕ)
body c = do cc ← get_channel c; return (drop msg_type_size cc.payload)

-- min16 and min8
abbrev pub min16 : ℕ → ℕ → ℕ
min16 a b = if ltb a b then a else b

abbrev pub min8 : ℕ → ℕ → ℕ
min8 a b = if ltb a b then a else b

-- The second assignment to NumQueuePairs overwrites the first, so the peer's MaxRingS2M is not
-- heeded.
unfoldable pub parse_hello : ℕ → M (Unit {0})
parse_hello c = do
  xs ← body c
  let hello = read_hello xs
  if ltb version hello.version_min || ltb hello.version_max version
      then throw (message "Incompatible memif version")
      else return tt
  i ← channel_interface c
  x ← get_interface i
  put_interface i (record x {
    run = record x.args.memory_config {
      num_queue_pairs = min16 x.args.memory_config.num_queue_pairs hello.max_ring_m2s;
      log2_ring_size = min8 x.args.memory_config.log2_ring_size hello.max_log2_ring_size;
    };
    remote_name = hello.name;
  })

-- Arrays of bytes compare byte by byte.
unfoldable pub bytes_eq : List ℕ → List ℕ → Bool
bytes_eq [] [] = true
bytes_eq [] (y ∷ ys) = false
bytes_eq (x ∷ xs) [] = false
bytes_eq (x ∷ xs) (y ∷ ys) = x == y && bytes_eq xs ys

-- Whether an interface is the free master that an init message asks for.
abbrev pub wanted : ℕ → Interface → Bool
wanted id x = x.args.id == id && (x.args.is_master && elim x.cc [ none ↦ true | some _ ↦ false ])

-- Assign the interface to the channel.
unfoldable pub assign : ℕ → ℕ → Interface → List ℕ → M (Unit {0})
assign c i x name = do
  put_interface i (record x { cc = some c; run = x.args.memory_config; remote_name = name })
  cc ← get_channel c
  put_channel c (record cc { i = some i })

-- The loop of parseInit over the interfaces of the socket.
unfoldable pub find_peer : ℕ → MsgInit → List ℕ → M (Unit {0})
find_peer c init [] = throw (message "Invalid interface id")
find_peer c init (i ∷ is) = do
  x ← get_interface i
  if wanted init.id x
      then (if bytes_eq x.args.secret init.secret
          then assign c i x init.name
          else throw (message "Invalid secret"))
      else find_peer c init is

unfoldable pub parse_init : ℕ → M (Unit {0})
parse_init c = do
  xs ← body c
  let init = read_init xs
  if init.version_number == version
      then return tt
      else throw (message "Incompatible memif driver version")
  is ← interface_refs
  find_peer c init is

-- The loop of parseControlMsg: the first descriptor of the last SCM_RIGHTS message that has one.
unfoldable pub scan_rights : List Cmsg → Option ℕ → M (Option ℕ)
scan_rights [] fd = return fd
scan_rights (other ∷ ms) fd = scan_rights ms fd
scan_rights (rights none ∷ ms) fd = throw (message "syscall.ParseUnixRights: %s")
scan_rights (rights (some []) ∷ ms) fd = scan_rights ms fd
scan_rights (rights (some (f ∷ fs)) ∷ ms) fd = scan_rights ms (some f)

unfoldable pub parse_control_msg : ℕ → M ℕ
parse_control_msg c = do
  cc ← get_channel c
  elim cc.control [
    | none ↦ throw (message "syscall.ParseSocketControlMessage: %s")
    | some [] ↦ throw (message "Missing control message")
    | some (m ∷ ms) ↦ do
      fd ← scan_rights (m ∷ ms) none
      elim fd [ none ↦ throw (message "Missing file descriptor") | some f ↦ return f ]
  ]

-- The region is not mapped yet.
unfoldable pub parse_add_region : ℕ → M (Unit {0})
parse_add_region c = do
  xs ← body c
  let add_region = read_add_region xs
  fd ← wrap "parseControlMsg: %s" (parse_control_msg c)
  if ltb 255 add_region.index then throw (message "Invalid memory region index") else return tt
  i ← channel_interface c
  x ← get_interface i
  put_interface i (record x {
    regions =
        x.regions
        ++ (record { bytes = none; size = add_region.size; fd = fd; packet_buffer_offset = 0 }
            ∷ []);
  })

abbrev pub peer_queue : RingType → ℕ → ℕ → ℕ → ℕ → Queue
peer_queue t region offset log2 fd = record {
  ring = new_ring region t offset log2;
  last_head = 0;
  last_tail = 0;
  interrupt_fd = fd;
}

unfoldable pub parse_add_ring : ℕ → M (Unit {0})
parse_add_ring c = do
  xs ← body c
  let m = read_add_ring xs
  fd ← parse_control_msg c
  i ← channel_interface c
  x ← get_interface i
  if leb x.run.num_queue_pairs m.index then throw (message "invalid ring index") else return tt
  put_interface i (
      if bit_and m.flags msg_add_ring_flag_s2m == msg_add_ring_flag_s2m
      then record x {
        rx_queues = x.rx_queues ++ (peer_queue s2m m.region m.offset m.ring_size_log2 fd ∷ []);
      }
      else record x {
        tx_queues = x.tx_queues ++ (peer_queue m2s m.region m.offset m.ring_size_log2 fd ∷ []);
      })

-- What parseConnect and parseConnected do alike: note the peer's name, and bring the link up.
unfoldable pub link_up : Os → ℕ → List ℕ → M (Unit {0})
link_up os c name = do
  i ← channel_interface c
  x ← get_interface i
  put_interface i (record x { peer_name = name })
  connect os i
  cc ← get_channel c
  put_channel c (record cc { is_connected = true })

unfoldable pub parse_connect : Os → ℕ → M (Unit {0})
parse_connect os c = do xs ← body c; link_up os c (read_connect xs).name

unfoldable pub parse_connected : Os → ℕ → M (Unit {0})
parse_connected os c = do xs ← body c; link_up os c (read_connected xs).name

unfoldable pub parse_disconnect : Os → ℕ → M (Unit {0})
parse_disconnect os c = do
  xs ← body c
  wrap "Failed to disconnect control channel: " (close os c false (read_disconnect xs).string)
