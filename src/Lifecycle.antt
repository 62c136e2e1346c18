-- ===== src/Lifecycle.antt =====
-- Creating and deleting sockets, listeners and interfaces (NewSocket, AddListener, addListener and
-- Delete of memif-new/memif/control_channel.go; NewInterface, RequestConnection, Disconnect and
-- Delete of interface.go).
pub mod Registry
pub mod Connecting
use Prim.Native.Char.{code}
use Prim.Native.String.{String}
use memif.Prelude.{
  ℕ, ◌-◌, ◌^◌, Bool, true, false, List, [], ◌∷◌, ◌++◌, Option, none, some, length, ◌==◌, ◌&&◌,
  if◌then◌else◌,
}
use memif.Types.{Interface, Arguments, MemoryConfig}
use memif.Types.Os.{Os, Call, Error, message}
use memif.Channel.{close, remove_ref}
use memif.Events.{add_control_channel, close_listener}
use memif.Socket.{
  Socket, ControlChannel, Outcome, done, fail, panic, M, ◌>>=◌, ◌>>◌, return, throw, wrap, ignore,
  deref, sys, sys_, interface_refs, get_interface, put_interface, add_event, del_event,
}

-- The bytes of a text of ASCII characters.
abbrev pub codes : String → List ℕ
codes String.[] = []
codes (String.◌∷◌ c s) = code c ∷ codes s

abbrev pub default_socket_filename : List ℕ
default_socket_filename = codes "/run/vpp/memif.sock"

abbrev pub default_num_queue_pairs : ℕ
default_num_queue_pairs = 1

abbrev pub default_log2_ring_size : ℕ
default_log2_ring_size = 10

abbrev pub default_packet_buffer_size : ℕ
default_packet_buffer_size = 2048

abbrev pub default : ℕ → ℕ → ℕ
default d n = if n == 0 then d else n

unfoldable pub with_defaults : MemoryConfig → MemoryConfig
with_defaults c = record {
  num_queue_pairs = default default_num_queue_pairs c.num_queue_pairs;
  log2_ring_size = default default_log2_ring_size c.log2_ring_size;
  packet_buffer_size = default default_packet_buffer_size c.packet_buffer_size;
}

abbrev pub bool_eq : Bool → Bool → Bool
bool_eq true b = b
bool_eq false true = false
bool_eq false false = true

unfoldable pub set_listener : ℕ → M (Unit {0})
set_listener fd s = done tt (record s { listener = some fd })

-- AddListener, for a descriptor that is bound and listening.
unfoldable pub add_listener_fd : Os → ℕ → M (Unit {0})
add_listener_fd os fd = do wrap "Failed to add event: " (add_event os fd); set_listener fd

unfoldable pub socket_filename : M (List ℕ)
socket_filename s = done s.filename s

-- addListener
unfoldable pub add_listener : Os → M (Unit {0})
add_listener os = do
  fd ← wrap "Failed to create UNIX domain socket" (sys os Call.unix_socket)
  name ← socket_filename
  wrap "Failed to set socket option" (sys_ os (Call.set_pass_cred fd))
  wrap "Failed to bind socket" (sys_ os (Call.bind fd name))
  wrap "Failed to listen on socket" (sys_ os (Call.listen fd))
  add_listener_fd os fd

-- The loop of NewInterface: no interface of the socket has this id and role.
unfoldable pub check_unique : ℕ → Bool → List ℕ → M (Unit {0})
check_unique id is_master [] = return tt
check_unique id is_master (i ∷ is) = do
  x ← get_interface i
  if x.args.id == id && bool_eq x.args.is_master is_master
      then throw (message "Interface with id %u role %s already exists on this socket")
      else check_unique id is_master is

unfoldable pub push_interface : Interface → M ℕ
push_interface x s = done (length s.interfaces) (record s {
  interfaces = s.interfaces ++ (x ∷ []);
  interface_list = s.interface_list ++ (length s.interfaces ∷ []);
})

-- A listener is added for the first master.
unfoldable pub ensure_listener : Os → M (Unit {0})
ensure_listener os s = elim s.listener [
  | none ↦ wrap "Failed to create listener channel: %s" (add_listener os) s
  | some _ ↦ done tt s
]

unfoldable pub new_interface : Os → Arguments → M ℕ
new_interface os args = do
  is ← interface_refs
  check_unique args.id args.is_master is
  i ← push_interface (record {
    args = record args { memory_config = with_defaults args.memory_config };
    run = record { num_queue_pairs = 0; log2_ring_size = 0; packet_buffer_size = 0 };
    cc = none;
    remote_name = [];
    peer_name = [];
    regions = [];
    tx_queues = [];
    rx_queues = [];
  })
  if args.is_master then ensure_listener os else return tt
  return i

-- `i.cc, err = addControlChannel(fd, i)`: an error leaves nil in `i.cc`.
unfoldable pub link_channel : Os → ℕ → ℕ → Interface → M (Unit {0})
link_channel os fd i x s = elim (add_control_channel os fd (some i) s) [
  | done c s' ↦ put_interface i (record x { cc = some c }) s'
  | fail e s' ↦ (put_interface i (record x { cc = none }) >> throw e) s'
  | panic ↦ panic
]

-- RequestConnection
unfoldable pub request_connection : Os → ℕ → M (Unit {0})
request_connection os i = do
  x ← get_interface i
  if x.args.is_master then throw (message "Only slave can request connection") else return tt
  fd ← wrap "Failed to create UNIX domain socket: %v" (sys os Call.unix_socket)
  name ← socket_filename
  wrap "Failed to connect socket" (sys_ os (Call.connect fd name))
  wrap "Failed to create control channel: %v" (link_channel os fd i x)

-- Disconnect
unfoldable pub disconnect_interface : Os → ℕ → M (Unit {0})
disconnect_interface os i = do
  x ← get_interface i
  elim x.cc [ none ↦ return tt | some c ↦ close os c true (codes "Interface disconnected") ]

unfoldable pub remove_interface : ℕ → M (Unit {0})
remove_interface i s = done tt (record s { interface_list = remove_ref i s.interface_list })

-- Delete of an interface: an error of Disconnect is dropped.
unfoldable pub delete_interface : Os → ℕ → M (Unit {0})
delete_interface os i = do ignore (disconnect_interface os i); remove_interface i

-- The loops of Delete. `close` and `Delete` take the element out of the list that the loop walks,
-- and `Next` of an element that was taken out is nil: each loop ends after its first element.
unfoldable pub close_first : Os → List ℕ → M (Unit {0})
close_first os [] = return tt
close_first os (c ∷ cs) = close os c true (codes "Socket deleted")

unfoldable pub delete_first : Os → List ℕ → M (Unit {0})
delete_first os [] = return tt
delete_first os (i ∷ is) = delete_interface os i

unfoldable pub channel_refs : M (List ℕ)
channel_refs s = done s.cc_list s

unfoldable pub listener_fd : M (Option ℕ)
listener_fd s = done s.listener s

unfoldable pub wake_event : M (ℕ × ℕ)
wake_event s = done (s.wake_fd, s.epfd) s

-- An error here ends Delete, without an error.
unfoldable pub stop_at_error : M (Unit {0}) → M (Unit {0}) → M (Unit {0})
stop_at_error m rest s = elim (m s) [ done _ s' ↦ rest s' | fail e s' ↦ done tt s' | panic ↦ panic ]

unfoldable pub remove_wake : Os → M (Unit {0})
remove_wake os = do
  (wake, ep) ← wake_event
  wrap "Failed to delete event: " (del_event os wake)
  ignore (sys os (Call.close ep))

-- Delete of a socket.
unfoldable pub delete_socket : Os → M (Unit {0})
delete_socket os = do
  cs ← channel_refs
  stop_at_error (close_first os cs) (do
    is ← interface_refs
    delete_first os is
    l ← listener_fd
    elim l [
      | none ↦ remove_wake os
      | some fd ↦ do
        close_listener os fd
        name ← socket_filename
        stop_at_error (sys_ os (Call.remove name)) (remove_wake os)
    ])

-- int32(-1), as a 32-bit pattern.
abbrev pub no_fd : ℕ
no_fd = 2 ^ 32 - 1

-- A descriptor from a call whose error is dropped.
unfoldable pub fd_or_none : Os → Call → M ℕ
fd_or_none os c s = elim (sys os c s) [
  | done fd s' ↦ done fd s'
  | fail e s' ↦ done no_fd s'
  | panic ↦ panic
]

unfoldable pub set_fds : ℕ → ℕ → M (Unit {0})
set_fds ep wake s = done tt (record s { epfd = ep; wake_fd = wake })

-- A socket before its descriptors are made.
abbrev pub blank_socket : List ℕ → List ℕ → List Call → Socket
blank_socket app_name filename calls = record {
  app_name = app_name;
  filename = elim filename [ [] ↦ default_socket_filename | x ∷ xs ↦ x ∷ xs ];
  listener = none;
  interface_list = [];
  cc_list = [];
  wake_fd = no_fd;
  epfd = no_fd;
  interfaces = [];
  channels = [];
  calls = calls;
}

unfoldable pub new_socket : Os → List ℕ → List ℕ → List Call → Outcome (Unit {0})
new_socket os app_name filename calls =
    (do
      ep ← fd_or_none os Call.epoll_create
      wake ← fd_or_none os Call.eventfd
      set_fds ep wake
      wrap "Failed to add event: " (add_event os wake))
      (blank_socket app_name filename calls)
