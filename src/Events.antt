-- ===== src/Events.antt =====
-- What a socket does on an epoll event: the handleEvent methods of
-- memif-new/memif/control_channel.go, the listener, and new control channels.
pub mod Invariant
pub mod HangUp
use memif.Prelude.{
  ℕ, Bool, false, List, [], ◌∷◌, ◌++◌, Option, none, some, length, ◌==◌, if◌then◌else◌, replicate,
}
use memif.Bytes.{copy_at}
use Prim.Native.String.{String}
use memif.Types.Os.{Os, Call, Error, message, invalid_message_size, Datagram}
use memif.Message.{msg_size}
use memif.Channel.{close, send_msg, msg_enq_hello}
use memif.Channel.Dispatch.{parse_msg}
use memif.Socket.{
  ControlChannel, done, fail, panic, M, ◌>>=◌, ◌>>◌, return, throw, wrap, sys, sys_, get_interface,
  get_channel, put_channel, channel_interface, add_event, del_event,
}

-- `syscall.EpollEvent`: the descriptor and the three bits of `Events` that the code reads.
pub record Event : Type 0 where
  pub fd : ℕ
  pub hup : Bool
  pub err : Bool
  pub readable : Bool

-- The new channel's reference.
unfoldable pub push_channel : ControlChannel → M ℕ
push_channel cc s = done (length s.channels) (record s {
  channels = s.channels ++ (cc ∷ []);
  cc_list = s.cc_list ++ (length s.channels ∷ []);
})

unfoldable pub add_control_channel : Os → ℕ → Option ℕ → M ℕ
add_control_channel os fd i = do
  wrap "Failed to add event: " (add_event os fd)
  push_channel (record {
    fd = fd;
    i = i;
    payload = replicate msg_size 0;
    control = some [];
    msg_queue = [];
    is_connected = false;
  })

unfoldable pub datagram : Os → ℕ → M Datagram
datagram os fd s = done (os.received s.calls fd) s

-- recvmsg into `cc.data` and `cc.control`; the size of the message.
unfoldable pub receive : Os → ℕ → M ℕ
receive os c = do
  cc ← get_channel c
  size ← wrap "recvmsg: %s" (sys os (Call.recvmsg cc.fd))
  d ← datagram os cc.fd
  put_channel c (record cc { payload = copy_at cc.payload 0 d.payload; control = d.control })
  return size

-- After the channel is closed for a hang up or an error, the error names `cc.i`, which panics for a
-- channel without an interface.
unfoldable pub closed_error : ℕ → String → M (Unit {0})
closed_error c text = do i ← channel_interface c; _ ← get_interface i; throw (message text)

-- handleEvent of a control channel.
unfoldable pub handle_channel_event : Os → ℕ → Event → M (Unit {0})
handle_channel_event os c ev =
    if ev.hup
    then (do
      wrap "Failed to close control channel after hang up event: " (close os c false [])
      closed_error c "Hang up: ")
    else if ev.err
    then (do
      wrap "Failed to close control channel after receiving an error event: " (close os c false [])
      closed_error c "Received error event on control channel ")
    else if ev.readable
    then (do
      size ← receive os c
      if size == msg_size then return tt else throw (invalid_message_size size)
      parse_msg os c
      send_msg os c)
    else throw (message "Unexpected event: ")

-- `close` of a listener. The socket keeps its pointer to it.
unfoldable pub close_listener : Os → ℕ → M (Unit {0})
close_listener os fd = do
  wrap "Failed to del event: " (del_event os fd)
  wrap "Failed to close socket: " (sys_ os (Call.close fd))

-- handleEvent of a listener: a peer that connects is sent a hello message.
unfoldable pub handle_listener_event : Os → ℕ → Event → M (Unit {0})
handle_listener_event os fd ev =
    if ev.hup
    then (do
      wrap "Failed to close listener after hang up event: " (close_listener os fd)
      throw (message "Hang up: "))
    else if ev.err
    then (do
      wrap "Failed to close listener after receiving an error event: " (close_listener os fd)
      throw (message "Received error event on listener "))
    else if ev.readable
    then (do
      new_fd ← wrap "Accept: %s" (sys os (Call.accept fd))
      c ← wrap "Failed to add control channel: %s" (add_control_channel os new_fd none)
      wrap "msgEnqHello: %s" (msg_enq_hello c)
      send_msg os c)
    else throw (message "Unexpected event: ")

-- The loop of handleEvent over the control channels.
unfoldable pub find_channel : Os → List ℕ → Event → M (Unit {0})
find_channel os [] ev = throw (message "fd not found")
find_channel os (c ∷ cs) ev = do
  cc ← get_channel c
  if cc.fd == ev.fd then handle_channel_event os c ev else find_channel os cs ev

-- handleEvent of a socket.
unfoldable pub handle_event : Os → Event → M (Unit {0})
handle_event os ev s = elim s.listener [
  | none ↦ find_channel os s.cc_list ev s
  | some fd ↦
      (if fd == ev.fd then handle_listener_event os fd ev else find_channel os s.cc_list ev) s
]

-- One round of the loop of StartPolling on the one event that epoll reports: the wake event is
-- passed over, and an error is what the error channel is sent.
unfoldable pub poll_event : Os → Event → M (Option Error)
poll_event os ev s = if ev.fd == s.wake_fd then done none s else elim (handle_event os ev s) [
  | done _ s' ↦ done none s'
  | fail e s' ↦ done (some e) s'
  | panic ↦ panic
]

-- The rounds of the loop over the events that come in.
unfoldable pub poll_events : Os → List Event → M (List (Option Error))
poll_events os [] = return []
poll_events os (ev ∷ evs) = do e ← poll_event os ev; es ← poll_events os evs; return (e ∷ es)
