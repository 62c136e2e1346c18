-- ===== src/Lifecycle/Connecting.antt =====
-- A slave that asks for a connection (RequestConnection of memif-new/memif/interface.go).
use memif.Prelude.{
  ℕ, ◌≡◌, arith, false, List, [], ◌∷◌, ◌++◌, some, get_elem?, set, length, replicate,
}
use memif.Types.{Interface}
use memif.Types.Os.{Os, Call}
use memif.Message.{msg_size}
use memif.Events.{add_control_channel, push_channel}
use memif.Link.Release.{sys_-accepted, sys-accepted}
use memif.Lifecycle.{request_connection, link_channel, socket_filename}
use memif.Socket.{Socket, ControlChannel, done, ◌>>=◌, get_interface, put_interface, add_event}

-- The channel of a connection, before its first message.
abbrev pub new_channel : ℕ → ℕ → ControlChannel
new_channel fd i = record {
  fd = fd;
  i = some i;
  payload = replicate msg_size 0;
  control = some [];
  msg_queue = [];
  is_connected = false;
}

-- On a system that accepts every request, RequestConnection of a slave succeeds: it connects a new
-- socket to the listener's file, lists a new channel for it, and links the channel and the
-- interface to each other; nothing else of the socket changes.
pub request_connection-links :
    (os : Os) (accepts : (calls : List Call) (c : Call) → ((v : ℕ) × (os.reply calls c ≡ some v)))
    (i : ℕ) (x : Interface) (s : Socket)
    → get_elem? s.interfaces i ≡ some x
    → x.args.is_master ≡ false
    → (fd : ℕ) × (request_connection os i s
        ≡ done tt (record s {
          interfaces = set s.interfaces i (record x { cc = some (length s.channels) });
          channels = s.channels ++ (new_channel fd i ∷ []);
          cc_list = s.cc_list ++ (length s.channels ∷ []);
          calls =
              ((s.calls ++ (Call.unix_socket ∷ [])) ++ (Call.connect fd s.filename ∷ []))
              ++ (Call.epoll_add fd ∷ []);
        }))
unfolding request_connection socket_filename link_channel add_control_channel push_channel add_event
    get_interface put_interface ◌>>=◌
request_connection-links os accepts i x s there slave =
    let (fd, opened) = sys-accepted os accepts Call.unix_socket s in
    let s₁ : Socket = record s { calls = s.calls ++ (Call.unix_socket ∷ []) } in
    let s₂ : Socket = record s₁ { calls = s₁.calls ++ (Call.connect fd s.filename ∷ []) } in
    (
      fd,
      ground (
        arith,
        there,
        slave,
        opened,
        sys_-accepted os accepts (Call.connect fd s.filename) s₁,
        sys_-accepted os accepts (Call.epoll_add fd) s₂,
      ),
    )
