-- ===== src/Channel.antt =====
-- The control channel of memif-new/memif/control_channel.go: messages are put in its queue and
-- sent one at a time (sendMsg of control_channel_unsafe.go), and it is closed.
pub mod Parse
pub mod Dispatch
pub mod Hello
pub mod Init
pub mod Sending
pub mod Secret
pub mod Rings
pub mod Frame
pub mod Closing
pub mod Refs
use memif.Prelude.{
  ℕ, zero, suc, ◌+◌, ◌*◌, ◌%◌, ◌^◌, Bool, true, false, List, [], ◌∷◌, ◌++◌, Option, none, some,
  get_elem?, leb, ltb, length, ◌==◌, if◌then◌else◌, take, replicate,
}
use memif.Bytes.{to_le}
use memif.Types.{Interface, MemoryRegion, Queue, RingType, s2m, m2s}
use memif.Types.Os.{Os, Call, Error, message}
use memif.Message
use memif.Message.{
  version, msg_size, interface_mode_ethernet, msg_add_ring_flag_s2m, msg_type_code, MsgType,
  ack_type, hello_type, init_type, add_region_type, add_ring_type, connect_type, connected_type,
  disconnect_type, text_field, write_hello, write_init, write_add_region, write_add_ring,
  write_connect, write_connected, write_disconnect,
}
use memif.Link.{disconnect}
use memif.Socket.{
  Socket, ControlChannel, ControlMsg, Outcome, done, M, ◌>>=◌, ◌>>◌, return, throw, wrap, deref,
  sys, sys_, get_interface, put_interface, get_channel, put_channel, channel_interface, del_event,
}

-- Remove a reference from a list, as `list.Remove` does; one that is not there is left.
unfoldable pub remove_ref : ℕ → List ℕ → List ℕ
remove_ref r [] = []
remove_ref r (x ∷ xs) = if x == r then xs else x ∷ remove_ref r xs

unfoldable pub app_name : M (List ℕ)
app_name s = done s.app_name s

-- `cc.msgQueue = append(cc.msgQueue, msg)`, for a message of this type, body and descriptor.
unfoldable pub enqueue : ℕ → MsgType → List ℕ → Option ℕ → M (Unit {0})
enqueue c t body fd = do
  cc ← get_channel c
  put_channel c (record cc {
    msg_queue =
        cc.msg_queue ++ (record { buffer = to_le 2 (msg_type_code t) ++ body; fd = fd } ∷ []);
  })

unfoldable pub msg_enq_ack : ℕ → M (Unit {0})
msg_enq_ack c = enqueue c ack_type [] none

unfoldable pub msg_enq_hello : ℕ → M (Unit {0})
msg_enq_hello c = do
  name ← app_name
  enqueue c hello_type
      (write_hello (record {
        name = text_field 32 name;
        version_min = version;
        version_max = version;
        max_region = 255;
        max_ring_m2s = 255;
        max_ring_s2m = 255;
        max_log2_ring_size = 14;
      }))
      none

-- The secret is left zero.
unfoldable pub msg_enq_init : ℕ → M (Unit {0})
msg_enq_init c = do
  i ← channel_interface c
  x ← get_interface i
  name ← app_name
  enqueue c init_type
      (write_init (record {
        version_number = version;
        id = x.args.id;
        mode = interface_mode_ethernet;
        secret = replicate 24 0;
        name = text_field 32 name;
      }))
      none

unfoldable pub msg_enq_add_region : ℕ → ℕ → M (Unit {0})
msg_enq_add_region c region_index = do
  i ← channel_interface c
  x ← get_interface i
  elim (get_elem? x.regions region_index) [
    | none ↦ throw (message "Invalid region index")
    | some r ↦
        enqueue c add_region_type
          (write_add_region (record { index = region_index; size = r.size })) (some r.fd)
  ]

-- A queue that is not there is an index out of range.
unfoldable pub msg_enq_add_ring : ℕ → RingType → ℕ → M (Unit {0})
msg_enq_add_ring c t ring_index = do
  i ← channel_interface c
  x ← get_interface i
  q ← deref (get_elem? (elim t [ s2m ↦ x.tx_queues | m2s ↦ x.rx_queues ]) ring_index)
  enqueue c add_ring_type
      (write_add_ring (record {
        flags = elim t [ s2m ↦ msg_add_ring_flag_s2m | m2s ↦ 0 ];
        index = ring_index;
        region = q.ring.region;
        offset = q.ring.offset;
        ring_size_log2 = q.ring.log2_size;
        private_hdr_size = 0;
      }))
      (some q.interrupt_fd)

unfoldable pub msg_enq_connect : ℕ → M (Unit {0})
msg_enq_connect c = do
  i ← channel_interface c
  x ← get_interface i
  enqueue c connect_type (write_connect (record { name = text_field 32 x.args.name })) none

unfoldable pub msg_enq_connected : ℕ → M (Unit {0})
msg_enq_connected c = do
  i ← channel_interface c
  x ← get_interface i
  enqueue c connected_type (write_connected (record { name = text_field 32 x.args.name })) none

unfoldable pub msg_enq_disconnect : ℕ → List ℕ → M (Unit {0})
msg_enq_disconnect c str =
    enqueue c disconnect_type (write_disconnect (record { code = 0; string = text_field 96 str }))
      none

-- The descriptor goes along if it is positive.
abbrev pub passed_fd : Option ℕ → Option ℕ
passed_fd none = none
passed_fd (some fd) = if ltb 0 fd then some fd else none

-- The system call of sendMsg: 128 bytes from the start of the buffer, whatever its length.
unfoldable pub send_buffer : Os → ℕ → ControlMsg → M (Unit {0})
send_buffer os fd msg s =
    wrap "SYS_SENDMSG: %s"
      (sys_ os
        (Call.sendmsg fd (take msg_size (msg.buffer ++ os.behind s.calls)) (passed_fd msg.fd)))
      s

-- sendMsg: at most the first message of the queue.
unfoldable pub send_msg : Os → ℕ → M (Unit {0})
send_msg os c = do
  cc ← get_channel c
  elim cc.msg_queue [
    | [] ↦ return tt
    | msg ∷ rest ↦ do put_channel c (record cc { msg_queue = rest }); send_buffer os cc.fd msg
  ]

unfoldable pub remove_channel : ℕ → M (Unit {0})
remove_channel c s = done tt (record s { cc_list = remove_ref c s.cc_list })

-- The first part of `close`: the disconnect message is the only one in the queue, and is sent.
unfoldable pub send_disconnect : Os → ℕ → List ℕ → M (Unit {0})
send_disconnect os c str = do
  cc ← get_channel c
  put_channel c (record cc { msg_queue = [] })
  msg_enq_disconnect c str
  send_msg os c

-- The rest of `close`.
unfoldable pub close_channel : Os → ℕ → M (Unit {0})
close_channel os c = do
  cc ← get_channel c
  wrap "Failed to del event: " (del_event os cc.fd)
  remove_channel c
  cc₁ ← get_channel c
  elim cc₁.i [ none ↦ return tt | some i ↦ wrap "Interface Disconnect: " (disconnect os i) ]

-- `close`, with or without a message to the peer.
unfoldable pub close : Os → ℕ → Bool → List ℕ → M (Unit {0})
close os c send_it str = do
  if send_it then send_disconnect os c str else return tt
  close_channel os c
