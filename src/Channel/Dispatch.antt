-- ===== src/Channel/Dispatch.antt =====
-- parseMsg of memif-new/memif/control_channel.go: what is done on each message, and that an error
-- closes the channel.
use memif.Prelude.{ℕ, zero, suc, ◌+◌, true, Option, none, some, length, ◌==◌, if◌then◌else◌}
use memif.Bytes.{read_le}
use memif.Types.{RingType, s2m, m2s}
use memif.Types.Os.{Os, close_failed, unknown_message}
use memif.Message.{
  MsgType, none_type, ack_type, hello_type, init_type, add_region_type, add_ring_type, connect_type,
  connected_type, disconnect_type,
}
use memif.Setup.{initialize_regions, initialize_queues}
use memif.Channel.{
  close, msg_enq_ack, msg_enq_init, msg_enq_add_region, msg_enq_add_ring, msg_enq_connect,
  msg_enq_connected,
}
use memif.Channel.Parse.{
  parse_hello, parse_init, parse_add_region, parse_add_ring, parse_connect, parse_connected,
  parse_disconnect,
}
use memif.Socket.{
  done, fail, panic, M, ◌>>=◌, ◌>>◌, return, throw, get_interface, get_channel, channel_interface,
}

-- The loops that enqueue the regions, and the rings of one kind, `n` of them from `k` on.
unfoldable pub enq_regions : ℕ → ℕ → ℕ → M (Unit {0})
enq_regions c zero k = return tt
enq_regions c (suc n) k = do msg_enq_add_region c k; enq_regions c n (k + 1)

unfoldable pub enq_rings : ℕ → RingType → ℕ → ℕ → M (Unit {0})
enq_rings c t zero k = return tt
enq_rings c t (suc n) k = do msg_enq_add_ring c t k; enq_rings c t n (k + 1)

-- The slave's answer to a hello message: it configures itself and enqueues its whole setup.
unfoldable pub on_hello : Os → ℕ → M (Unit {0})
on_hello os c = do
  parse_hello c
  i ← channel_interface c
  initialize_regions os i
  initialize_queues os i
  msg_enq_init c
  x ← get_interface i
  enq_regions c (length x.regions) 0
  enq_rings c s2m x.run.num_queue_pairs 0
  enq_rings c m2s x.run.num_queue_pairs 0
  msg_enq_connect c

-- The message type of a code; `none` for a code without a message.
unfoldable pub msg_type_of : ℕ → Option MsgType
msg_type_of code =
    if code == 1
    then some ack_type
    else if code == 2
    then some hello_type
    else if code == 3
    then some init_type
    else if code == 4
    then some add_region_type
    else if code == 5
    then some add_ring_type
    else if code == 6
    then some connect_type
    else if code == 7
    then some connected_type
    else if code == 8
    then some disconnect_type
    else none

-- The branches of parseMsg.
unfoldable pub on_message : Os → ℕ → MsgType → M (Unit {0})
on_message os c none_type = throw (unknown_message 0)
on_message os c ack_type = return tt
on_message os c hello_type = on_hello os c
on_message os c init_type = do parse_init c; msg_enq_ack c
on_message os c add_region_type = do parse_add_region c; msg_enq_ack c
on_message os c add_ring_type = do parse_add_ring c; msg_enq_ack c
on_message os c connect_type = do parse_connect os c; msg_enq_connected c
on_message os c connected_type = parse_connected os c
on_message os c disconnect_type = parse_disconnect os c

-- The label error: the channel is closed with the error's text, and the error is returned.
unfoldable pub or_close_channel : Os → ℕ → M (Unit {0}) → M (Unit {0})
or_close_channel os c m s = elim (m s) [
  | done a s' ↦ done a s'
  | fail e s' ↦ elim (close os c true (os.text e) s') [
    | done _ s'' ↦ fail e s''
    | fail e₁ s'' ↦ fail (close_failed e e₁) s''
    | panic ↦ panic
  ]
  | panic ↦ panic
]

unfoldable pub parse_msg : Os → ℕ → M (Unit {0})
parse_msg os c = do
  cc ← get_channel c
  let code = read_le 2 0 cc.payload
  or_close_channel os c
      (elim (msg_type_of code) [ none ↦ throw (unknown_message code) | some t ↦ on_message os c t ])
