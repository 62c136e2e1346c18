-- ===== src/Tests/Sessions.antt =====
-- A slave that is greeted by a master, and the master that is told the slave's setup.
use memif.Prelude.{
  ℕ, ◌^◌, ◌++◌, ◌≡◌, refl, arith, true, List, [], ◌∷◌, some, none, replicate, length-replicate,
  drop,
}
use memif.Bytes.{copy_at, copy}
use memif.Types.{Interface, Queue, MemoryConfig, s2m, m2s}
use memif.Region.{region_size}
use memif.Channel.Secret.{init_msg}
use memif.Channel.Rings.{ring_msg}
use memif.Session.Queueing.{region_msg, connect_msg}
use memif.Types.Os.{Os, Datagram, rights}
use memif.Message.{
  MsgHello, msg_size, msg_type_size, hello_type, msg_type_code, write_hello, read_hello, text_field,
  version, write_init, write_add_region, write_add_ring, write_connect,
}
use memif.Bytes.{to_le}
use memif.Queue.{region_data}
use memif.Channel.Hello.{Received, negotiated}
use memif.Channel.Dispatch.{on_hello}
use memif.Socket.{Socket, ControlChannel, ControlMsg, done}
use memif.Packet.Stream.{World, run, queue_run}
use memif.Session.Answer.{Bare, Answered, on_hello-Answered}
use memif.Session.Delivery.{Willing}
use memif.Session.Steps.{converse, Told, Awaits}
use memif.Session.Handshake.{converse-connects}
use memif.Tests.Data.{channel, interface_with, quiet_os, config, socket}
use memif.Tests.Slaves.{unmapped_slave, zeros_os, accepts, calls}

abbrev hello : MsgHello
hello = record {
  name = replicate 32 65;
  version_min = version;
  version_max = version;
  max_region = 255;
  max_ring_m2s = 255;
  max_ring_s2m = 255;
  max_log2_ring_size = 14;
}

abbrev greeting : List ℕ
unfolding write_hello msg_type_code
greeting = (to_le 2 (msg_type_code hello_type) ++ write_hello hello) ++ replicate 83 0

abbrev greeted : Socket
greeted = socket unmapped_slave (some 0) greeting []

abbrev slave_channel : ControlChannel
slave_channel = channel (some 0) greeting []

greeted-Received : Received greeted 0 0 slave_channel unmapped_slave
greeted-Received = record { channel = refl; owner = refl; interface = refl }

slave-Bare : Bare unmapped_slave (negotiated hello config)
slave-Bare = record {
  slave = refl;
  no_region = refl;
  no_tx = refl;
  no_rx = refl;
  one_pair = refl;
  fits = record { some_pair = omega arith; rings = omega arith; buffers = omega arith };
  narrow = omega arith;
  some_bytes = omega arith;
}

on_hello-Answered_example :
    (s' : Socket) × (on_hello zeros_os 0 greeted ≡ done tt s')
    × Answered greeted s' 0 0 slave_channel unmapped_slave
        (negotiated (read_hello (drop msg_type_size greeting)) config)
unfolding read_hello greeting
on_hello-Answered_example =
    on_hello-Answered zeros_os accepts (λ calls fd size. length-replicate size 0) greeted 0 0
      slave_channel unmapped_slave greeted-Received (omega arith) (omega arith) slave-Bare

-- The same slave, for the master below.
abbrev negotiated_config : MemoryConfig
negotiated_config = negotiated (read_hello (drop msg_type_size greeting)) config

answered :
    (s' : Socket) × (on_hello zeros_os 0 greeted ≡ done tt s')
    × Answered greeted s' 0 0 slave_channel unmapped_slave negotiated_config
unfolding read_hello greeting
answered =
    on_hello-Answered zeros_os accepts (λ calls fd size. length-replicate size 0) greeted 0 0
      slave_channel unmapped_slave greeted-Received (omega arith) (omega arith) slave-Bare

abbrev slave : Answered greeted answered.0 0 0 slave_channel unmapped_slave negotiated_config
slave = answered.2

-- A master whose system shows it the slave's bytes.
abbrev master_os : Os
master_os = record quiet_os { reply = λ calls c. some msg_size; mapped = λ calls fd size. slave.e }

master-Willing : Willing master_os
master-Willing = record { accepts = λ calls c. (msg_size, refl); receives = λ calls fd. refl }

abbrev waiting : Interface
waiting = record (interface_with true []) { regions = [] }

abbrev hall : Socket
hall = socket waiting none (replicate 128 0) []

abbrev master_channel : ControlChannel
master_channel = channel none (replicate 128 0) []

hall-Awaits : Awaits hall 0 0 master_channel waiting 3
hall-Awaits = record {
  channel = refl;
  idle = refl;
  full = refl;
  interface = refl;
  others = [];
  listed = refl;
  master = refl;
  free = refl;
  same_id = refl;
  no_secret = refl;
  some_pair = omega arith;
  no_region = refl;
  no_tx = refl;
  no_rx = refl;
}

-- A message in a datagram of 128 bytes, with a descriptor.
abbrev in_datagram : ControlMsg → ℕ → ℕ → Datagram
in_datagram msg padding fd = record {
  payload = msg.buffer ++ replicate padding 0;
  control = some (rights (some (fd ∷ [])) ∷ []);
}

abbrev size : ℕ
size = region_size negotiated_config true true

abbrev d₁ : Datagram
d₁ = in_datagram (init_msg greeted unmapped_slave) 63 30

abbrev d₂ : Datagram
d₂ = in_datagram (region_msg 0 size slave.fd) 116 31

abbrev d₃ : Datagram
d₃ = in_datagram (ring_msg s2m 0 slave.tx) 113 32

abbrev d₄ : Datagram
d₄ = in_datagram (ring_msg m2s 0 slave.rx) 113 33

abbrev d₅ : Datagram
d₅ = in_datagram (connect_msg unmapped_slave) 94 34

messages-Told : Told greeted unmapped_slave size slave.fd slave.tx slave.rx d₁ d₂ d₃ d₄ d₅ 31 32 33
unfolding write_init write_add_region write_add_ring write_connect text_field msg_type_code copy_at
    copy
messages-Told = record {
  init = record { rest = replicate 63 0; begins = refl; full = refl };
  region = record { rest = replicate 116 0; begins = refl; full = refl };
  sends = record { rest = replicate 113 0; begins = refl; full = refl };
  receives = record { rest = replicate 113 0; begins = refl; full = refl };
  connect = record { rest = replicate 94 0; begins = refl; full = refl };
  region_passed = refl;
  tx_passed = refl;
  rx_passed = refl;
}

converse-connects_example :
    (t' : Socket) × (last : ControlChannel) × (z : Interface) × (q : Queue) × (w' : World)
    × (converse master_os 0 7 (d₁ ∷ d₂ ∷ d₃ ∷ d₄ ∷ d₅ ∷ []) hall ≡ done tt t')
    × Received t' 0 0 last z
    × (last.is_connected ≡ true)
    × (z.cc ≡ some 0)
    × (z.rx_queues ≡ q ∷ [])
    × (region_data z 0 ≡ some slave.e)
    × (run calls (record { tx = slave.tx; sender = slave.y; rx = q; receiver = z })
        ≡ some ((queue_run (2 ^ negotiated_config.log2_ring_size) calls []).0, w'))
converse-connects_example =
    converse-connects greeted answered.0 0 0 slave_channel unmapped_slave negotiated_config slave
      master_os master-Willing 0 0 7 hall master_channel waiting d₁ d₂ d₃ d₄ d₅ 31 32 33 calls
      (omega arith) hall-Awaits messages-Told (λ calls. refl) (omega arith)
