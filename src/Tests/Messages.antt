-- ===== src/Tests/Messages.antt =====
-- Messages between a slave and a master.
use memif.Prelude.{
  ℕ, ◌≡◌, refl, arith, true, List, [], ◌∷◌, ◌++◌, some, none, set, drop, replicate, leb, ◌&&◌,
  if◌then◌else◌,
}
use memif.Bytes.{copy_at, copy}
use memif.Types.{Interface}
use memif.Types.Os.{message}
use memif.Message.{
  MsgHello, MsgInit, MsgAddRegion, MsgAddRing, MsgDisconnect, version, text_field, write_hello,
  write_init, write_add_region, write_add_ring, write_connect, write_connected, write_disconnect,
  read_hello, read_init, read_add_region, read_add_ring, read_connect, read_connected,
  read_disconnect,
}
use memif.Message.RoundTrip.{IsHello, IsInit, IsAddRegion, IsAddRing, IsDisconnect, read-write}
use memif.Channel.{msg_enq_add_ring, msg_enq_init, app_name, enqueue}
use memif.Channel.Parse.{parse_add_ring, parse_hello, parse_init, body, find_peer, bytes_eq, assign}
use memif.Channel.Hello.{Received, negotiated, parse_hello_lem}
use memif.Channel.Init.{Assigned, parse_init-Assigned}
use memif.Channel.Rings.{ring_msg, ring_setup}
use memif.Socket.{ControlChannel}
use memif.Types.{s2m, Queue}
use memif.Types.Os.{rights}
use memif.Channel.Secret.{init_of, init_msg, parse_init-secret}
use memif.Socket.{
  Socket, done, fail, ◌>>=◌, channel_interface, get_channel, interface_refs, get_interface,
  put_interface, put_channel,
}
use memif.Tests.Data.{queue, channel, socket, slave, interface_with, config}

abbrev hello : MsgHello
hello = record {
  name = replicate 32 65;
  version_min = 512;
  version_max = 512;
  max_region = 255;
  max_ring_m2s = 255;
  max_ring_s2m = 255;
  max_log2_ring_size = 14;
}

abbrev init : MsgInit
init = record {
  version_number = 512;
  id = 3;
  mode = 0;
  secret = replicate 24 0;
  name = replicate 32 66;
}

abbrev region : MsgAddRegion
region = record { index = 0; size = 70000 }

abbrev ring : MsgAddRing
ring = record {
  flags = 1;
  index = 0;
  region = 0;
  offset = 128;
  ring_size_log2 = 10;
  private_hdr_size = 0;
}

abbrev bye : MsgDisconnect
bye = record { code = 0; string = replicate 96 67 }

abbrev name : List ℕ
name = replicate 32 68

hello-IsHello : IsHello hello
hello-IsHello = record {
  name_len = refl;
  min_fits = omega arith;
  max_fits = omega arith;
  region_fits = omega arith;
  m2s_fits = omega arith;
  s2m_fits = omega arith;
  log2_fits = omega arith;
}

init-IsInit : IsInit init
init-IsInit = record {
  version_fits = omega arith;
  id_fits = omega arith;
  mode_fits = omega arith;
  secret_len = refl;
  name_len = refl;
}

region-IsAddRegion : IsAddRegion region
region-IsAddRegion = record { index_fits = omega arith; size_fits = omega arith }

ring-IsAddRing : IsAddRing ring
ring-IsAddRing = record {
  flags_fits = omega arith;
  index_fits = omega arith;
  region_fits = omega arith;
  offset_fits = omega arith;
  log2_fits = omega arith;
  header_fits = omega arith;
}

bye-IsDisconnect : IsDisconnect bye
bye-IsDisconnect = record { code_fits = omega arith; string_len = refl }

read-write_example :
    (read_hello (drop 2 ((2 ∷ 0 ∷ []) ++ (write_hello hello ++ []))) ≡ hello)
    × (read_init (drop 2 ((2 ∷ 0 ∷ []) ++ (write_init init ++ []))) ≡ init)
    × (read_add_region (drop 2 ((2 ∷ 0 ∷ []) ++ (write_add_region region ++ []))) ≡ region)
    × (read_add_ring (drop 2 ((2 ∷ 0 ∷ []) ++ (write_add_ring ring ++ []))) ≡ ring)
    × (read_connect (drop 2 ((2 ∷ 0 ∷ []) ++ (write_connect (record { name = name }) ++ [])))
        ≡ record { name = name })
    × (read_connected (drop 2 ((2 ∷ 0 ∷ []) ++ (write_connected (record { name = name }) ++ [])))
        ≡ record { name = name })
    × (read_disconnect (drop 2 ((2 ∷ 0 ∷ []) ++ (write_disconnect bye ++ []))) ≡ bye)
read-write_example =
    read-write (2 ∷ 0 ∷ []) [] hello init region ring (record { name = name })
      (record { name = name }) bye refl hello-IsHello init-IsInit region-IsAddRegion ring-IsAddRing
      refl refl bye-IsDisconnect

abbrev hello_payload : List ℕ
unfolding write_hello
hello_payload = (2 ∷ 0 ∷ []) ++ write_hello hello

abbrev slave_socket : Socket
slave_socket = socket slave (some 0) hello_payload []

slave-Received : Received slave_socket 0 0 (channel (some 0) hello_payload []) slave
slave-Received = record { channel = refl; owner = refl; interface = refl }

parse_hello_lem_example : parse_hello 0 slave_socket ≡ (
    let h = read_hello (drop 2 hello_payload) in
    if leb h.version_min version && leb version h.version_max
    then done tt (record slave_socket {
      interfaces =
          set
            (slave ∷ [])
            0
            (record slave { run = negotiated h slave.args.memory_config; remote_name = h.name });
    })
    else fail (message "Incompatible memif version") slave_socket)
parse_hello_lem_example = parse_hello_lem slave-Received

-- A free master with a secret of zeros, and the init message of the slave.
abbrev master : Interface
master = interface_with true []

abbrev init_payload : List ℕ
unfolding copy_at copy write_init text_field
init_payload = (init_msg slave_socket slave).buffer ++ replicate 63 0

abbrev master_socket : Socket
master_socket = socket master none init_payload []

abbrev assigned_socket : Socket
unfolding copy_at copy read_init text_field
assigned_socket = record master_socket {
  interfaces =
      record master { cc = some 0; run = config; remote_name = text_field 32 (65 ∷ []) } ∷ [];
  channels = channel (some 0) init_payload [] ∷ [];
}

master_accepts : parse_init 0 master_socket ≡ done tt assigned_socket
unfolding parse_init read_init copy_at copy write_init text_field ◌>>=◌ body get_channel
    interface_refs find_peer get_interface bytes_eq assign put_interface put_channel
master_accepts = refl

parse_init-Assigned_example :
    ((read_init (drop 2 init_payload)).version_number ≡ version)
    × Assigned master_socket assigned_socket 0 (read_init (drop 2 init_payload)) (0 ∷ [])
parse_init-Assigned_example =
    parse_init-Assigned 0 (channel none init_payload []) master_socket assigned_socket refl
      master_accepts

abbrev enqueued_socket : Socket
enqueued_socket = record slave_socket {
  channels = channel (some 0) hello_payload (init_msg slave_socket slave ∷ []) ∷ [];
}

slave_enqueues : msg_enq_init 0 slave_socket ≡ done tt enqueued_socket
unfolding msg_enq_init ◌>>=◌ channel_interface get_interface app_name enqueue put_channel
slave_enqueues = refl

parse_init-secret_example :
    (a : Assigned master_socket assigned_socket 0 (init_of slave_socket slave) (0 ∷ []))
    × (a.x.args.id ≡ 3)
    × (a.x.args.secret ≡ replicate 24 0)
unfolding init_payload
parse_init-secret_example =
    parse_init-secret slave_socket enqueued_socket 0 0 (channel (some 0) hello_payload [])
      (channel (some 0) hello_payload (init_msg slave_socket slave ∷ [])) slave
      (init_msg slave_socket slave) master_socket assigned_socket 0 (channel none init_payload [])
      (replicate 63 0) slave-Received (omega arith) slave_enqueues refl refl refl refl
      master_accepts

-- The slave's ring, announced, and the master that takes it up.
abbrev setup_socket : Socket
setup_socket = socket (record slave { tx_queues = queue ∷ [] }) (some 0) [] []

abbrev ring_payload : List ℕ
unfolding write_add_ring
ring_payload = (ring_msg s2m 0 queue).buffer ++ replicate 10 0

abbrev taking_channel : ControlChannel
taking_channel = record (channel (some 0) ring_payload []) {
  control = some (rights (some (12 ∷ [])) ∷ []);
}

abbrev linked_master : Interface
linked_master = record master { cc = some 0 }

abbrev taking_socket : Socket
taking_socket = record (socket linked_master (some 0) [] []) { channels = taking_channel ∷ [] }

ring_setup_example :
    (msg_enq_add_ring 0 s2m 0 setup_socket
      ≡ done tt
          (record setup_socket { channels = channel (some 0) [] (ring_msg s2m 0 queue ∷ []) ∷ [] }))
    × (r : Queue) × (parse_add_ring 0 taking_socket
        ≡ done tt (record taking_socket {
          interfaces = record linked_master { rx_queues = r ∷ [] } ∷ [];
        }))
    × (r.ring.ring_type ≡ s2m)
    × (r.ring.offset ≡ 0)
    × (r.ring.size ≡ 2)
    × (r.ring.log2_size ≡ 1)
    × (r.interrupt_fd ≡ 12)
unfolding ring_payload
ring_setup_example =
    ring_setup s2m 0 12 queue (replicate 10 0) setup_socket 0 0 (channel (some 0) [] [])
      (record slave { tx_queues = queue ∷ [] }) taking_socket 0 0 taking_channel linked_master
      (record { channel = refl; owner = refl; interface = refl }) refl refl
      (record {
        flags_fits = omega arith;
        index_fits = omega arith;
        region_fits = omega arith;
        offset_fits = omega arith;
        log2_fits = omega arith;
        header_fits = omega arith;
      })
      (record { channel = refl; owner = refl; interface = refl }) refl refl (omega arith)
