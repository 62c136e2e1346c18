-- ===== src/Tests/Data.antt =====
-- The concrete data of the tests: a ring of two slots with packet buffers of four bytes, as a slave
-- and its master see it, and a socket with one interface and one channel.
use memif.Prelude.{Option, false, some, none, ℕ, ◌+◌, Bool, List, [], ◌∷◌, none, some, replicate}
use memif.Bytes.{write_le, copy_at, copy}
use memif.Types.Os.{Os}
use memif.Socket.{Socket, ControlChannel, ControlMsg}
use memif.Types.{Interface, MemoryConfig, Queue, s2m}

abbrev pub config : MemoryConfig
config = record { num_queue_pairs = 1; log2_ring_size = 1; packet_buffer_size = 4 }

abbrev pub queue : Queue
queue = record {
  ring = record {
    ring_type = s2m;
    size = 2;
    log2_size = 1;
    region = 0;
    rb = replicate 128 0;
    offset = 0;
  };
  last_head = 1;
  last_tail = 1;
  interrupt_fd = 9;
}

-- The head and the tail are 1, the flags ask for no interrupt; both descriptors have four bytes.
abbrev pub memory : List ℕ
unfolding copy_at copy
memory = write_le 4 (144 + 8) 164 (
    write_le 4 (144 + 4) 4 (
      write_le 4 (128 + 8) 160 (
        write_le 4 (128 + 4) 4
          (write_le 2 64 1 (write_le 2 6 1 (write_le 2 4 1 (replicate 168 0)))))))

abbrev pub interface_with : Bool → List ℕ → Interface
interface_with is_master xs = record {
  args = record {
    id = 3;
    is_master = is_master;
    name = [];
    secret = replicate 24 0;
    memory_config = config;
  };
  run = config;
  cc = none;
  remote_name = [];
  peer_name = [];
  regions = record { bytes = some xs; size = 168; fd = 5; packet_buffer_offset = 160 } ∷ [];
  tx_queues = [];
  rx_queues = [];
}

abbrev pub packet : List ℕ
packet = 7 ∷ 8 ∷ 9 ∷ []

abbrev pub channel : Option ℕ → List ℕ → List ControlMsg → ControlChannel
channel owner payload queue = record {
  fd = 7;
  i = owner;
  payload = payload;
  control = some [];
  msg_queue = queue;
  is_connected = false;
}

-- A socket with one interface and one channel, whose datagram is `payload`.
abbrev pub socket : Interface → Option ℕ → List ℕ → List ControlMsg → Socket
socket x owner payload queue = record {
  app_name = 65 ∷ [];
  filename = 47 ∷ [];
  listener = none;
  interface_list = 0 ∷ [];
  cc_list = 0 ∷ [];
  wake_fd = 4;
  epfd = 3;
  interfaces = x ∷ [];
  channels = channel owner payload queue ∷ [];
  calls = [];
}

abbrev pub quiet_os : Os
quiet_os = record {
  reply = λ calls c. some 0;
  mapped = λ calls fd size. [];
  received = λ calls fd. record { payload = []; control = some [] };
  behind = λ calls. [];
  text = λ e. [];
}

abbrev pub slave : Interface
slave = interface_with false []
