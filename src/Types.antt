-- ===== src/Types.antt =====
-- The data of memif-new/memif: configuration, rings, queues, regions and interfaces
-- (interface.go, memif.go), and what the operating system is asked for.
pub mod Os
use memif.Prelude.{ℕ, Bool, List, Option}

-- `MemoryConfig`: uint16, uint8 and uint32.
pub record MemoryConfig : Type 0 where
  pub num_queue_pairs : ℕ
  pub log2_ring_size : ℕ
  pub packet_buffer_size : ℕ

-- `Arguments`, without the callbacks (`Os.Call`) and the client's private data. Names are bytes.
pub record Arguments : Type 0 where
  pub id : ℕ
  pub is_master : Bool
  pub name : List ℕ
  pub secret : List ℕ
  pub memory_config : MemoryConfig

-- `memoryRegion`. `none` is the nil slice of a region that is not mapped yet.
pub record MemoryRegion : Type 0 where
  pub bytes : Option (List ℕ)
  pub size : ℕ
  pub fd : ℕ
  pub packet_buffer_offset : ℕ

pub data RingType : Type 0 where
  s2m m2s : RingType

-- `ring`. `size` and `offset` are Go ints, held as 64-bit patterns.
pub record Ring : Type 0 where
  pub ring_type : RingType
  pub size : ℕ
  pub log2_size : ℕ
  pub region : ℕ
  pub rb : List ℕ
  pub offset : ℕ

-- `Queue`. Its interface is passed to its methods.
pub record Queue : Type 0 where
  pub ring : Ring
  pub last_head : ℕ
  pub last_tail : ℕ
  pub interrupt_fd : ℕ

-- `Interface`. Its control channel is a reference into the socket's channels.
pub record Interface : Type 0 where
  pub args : Arguments
  pub run : MemoryConfig
  pub cc : Option ℕ
  pub remote_name : List ℕ
  pub peer_name : List ℕ
  pub regions : List MemoryRegion
  pub tx_queues : List Queue
  pub rx_queues : List Queue
