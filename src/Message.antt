-- ===== src/Message.antt =====
-- The control messages of memif-new/memif/memif.go and how control_channel.go lays them out:
-- a uint16 type, then the struct's fields in order, little endian, without padding
-- (encoding/binary). A message that is received is always the 128 bytes of `cc.data`.
pub mod RoundTrip
use memif.Prelude.{ℕ, ◌+◌, ◌*◌, ◌<◌, ◌≡◌, List, [], ◌∷◌, ◌++◌, length, replicate, take, drop, All}
use memif.Bytes.{to_le, of_le, bytes_at, read_le, copy_at}

-- `(VersionMajor << 8) | VersionMinor`
abbrev pub version : ℕ
version = 2 * 256 + 0

abbrev pub msg_size : ℕ
msg_size = 128

abbrev pub msg_type_size : ℕ
msg_type_size = 2

-- `msgType`, from its constants; 0 is msgTypeNone.
pub data MsgType : Type 0 where
  none_type ack_type hello_type init_type add_region_type add_ring_type : MsgType
  connect_type connected_type disconnect_type : MsgType

unfoldable pub msg_type_code : MsgType → ℕ
msg_type_code none_type = 0
msg_type_code ack_type = 1
msg_type_code hello_type = 2
msg_type_code init_type = 3
msg_type_code add_region_type = 4
msg_type_code add_ring_type = 5
msg_type_code connect_type = 6
msg_type_code connected_type = 7
msg_type_code disconnect_type = 8

abbrev pub interface_mode_ethernet : ℕ
interface_mode_ethernet = 0

abbrev pub msg_add_ring_flag_s2m : ℕ
msg_add_ring_flag_s2m = 1

pub record MsgHello : Type 0 where
  pub name : List ℕ
  pub version_min : ℕ
  pub version_max : ℕ
  pub max_region : ℕ
  pub max_ring_m2s : ℕ
  pub max_ring_s2m : ℕ
  pub max_log2_ring_size : ℕ

pub record MsgInit : Type 0 where
  pub version_number : ℕ
  pub id : ℕ
  pub mode : ℕ
  pub secret : List ℕ
  pub name : List ℕ

pub record MsgAddRegion : Type 0 where
  pub index : ℕ
  pub size : ℕ

pub record MsgAddRing : Type 0 where
  pub flags : ℕ
  pub index : ℕ
  pub region : ℕ
  pub offset : ℕ
  pub ring_size_log2 : ℕ
  pub private_hdr_size : ℕ

pub record MsgConnect : Type 0 where
  pub name : List ℕ

pub record MsgConnected : Type 0 where
  pub name : List ℕ

pub record MsgDisconnect : Type 0 where
  pub code : ℕ
  pub string : List ℕ

-- `copy(array[:], text)` into a zeroed array of `n` bytes.
unfoldable pub text_field : ℕ → List ℕ → List ℕ
text_field n text = copy_at (replicate n 0) 0 text

-- What binary.Write appends for each struct.
unfoldable pub write_hello : MsgHello → List ℕ
write_hello m =
    m.name
    ++ (to_le 2 m.version_min
        ++ (to_le 2 m.version_max
            ++ (to_le 2 m.max_region
                ++ (to_le 2 m.max_ring_m2s
                    ++ (to_le 2 m.max_ring_s2m ++ to_le 1 m.max_log2_ring_size)))))

unfoldable pub write_init : MsgInit → List ℕ
write_init m =
    to_le 2 m.version_number ++ (to_le 4 m.id ++ (to_le 1 m.mode ++ (m.secret ++ m.name)))

unfoldable pub write_add_region : MsgAddRegion → List ℕ
write_add_region m = to_le 2 m.index ++ to_le 8 m.size

unfoldable pub write_add_ring : MsgAddRing → List ℕ
write_add_ring m =
    to_le 2 m.flags
    ++ (to_le 2 m.index
        ++ (to_le 2 m.region
            ++ (to_le 4 m.offset ++ (to_le 1 m.ring_size_log2 ++ to_le 2 m.private_hdr_size))))

unfoldable pub write_connect : MsgConnect → List ℕ
write_connect m = m.name

unfoldable pub write_connected : MsgConnected → List ℕ
write_connected m = m.name

unfoldable pub write_disconnect : MsgDisconnect → List ℕ
write_disconnect m = to_le 4 m.code ++ m.string

-- binary.Read of each struct from `cc.data[msgTypeSize:]`.
unfoldable pub read_hello : List ℕ → MsgHello
read_hello xs = record {
  name = bytes_at 0 32 xs;
  version_min = read_le 2 32 xs;
  version_max = read_le 2 34 xs;
  max_region = read_le 2 36 xs;
  max_ring_m2s = read_le 2 38 xs;
  max_ring_s2m = read_le 2 40 xs;
  max_log2_ring_size = read_le 1 42 xs;
}

unfoldable pub read_init : List ℕ → MsgInit
read_init xs = record {
  version_number = read_le 2 0 xs;
  id = read_le 4 2 xs;
  mode = read_le 1 6 xs;
  secret = bytes_at 7 24 xs;
  name = bytes_at 31 32 xs;
}

unfoldable pub read_add_region : List ℕ → MsgAddRegion
read_add_region xs = record { index = read_le 2 0 xs; size = read_le 8 2 xs }

unfoldable pub read_add_ring : List ℕ → MsgAddRing
read_add_ring xs = record {
  flags = read_le 2 0 xs;
  index = read_le 2 2 xs;
  region = read_le 2 4 xs;
  offset = read_le 4 6 xs;
  ring_size_log2 = read_le 1 10 xs;
  private_hdr_size = read_le 2 11 xs;
}

unfoldable pub read_connect : List ℕ → MsgConnect
read_connect xs = record { name = bytes_at 0 32 xs }

unfoldable pub read_connected : List ℕ → MsgConnected
read_connected xs = record { name = bytes_at 0 32 xs }

unfoldable pub read_disconnect : List ℕ → MsgDisconnect
read_disconnect xs = record { code = read_le 4 0 xs; string = bytes_at 4 96 xs }
