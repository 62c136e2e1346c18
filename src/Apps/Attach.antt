-- ===== src/Apps/Attach.antt =====
-- The two messages of the command memif-attach (memif-attach/main.go): the hello message that it
-- reads from a master, and the init message that it means to answer with. It codes both big endian.
pub mod Meets
use memif.Prelude.{
  ℕ, zero, suc, ◌+◌, ◌*◌, ◌/◌, ◌%◌, ◌^◌, List, [], ◌∷◌, ◌++◌, Option, none, some, length, ltb,
  if◌then◌else◌, replicate, bit_or,
}
use memif.Bytes.{bytes_at}

-- An unsigned number, highest byte first.
abbrev pub to_be : ℕ → ℕ → List ℕ
to_be zero v = []
to_be (suc n) v = (v / 256 ^ n % 256) ∷ to_be n v

abbrev pub of_be : ℕ → List ℕ → ℕ
of_be high [] = high
of_be high (b ∷ bs) = of_be (high * 256 + b) bs

abbrev pub read_be : ℕ → ℕ → List ℕ → ℕ
read_be n off xs = of_be 0 (bytes_at off n xs)

-- `HelloMsg`
pub record HelloMsg : Type 0 where
  pub ack : ℕ
  pub name : List ℕ
  pub min_version : ℕ
  pub max_version : ℕ
  pub max_region : ℕ
  pub max_m2s_ring : ℕ
  pub max_s2m_ring : ℕ
  pub max_log2_ring_size : ℕ

-- `InitMsg`
pub record InitMsg : Type 0 where
  pub ack : ℕ
  pub version : ℕ
  pub id : ℕ
  pub mode : ℕ
  pub secret : List ℕ
  pub name : List ℕ

-- The bytes of a HelloMsg.
abbrev pub hello_size : ℕ
hello_size = 45

-- handleHelloMsg on what the connection delivers; it ends the command when the bytes are too few.
unfoldable pub handle_hello_msg : List ℕ → Option HelloMsg
handle_hello_msg xs =
    if ltb (length xs) hello_size
    then none
    else some (record {
      ack = read_be 2 0 xs;
      name = bytes_at 2 32 xs;
      min_version = read_be 2 34 xs;
      max_version = read_be 2 36 xs;
      max_region = read_be 2 38 xs;
      max_m2s_ring = read_be 2 40 xs;
      max_s2m_ring = read_be 2 42 xs;
      max_log2_ring_size = read_be 1 44 xs;
    })

-- The answer of sendInitMsg; `MaxVersion << 8` is a uint16.
unfoldable pub init_msg : HelloMsg → InitMsg
init_msg hello = record {
  ack = 0;
  version = bit_or (hello.max_version * 2 ^ 8 % 2 ^ 16) hello.min_version;
  id = 0;
  mode = 0;
  secret = replicate 24 0;
  name = hello.name;
}

-- What binary.Write makes of it.
unfoldable pub write_init_msg : InitMsg → List ℕ
write_init_msg m =
    to_be 2 m.ack
    ++ (to_be 2 m.version ++ (to_be 4 m.id ++ (to_be 4 m.mode ++ (m.secret ++ m.name))))

-- The bytes that sendInitMsg writes.
unfoldable pub encode_init_msg : HelloMsg → List ℕ
encode_init_msg hello = write_init_msg (init_msg hello)

-- `Write` of a new bufio.Writer, which has 4096 bytes: what it passes on at once. The rest waits for a
-- later Write or for Flush.
abbrev pub passed_on : List ℕ → List ℕ
passed_on xs = if ltb 4096 (length xs) then xs else []

-- sendInitMsg: the bytes that go to the connection. The writer is not flushed.
unfoldable pub send_init_msg : HelloMsg → List ℕ
send_init_msg hello = passed_on (encode_init_msg hello)
