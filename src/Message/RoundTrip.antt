-- ===== src/Message/RoundTrip.antt =====
-- Reading a message gives the fields that were written, whatever bytes follow it.
use memif.Prelude.{
  ℕ, zero, suc, ◌+◌, ◌^◌, ◌<◌, ◌≡◌, ap, sym, ◌∙◌, arith, List, [], ◌∷◌, ◌++◌, length, take, drop,
  take-append,
}
use memif.Bytes.{to_le, of_le}
use mathlib.Core.List.{append_assoc}
use memif.Bytes.Endian.{of_le-to_le}
use memif.Message.{
  MsgHello, MsgInit, MsgAddRegion, MsgAddRing, MsgConnect, MsgConnected, MsgDisconnect, write_hello,
  write_init, write_add_region, write_add_ring, write_connect, write_connected, write_disconnect,
  read_hello, read_init, read_add_region, read_add_ring, read_connect, read_connected,
  read_disconnect,
}

pub drop-past : (n k : ℕ) (xs ys : List ℕ) → length xs ≡ n → drop (n + k) (xs ++ ys) ≡ drop k ys
drop-past zero k [] ys h = ap (λ n. drop n ys) (omega arith)
drop-past zero k (x ∷ xs) ys h = absurd (omega arith)
drop-past (suc n) k [] ys h = absurd (omega arith)
drop-past (suc n) k (x ∷ xs) ys h =
    let e : suc n + k ≡ suc (n + k) = omega arith in rw e (drop-past n k xs ys (omega arith))

pub take-first : (n : ℕ) (xs ys : List ℕ) → length xs ≡ n → take n (xs ++ ys) ≡ xs
take-first n xs ys h = ap (λ k. take k (xs ++ ys)) (sym h) ∙ take-append xs ys

-- The values fit their fields.
pub record IsHello (m : MsgHello) : Type 0 where
  pub name_len : length m.name ≡ 32
  pub min_fits : m.version_min < 256 ^ 2
  pub max_fits : m.version_max < 256 ^ 2
  pub region_fits : m.max_region < 256 ^ 2
  pub m2s_fits : m.max_ring_m2s < 256 ^ 2
  pub s2m_fits : m.max_ring_s2m < 256 ^ 2
  pub log2_fits : m.max_log2_ring_size < 256

pub record IsInit (m : MsgInit) : Type 0 where
  pub version_fits : m.version_number < 256 ^ 2
  pub id_fits : m.id < 256 ^ 4
  pub mode_fits : m.mode < 256
  pub secret_len : length m.secret ≡ 24
  pub name_len : length m.name ≡ 32

pub record IsAddRegion (m : MsgAddRegion) : Type 0 where
  pub index_fits : m.index < 256 ^ 2
  pub size_fits : m.size < 256 ^ 8

pub record IsAddRing (m : MsgAddRing) : Type 0 where
  pub flags_fits : m.flags < 256 ^ 2
  pub index_fits : m.index < 256 ^ 2
  pub region_fits : m.region < 256 ^ 2
  pub offset_fits : m.offset < 256 ^ 4
  pub log2_fits : m.ring_size_log2 < 256
  pub header_fits : m.private_hdr_size < 256 ^ 2

pub record IsDisconnect (m : MsgDisconnect) : Type 0 where
  pub code_fits : m.code < 256 ^ 4
  pub string_len : length m.string ≡ 96

-- What follows the name in a hello message.
abbrev pub hello_numbers : MsgHello → List ℕ
hello_numbers m =
    to_le 2 m.version_min
    ++ (to_le 2 m.version_max
        ++ (to_le 2 m.max_region
            ++ (to_le 2 m.max_ring_m2s
                ++ (to_le 2 m.max_ring_s2m ++ to_le 1 m.max_log2_ring_size))))

module _ (rest : List ℕ) where
  read_hello-write_hello : (m : MsgHello) → IsHello m → read_hello (write_hello m ++ rest) ≡ m
  unfolding read_hello write_hello
  read_hello-write_hello m v = ap read_hello (append_assoc m.name (hello_numbers m) rest) ∙ (λ i.
      record {
        name = take-first 32 m.name (hello_numbers m ++ rest) v.name_len i;
        version_min =
            (ap (λ t. of_le (take 2 t)) (past 0) ∙ of_le-to_le 2 m.version_min v.min_fits) i;
        version_max =
            (ap (λ t. of_le (take 2 t)) (past 2) ∙ of_le-to_le 2 m.version_max v.max_fits) i;
        max_region =
            (ap (λ t. of_le (take 2 t)) (past 4) ∙ of_le-to_le 2 m.max_region v.region_fits) i;
        max_ring_m2s =
            (ap (λ t. of_le (take 2 t)) (past 6) ∙ of_le-to_le 2 m.max_ring_m2s v.m2s_fits) i;
        max_ring_s2m =
            (ap (λ t. of_le (take 2 t)) (past 8) ∙ of_le-to_le 2 m.max_ring_s2m v.s2m_fits) i;
        max_log2_ring_size =
            (ap (λ t. of_le (take 1 t)) (past 10) ∙ of_le-to_le 1 m.max_log2_ring_size v.log2_fits)
              i;
      })
    where
      past :
          (k : ℕ)
          → drop (32 + k) (m.name ++ (hello_numbers m ++ rest)) ≡ drop k (hello_numbers m ++ rest)
      past k = drop-past 32 k m.name (hello_numbers m ++ rest) v.name_len

  read_init-write_init : (m : MsgInit) → IsInit m → read_init (write_init m ++ rest) ≡ m
  unfolding read_init write_init
  read_init-write_init m v = λ i. record {
    version_number = of_le-to_le 2 m.version_number v.version_fits i;
    id = of_le-to_le 4 m.id v.id_fits i;
    mode = of_le-to_le 1 m.mode v.mode_fits i;
    secret =
        (ap (take 24) (append_assoc m.secret m.name rest)
            ∙ take-first 24 m.secret (m.name ++ rest) v.secret_len)
          i;
    name =
        (ap (λ t. take 32 (drop 24 t)) (append_assoc m.secret m.name rest)
            ∙ ap (take 32) (drop-past 24 0 m.secret (m.name ++ rest) v.secret_len)
            ∙ take-first 32 m.name rest v.name_len)
          i;
  }

  read_add_region-write_add_region :
      (m : MsgAddRegion) → IsAddRegion m → read_add_region (write_add_region m ++ rest) ≡ m
  unfolding read_add_region write_add_region
  read_add_region-write_add_region m v = λ i. record {
    index = of_le-to_le 2 m.index v.index_fits i;
    size = of_le-to_le 8 m.size v.size_fits i;
  }

  read_add_ring-write_add_ring :
      (m : MsgAddRing) → IsAddRing m → read_add_ring (write_add_ring m ++ rest) ≡ m
  unfolding read_add_ring write_add_ring
  read_add_ring-write_add_ring m v = λ i. record {
    flags = of_le-to_le 2 m.flags v.flags_fits i;
    index = of_le-to_le 2 m.index v.index_fits i;
    region = of_le-to_le 2 m.region v.region_fits i;
    offset = of_le-to_le 4 m.offset v.offset_fits i;
    ring_size_log2 = of_le-to_le 1 m.ring_size_log2 v.log2_fits i;
    private_hdr_size = of_le-to_le 2 m.private_hdr_size v.header_fits i;
  }

  read_connect-write_connect :
      (m : MsgConnect) → length m.name ≡ 32 → read_connect (write_connect m ++ rest) ≡ m
  unfolding read_connect write_connect
  read_connect-write_connect m h = λ i. record { name = take-first 32 m.name rest h i }

  read_connected-write_connected :
      (m : MsgConnected) → length m.name ≡ 32 → read_connected (write_connected m ++ rest) ≡ m
  unfolding read_connected write_connected
  read_connected-write_connected m h = λ i. record { name = take-first 32 m.name rest h i }

  read_disconnect-write_disconnect :
      (m : MsgDisconnect) → IsDisconnect m → read_disconnect (write_disconnect m ++ rest) ≡ m
  unfolding read_disconnect write_disconnect
  read_disconnect-write_disconnect m v = λ i. record {
    code = of_le-to_le 4 m.code v.code_fits i;
    string = take-first 96 m.string rest v.string_len i;
  }

-- Each struct that is read from a datagram, behind the two bytes of its type, is the struct that
-- was written there, if its numbers fit their widths and its arrays have their lengths; what
-- follows it in the datagram does not matter.
pub read-write :
    (header rest : List ℕ) (hello : MsgHello) (init : MsgInit) (region : MsgAddRegion)
    (ring : MsgAddRing) (connect : MsgConnect) (connected : MsgConnected)
    (disconnect : MsgDisconnect)
    → length header ≡ 2
    → IsHello hello
    → IsInit init
    → IsAddRegion region
    → IsAddRing ring
    → length connect.name ≡ 32
    → length connected.name ≡ 32
    → IsDisconnect disconnect
    → (read_hello (drop 2 (header ++ (write_hello hello ++ rest))) ≡ hello)
      × (read_init (drop 2 (header ++ (write_init init ++ rest))) ≡ init)
      × (read_add_region (drop 2 (header ++ (write_add_region region ++ rest))) ≡ region)
      × (read_add_ring (drop 2 (header ++ (write_add_ring ring ++ rest))) ≡ ring)
      × (read_connect (drop 2 (header ++ (write_connect connect ++ rest))) ≡ connect)
      × (read_connected (drop 2 (header ++ (write_connected connected ++ rest))) ≡ connected)
      × (read_disconnect (drop 2 (header ++ (write_disconnect disconnect ++ rest))) ≡ disconnect)
read-write header rest hello init region ring connect connected disconnect h v₁ v₂ v₃ v₄ v₅ v₆ v₇ =
    (
      ap read_hello (drop-past 2 0 header _ h) ∙ read_hello-write_hello rest hello v₁,
      ap read_init (drop-past 2 0 header _ h) ∙ read_init-write_init rest init v₂,
      ap read_add_region (drop-past 2 0 header _ h)
          ∙ read_add_region-write_add_region rest region v₃,
      ap read_add_ring (drop-past 2 0 header _ h) ∙ read_add_ring-write_add_ring rest ring v₄,
      ap read_connect (drop-past 2 0 header _ h) ∙ read_connect-write_connect rest connect v₅,
      ap read_connected (drop-past 2 0 header _ h)
          ∙ read_connected-write_connected rest connected v₆,
      ap read_disconnect (drop-past 2 0 header _ h)
          ∙ read_disconnect-write_disconnect rest disconnect v₇,
    )

-- An init message behind its type, followed by anything.
pub read_init-sent :
    (header : List ℕ) (m : MsgInit) (rest : List ℕ)
    → length header ≡ 2
    → IsInit m
    → read_init (drop 2 ((header ++ write_init m) ++ rest)) ≡ m
read_init-sent header m rest h v =
    ap (λ xs. read_init (drop 2 xs)) (append_assoc header (write_init m) rest)
    ∙ (ap read_init (drop-past 2 0 header _ h) ∙ read_init-write_init rest m v)

-- The same for an add-ring message.
pub read_add_ring-sent :
    (header : List ℕ) (m : MsgAddRing) (rest : List ℕ)
    → length header ≡ 2
    → IsAddRing m
    → read_add_ring (drop 2 ((header ++ write_add_ring m) ++ rest)) ≡ m
read_add_ring-sent header m rest h v =
    ap (λ xs. read_add_ring (drop 2 xs)) (append_assoc header (write_add_ring m) rest)
    ∙ (ap read_add_ring (drop-past 2 0 header _ h) ∙ read_add_ring-write_add_ring rest m v)

-- The same for an add-region message.
pub read_add_region-sent :
    (header : List ℕ) (m : MsgAddRegion) (rest : List ℕ)
    → length header ≡ 2
    → IsAddRegion m
    → read_add_region (drop 2 ((header ++ write_add_region m) ++ rest)) ≡ m
read_add_region-sent header m rest h v =
    ap (λ xs. read_add_region (drop 2 xs)) (append_assoc header (write_add_region m) rest)
    ∙ (ap read_add_region (drop-past 2 0 header _ h) ∙ read_add_region-write_add_region rest m v)
