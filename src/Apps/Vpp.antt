-- ===== src/Apps/Vpp.antt =====
-- The command memif-attach (memif-attach/main.go): its requests to VPP, and what it sends. The
-- binary API of VPP is a parameter. What it logs is not modelled, but for the texts with which it ends.
use Prim.Native.String.{String}
use memif.Prelude.{
  subst, ltb, length, length-take, le→ltb, ◌≤◌, drop, ℕ, ◌≡◌, refl, Bool, true, false,
  if◌then◌else◌, List, [], ◌∷◌, ◌++◌, Option, none, some, arith,
}
use memif.Lifecycle.{codes}
use memif.Apps.Attach.{
  HelloMsg, hello_size, handle_hello_msg, init_msg, write_init_msg, encode_init_msg, send_init_msg,
}

-- MemifRole, of which `MEMIF_ROLE_API_MASTER` is the first.
pub data Role : Type 0 where
  api_master api_slave : Role

pub data Request : Type 0 where
  memif_socket_filename_add_del : Bool → ℕ → List ℕ → Request
  memif_create : Role → ℕ → Request
  -- with IF_STATUS_API_FLAG_ADMIN_UP
  sw_interface_set_flags : ℕ → Request
  memif_dump : Request

-- The reply to a request after those before it, `none` for an error; of MemifCreate it is the
-- interface's index.
abbrev pub Vpp : Type 0
Vpp = List Request → Request → Option ℕ

-- The command goes on; or logs a text and ends; or waits for ever for VPP's error channel, with what its
-- connection has been sent. The requests so far.
pub data Result {ℓ} (A : Type ℓ) : Type ℓ where
  goes : A → List Request → Result A
  fatal : String → List Request → Result A
  waits : List ℕ → List Request → Result A

abbrev pub V {ℓ} : Type ℓ → Type ℓ
V A = List Request → Result A

infixl 5 ◌>>=◌ ◌>>◌
abbrev pub ◌>>=◌ {ℓ κ} : {A : Type ℓ} {B : Type κ} → V A → (A → V B) → V B
◌>>=◌ m f rs = elim (m rs) [
  | goes a rs' ↦ f a rs'
  | fatal t rs' ↦ fatal t rs'
  | waits xs rs' ↦ waits xs rs'
]

abbrev pub ◌>>◌ {ℓ} : {B : Type ℓ} → V (Unit {0}) → V B → V B
m >> k = m >>= λ _. k

abbrev return {ℓ} : {A : Type ℓ} → A → V A
return a rs = goes a rs

-- An error ends the command with this text.
abbrev request : Vpp → Request → String → V ℕ
request vpp r text rs = elim (vpp rs r) [
  | none ↦ fatal text (rs ++ (r ∷ []))
  | some v ↦ goes v (rs ++ (r ∷ []))
]

abbrev or_fatal {ℓ} : {A : Type ℓ} → Option A → String → V A
or_fatal none text rs = fatal text rs
or_fatal (some a) text rs = goes a rs

abbrev pub vpp_socket_filename : List ℕ
vpp_socket_filename = codes "/var/run/vpp/memif1.sock"

unfoldable pub create_memif_socket : Vpp → V (ℕ × List ℕ)
create_memif_socket vpp = do
  _ ←
      request vpp (memif_socket_filename_add_del true 2 vpp_socket_filename)
        "ERROR: MemifSocketFilenameAddDel failed:"
  return (2, vpp_socket_filename)

-- The reply to SwInterfaceSetFlags is dropped: the error that is tested after it is the one before.
unfoldable pub create_memif : Vpp → ℕ → Bool → V (Unit {0})
create_memif vpp socket_id is_client = do
  index ←
      request vpp (memif_create (if is_client then api_master else api_slave) socket_id)
        "ERROR: memifCreate failed:"
  λ rs. goes tt (rs ++ (sw_interface_set_flags index ∷ []))

unfoldable pub dump_memif : Vpp → V (Unit {0})
dump_memif vpp = do _ ← request vpp memif_dump "ERROR: MemifDump failed:"; return tt

-- exitOnErrCh: an error that is there already ends the command.
unfoldable pub exit_on_err_ch : Option String → V (Unit {0})
exit_on_err_ch none = return tt
exit_on_err_ch (some e) = λ rs. fatal e rs

-- `<-vppErrCh`, the last receive: it returns if VPP's error channel is closed or has an error then.
unfoldable pub receive_end : Bool → List ℕ → V (List ℕ)
receive_end true sent rs = goes sent rs
receive_end false sent rs = waits sent rs

-- main, for the error that VPP's start has left, for what the master at a path delivers on a connection
-- (`none` where it is refused), and for whether VPP's error channel yields once the contexts are
-- cancelled. Its result are the bytes that the connection is sent.
unfoldable pub attach : Vpp → Option String → (List ℕ → Option (List ℕ)) → Bool → V (List ℕ)
attach vpp early dial yields = do
  exit_on_err_ch early
  (socket_id, socket_addr) ← create_memif_socket vpp
  create_memif vpp socket_id true
  dump_memif vpp
  bytes ← or_fatal (dial socket_addr) "ERROR: connect to VPP master failed:"
  hello ← or_fatal (handle_hello_msg bytes) "ERROR: read from VPP master hello message failed:"
  receive_end yields (send_init_msg hello)

-- The requests of a run that comes to its end.
abbrev pub requests : ℕ → List Request
requests index =
    memif_socket_filename_add_del true 2 vpp_socket_filename
    ∷ memif_create api_master 2
    ∷ sw_interface_set_flags index
    ∷ memif_dump
    ∷ []

taken : (b : Bool) (h h' : HelloMsg) → (if b then none else some h) ≡ some h' → h ≡ h'
taken true h h' e = absurd (ground (arith, e))
taken false h h' e = cc

name-lt :
    (xs : List ℕ) (hello : HelloMsg) → handle_hello_msg xs ≡ some hello → length hello.name ≤ 32
unfolding handle_hello_msg
name-lt xs hello read =
    let same = taken (ltb (length xs) hello_size) _ hello read in
    subst (λ (h : HelloMsg). length h.name ≤ 32) same (omega (arith, length-take 32 (drop 2 xs)))

nothing_sent :
    (xs : List ℕ) (hello : HelloMsg) → handle_hello_msg xs ≡ some hello → send_init_msg hello ≡ []
unfolding send_init_msg encode_init_msg write_init_msg init_msg
nothing_sent xs hello read =
    let short : length (encode_init_msg hello) ≤ 4096 = omega (arith, name-lt xs hello read) in
    rw (le→ltb 4096 (length (encode_init_msg hello)) short) refl

-- memif-attach ends without having sent an init message, and without having noticed whether VPP has set
-- up the new interface: with no error from VPP's start, replies to its other three requests and a full
-- hello message, it makes its four requests in order, whatever VPP replies to SwInterfaceSetFlags, and
-- its connection is sent no byte, since the message stays in a buffer that is not flushed, whether its
-- last receive, from VPP's error channel, returns or waits for ever.
pub attach_silent :
    (vpp : Vpp) (dial : List ℕ → Option (List ℕ)) (yields : Bool) (made index dumped : ℕ)
    (bytes : List ℕ) (hello : HelloMsg)
    → vpp [] (memif_socket_filename_add_del true 2 vpp_socket_filename) ≡ some made
    → vpp
        (memif_socket_filename_add_del true 2 vpp_socket_filename ∷ [])
        (memif_create api_master 2)
      ≡ some index
    → vpp
        (memif_socket_filename_add_del true 2 vpp_socket_filename
          ∷ memif_create api_master 2
          ∷ sw_interface_set_flags index
          ∷ [])
        memif_dump
      ≡ some dumped
    → dial vpp_socket_filename ≡ some bytes
    → handle_hello_msg bytes ≡ some hello
    → attach vpp none dial yields []
      ≡ (if yields then goes [] (requests index) else waits [] (requests index))
unfolding attach receive_end exit_on_err_ch create_memif_socket create_memif dump_memif
attach_silent vpp dial yields made index dumped bytes hello add create dump dialled read =
    ground (arith, add, create, dump, dialled, read, nothing_sent bytes hello read)
