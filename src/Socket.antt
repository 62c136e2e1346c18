-- ===== src/Socket.antt =====
-- The state of a memif socket and all that hangs on it (memif-new/memif/control_channel.go,
-- interface.go), and the monad in which its operations run. Interfaces and control channels are
-- references into two stores, since the socket's lists, the interfaces and the channels share them.
pub mod Keeps
pub mod Ends
use Prim.Native.String.{String}
use memif.Prelude.{ℕ, Bool, true, false, List, [], ◌∷◌, ◌++◌, Option, none, some, get_elem?, set}
use memif.Types.{Interface}
use memif.Types.Os.{Os, Call, Error, failed, context, message, Cmsg}

-- `controlMsg`. `none` is the descriptor -1.
pub record ControlMsg : Type 0 where
  pub buffer : List ℕ
  pub fd : Option ℕ

-- `controlChannel`: `event.Fd`, its interface, and the last datagram with its control messages.
pub record ControlChannel : Type 0 where
  pub fd : ℕ
  pub i : Option ℕ
  pub payload : List ℕ
  pub control : Option (List Cmsg)
  pub msg_queue : List ControlMsg
  pub is_connected : Bool

-- `Socket`, the two stores, and the requests to the system so far. `listener` is its descriptor.
pub record Socket : Type 0 where
  pub app_name : List ℕ
  pub filename : List ℕ
  pub listener : Option ℕ
  pub interface_list : List ℕ
  pub cc_list : List ℕ
  pub wake_fd : ℕ
  pub epfd : ℕ
  pub interfaces : List Interface
  pub channels : List ControlChannel
  pub calls : List Call

-- What a call leaves: a value, an error, or a run-time panic. State changes made before an error
-- stay.
pub data Outcome {ℓ} (A : Type ℓ) : Type ℓ where
  done : A → Socket → Outcome A
  fail : Error → Socket → Outcome A
  panic : Outcome A

abbrev pub M {ℓ} : Type ℓ → Type ℓ
M A = Socket → Outcome A

module _ {ℓ} {A : Type ℓ} where
  unfoldable pub return : A → M A
  return a s = done a s

  unfoldable pub throw : Error → M A
  throw e s = fail e s

  -- `if err != nil { return fmt.Errorf(text, err) }`
  unfoldable pub wrap : String → M A → M A
  wrap text m s = elim (m s) [
    | done a s' ↦ done a s'
    | fail e s' ↦ fail (context text e) s'
    | panic ↦ panic
  ]

  -- A call whose error is dropped.
  unfoldable pub ignore : M A → M (Unit {0})
  ignore m s = elim (m s) [ done a s' ↦ done tt s' | fail e s' ↦ done tt s' | panic ↦ panic ]

  -- A Go index or nil dereference: `none` panics.
  unfoldable pub deref : Option A → M A
  deref none s = panic
  deref (some a) s = done a s

-- `if err != nil { return err }` after every step. Opening it opens the steps above.
infixl 5 ◌>>=◌ ◌>>◌
unfoldable pub ◌>>=◌ {ℓ κ} : {A : Type ℓ} {B : Type κ} → M A → (A → M B) → M B
unfolding return throw wrap ignore deref
◌>>=◌ m f s = elim (m s) [ done a s' ↦ f a s' | fail e s' ↦ fail e s' | panic ↦ panic ]

abbrev pub ◌>>◌ {ℓ} : {B : Type ℓ} → M (Unit {0}) → M B → M B
m >> k = m >>= λ _. k

-- A request to the system, and its reply.
unfoldable pub sys : Os → Call → M ℕ
sys os c s =
    let s' : Socket = record s { calls = s.calls ++ (c ∷ []) } in
    elim (os.reply s.calls c) [ none ↦ fail (failed c) s' | some v ↦ done v s' ]

unfoldable pub sys_ : Os → Call → M (Unit {0})
unfolding sys ◌>>=◌
sys_ os c = do _ ← sys os c; return tt

-- The interface and the control channel behind a reference.
unfoldable pub get_interface : ℕ → M Interface
unfolding deref
get_interface i s = deref (get_elem? s.interfaces i) s

unfoldable pub put_interface : ℕ → Interface → M (Unit {0})
put_interface i x s = done tt (record s { interfaces = set s.interfaces i x })

unfoldable pub get_channel : ℕ → M ControlChannel
unfolding deref
get_channel c s = deref (get_elem? s.channels c) s

unfoldable pub put_channel : ℕ → ControlChannel → M (Unit {0})
put_channel c x s = done tt (record s { channels = set s.channels c x })

-- `cc.i`, where the code dereferences it.
unfoldable pub channel_interface : ℕ → M ℕ
unfolding get_channel ◌>>=◌
channel_interface c = do x ← get_channel c; deref x.i

-- addEvent and delEvent
unfoldable pub add_event : Os → ℕ → M (Unit {0})
add_event os fd = wrap "EpollCtl: %s" (sys_ os (Call.epoll_add fd))

unfoldable pub del_event : Os → ℕ → M (Unit {0})
del_event os fd = wrap "EpollCtl: %s" (sys_ os (Call.epoll_del fd))

-- The socket's list of interfaces.
unfoldable pub interface_refs : M (List ℕ)
interface_refs s = done s.interface_list s
