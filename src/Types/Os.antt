-- ===== src/Types/Os.antt =====
-- The system calls and client callbacks, as requests in the order in which they are made, and the
-- errors of memif-new/memif. The replies are a parameter: a function of the requests so far and of
-- the new one.
use Prim.Native.String.{String}
use memif.Prelude.{ℕ, List, Option}

pub data Call : Type 0 where
  -- write(2), with the bytes written
  write : ℕ → List ℕ → Call
  close : ℕ → Call
  eventfd : Call
  memfd_create : Call
  -- fcntl(fd, F_ADD_SEALS, F_SEAL_SHRINK)
  add_seals : ℕ → Call
  ftruncate : ℕ → ℕ → Call
  mmap : ℕ → ℕ → Call
  -- munmap(2) of the slice that the region with this descriptor was mapped to
  munmap : ℕ → Call
  -- socket(AF_UNIX, SOCK_SEQPACKET, 0)
  unix_socket : Call
  set_pass_cred : ℕ → Call
  bind : ℕ → List ℕ → Call
  listen : ℕ → Call
  connect : ℕ → List ℕ → Call
  accept : ℕ → Call
  epoll_create : Call
  epoll_add : ℕ → Call
  epoll_del : ℕ → Call
  -- recvmsg(2) on a control channel: the reply is the size of the message
  recvmsg : ℕ → Call
  -- sendmsg(2): the socket, the bytes behind the message's address, the descriptor passed
  sendmsg : ℕ → List ℕ → Option ℕ → Call
  remove : List ℕ → Call
  -- the callbacks of the interface with this reference
  connected_func : ℕ → Call
  disconnected_func : ℕ → Call

-- The errors that the package makes itself, and those of system calls and callbacks. The texts
-- that `fmt.Errorf` puts around an error are kept.
pub data Error : Type 0 where
  failed : Call → Error
  context : String → Error → Error
  message : String → Error
  -- an error, and the one met while closing the channel for it
  close_failed : Error → Error → Error
  -- "invalid message size %d" and "unknown message %d"
  invalid_message_size : ℕ → Error
  unknown_message : ℕ → Error

-- A control message as `syscall` parses it: the descriptors of an SCM_RIGHTS message (`none` where
-- ParseUnixRights fails), or a message of another kind.
pub data Cmsg : Type 0 where
  rights : Option (List ℕ) → Cmsg
  other : Cmsg

-- What recvmsg(2) delivers: the bytes, and the control messages (`none` where
-- ParseSocketControlMessage fails).
pub record Datagram : Type 0 where
  pub payload : List ℕ
  pub control : Option (List Cmsg)

-- `reply` is `none` for an error, or the value returned. `mapped` is what mmap(2) shows of a file.
-- `behind` is the memory that follows a message's buffer, and `text` is `err.Error()`.
pub record Os : Type 0 where
  pub reply : List Call → Call → Option ℕ
  pub mapped : List Call → ℕ → ℕ → List ℕ
  pub received : List Call → ℕ → Datagram
  pub behind : List Call → List ℕ
  pub text : Error → List ℕ
