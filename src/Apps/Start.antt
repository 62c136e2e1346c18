-- ===== src/Apps/Start.antt =====
-- How the examples get their interfaces: newMemifInterface of memif-new/_examples/bridge/bridge.go,
-- which the responder has in its main.
use memif.Prelude.{ℕ, zero, suc, replicate, Bool, true, false, List, if◌then◌else◌}
use memif.Types.{Arguments}
use memif.Types.Os.{Os}
use memif.Socket.{M, ◌>>=◌, ◌>>◌, return, wrap, get_interface}
use memif.Link.{is_connecting}
use memif.Lifecycle.{new_interface, request_connection}

-- `for !i.IsConnecting() { RequestConnection }`, with at most `n` tests of the condition; whether it
-- has ended.
unfoldable pub connect_loop : ℕ → Os → ℕ → M Bool
connect_loop zero os i = return false
connect_loop (suc n) os i = do
  x ← get_interface i
  if is_connecting x
      then return true
      else (do wrap "Faild to connect: " (request_connection os i); connect_loop n os i)

-- The arguments that the examples leave out are zero.
abbrev pub example_args : ℕ → Bool → List ℕ → List ℕ → Arguments
example_args id is_master name secret = record {
  id = id;
  is_master = is_master;
  name = name;
  secret = secret;
  memory_config = record { num_queue_pairs = 0; log2_ring_size = 0; packet_buffer_size = 0 };
}

-- newMemifInterface; two tests of the loop's condition are enough.
unfoldable pub new_memif_interface : Os → ℕ → Bool → List ℕ → M ℕ
new_memif_interface os id is_master name = do
  i ←
      wrap "Failed to create interface on socket %s: %s"
        (new_interface os (example_args id is_master name (replicate 24 0)))
  x ← get_interface i
  _ ← if x.args.is_master then return true else connect_loop 2 os i
  return i
