-- ===== src/Accessors.antt =====
-- The accessors of an interface, a queue and a socket (memif-new/memif/interface.go).
use memif.Prelude.{ℕ, Bool, List, [], ◌∷◌, if◌then◌else◌}
use memif.Types.{Interface, Queue, MemoryConfig}
use memif.Socket.{Socket, M, return}

unfoldable pub is_master : Interface → Bool
is_master x = x.args.is_master

unfoldable pub get_remote_name : Interface → List ℕ
get_remote_name x = x.remote_name

unfoldable pub get_peer_name : Interface → List ℕ
get_peer_name x = x.peer_name

unfoldable pub get_name : Interface → List ℕ
get_name x = x.args.name

unfoldable pub get_memory_config : Interface → MemoryConfig
get_memory_config x = x.run

-- Its error is nil always.
unfoldable pub get_event_fd : Queue → M ℕ
get_event_fd q = return q.interrupt_fd

unfoldable pub get_filename : Socket → List ℕ
get_filename s = s.filename

unfoldable pub get_id : Interface → ℕ
get_id x = x.args.id

-- "Master" or "Slave".
unfoldable pub role_to_string : Bool → List ℕ
role_to_string is_master =
    if is_master then 77 ∷ 97 ∷ 115 ∷ 116 ∷ 101 ∷ 114 ∷ [] else 83 ∷ 108 ∷ 97 ∷ 118 ∷ 101 ∷ []
