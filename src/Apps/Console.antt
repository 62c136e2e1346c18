-- ===== src/Apps/Console.antt =====
-- The command line of the examples (memif-new/_examples/bridge/bridge.go and responder.go): how main
-- makes its interfaces, the commands read from the terminal, and the loop that prints errors. A printed
-- line is the list of the values that Println is given.
use Prim.Native.String.{String}
use memif.Prelude.{
  ℕ, ◌^◌, Bool, true, false, if◌then◌else◌, List, [], ◌∷◌, ◌++◌, Option, none, some, ◌==◌,
}
use memif.Types.{MemoryConfig}
use memif.Types.Os.{Os, Error}
use memif.Ring.{int}
use memif.Accessors.{
  is_master, get_remote_name, get_peer_name, get_name, get_memory_config, get_id, role_to_string,
}
use memif.Link.{is_connected}
use memif.Channel.Parse.{bytes_eq}
use memif.Lifecycle.{codes, new_socket, delete_socket}
use memif.Polling.{Polling, absent, blocked, returned, start_polling, stop_polling}
use memif.Apps.Start.{new_memif_interface}
use memif.Socket.{Socket, Outcome, done, fail, panic, M, ◌>>=◌, ◌>>◌, return, get_interface}

pub data Item : Type 0 where
  text : String → Item
  name : List ℕ → Item
  number : ℕ → Item
  error : Error → Item

abbrev pub Line : Type 0
Line = List Item

-- interractiveHelp
abbrev pub interractive_help : List Line
interractive_help =
    (text "help - print this help" ∷ [])
    ∷ (text "start - start connecting loop" ∷ [])
    ∷ (text "show - print interface details" ∷ [])
    ∷ (text "exit - exit the application" ∷ [])
    ∷ []

-- The lines about a running configuration; the size of a ring is an int.
abbrev config_lines : MemoryConfig → List Line
config_lines mc =
    (text "queue pairs: " ∷ number mc.num_queue_pairs ∷ [])
    ∷ (text "ring size: " ∷ number (int (2 ^ mc.log2_ring_size)) ∷ [])
    ∷ (text "buffer size: " ∷ number mc.packet_buffer_size ∷ [])
    ∷ []

-- printMemifInterfaceDetails
unfoldable pub print_memif_interface_details : ℕ → M (List Line)
print_memif_interface_details i = do
  x ← get_interface i
  up ← is_connected i
  return (
      ((name (get_name x) ∷ text ":" ∷ [])
        ∷ (text "\trole: " ∷ name (role_to_string (is_master x)) ∷ [])
        ∷ (text "\tid: " ∷ number (get_id x) ∷ [])
        ∷ (text "\tlink: " ∷ text (if up then "up" else "down") ∷ [])
        ∷ (text "\tremote: " ∷ name (get_remote_name x) ∷ [])
        ∷ (text "\tpeer: " ∷ name (get_peer_name x) ∷ [])
        ∷ [])
      ++ (if up then config_lines (get_memory_config x) else []))

-- What `show` prints: of both interfaces of the bridge, and of the responder's.
unfoldable pub show_bridge : ℕ → ℕ → M (List Line)
show_bridge i0 i1 = do
  first ← print_memif_interface_details i0
  second ← print_memif_interface_details i1
  return (first ++ second)

unfoldable pub show_responder : ℕ → M (List Line)
show_responder i = do
  x ← get_interface i
  return (
      (text "remote: " ∷ name (get_remote_name x) ∷ [])
      ∷ (text "peer: " ∷ name (get_peer_name x) ∷ [])
      ∷ [])

-- The option -role.
unfoldable pub role_of : List ℕ → Option Bool
role_of role =
    if bytes_eq role (codes "slave")
    then some false
    else if bytes_eq role (codes "master")
    then some true
    else none

-- How far main gets before its loop. `gone_after` is main at its label exit: what Delete of the socket
-- has done.
pub data Started {ℓ} (A : Type ℓ) : Type ℓ where
  refused : Line → Started A
  gone_after : Line → Outcome (Unit {0}) → Started A
  running : A → Socket → Started A
  crashed : Started A

-- main up to its loop, with the interfaces that `make` makes for a role.
unfoldable pub start_main {ℓ} : {A : Type ℓ} → Os → List ℕ → List ℕ → (Bool → M A) → Started A
start_main os role socket_name make = elim (role_of role) [
  | none ↦ refused (text "Invalid role" ∷ [])
  | some is_master ↦ elim (new_socket os (codes "gomemif_example") socket_name []) [
    | fail e s ↦ refused (text "Failed to create socket: " ∷ error e ∷ [])
    | panic ↦ crashed
    | done _ s ↦ elim (make is_master s) [
      | done a s' ↦ running a s'
      | fail e s' ↦ gone_after (error e ∷ []) (delete_socket os s')
      | panic ↦ crashed
    ]
  ]
]

-- The interfaces of the bridge have the ids 0 and 1, that of the responder has 0.
unfoldable pub bridge_interfaces : Os → List ℕ → Bool → M (ℕ × ℕ)
bridge_interfaces os label is_master = do
  i0 ← new_memif_interface os 0 is_master label
  i1 ← new_memif_interface os 1 is_master label
  return (i0, i1)

pub data Command : Type 0 where
  help start show exit unknown : Command

-- `strings.Replace(text, "\\n", "", -1)`
unfoldable pub without_newlines : List ℕ → List ℕ
without_newlines [] = []
without_newlines (c ∷ cs) = if c == 10 then without_newlines cs else c ∷ without_newlines cs

unfoldable pub command_of : List ℕ → Command
command_of input =
    let line = without_newlines input in
    if bytes_eq line (codes "help")
    then help
    else if bytes_eq line (codes "start")
    then start
    else if bytes_eq line (codes "show")
    then show
    else if bytes_eq line (codes "exit")
    then exit
    else unknown

-- The goroutine that reads commands: what it has printed, whether it waits in StopPolling, and whether
-- it has closed the exit channel and returned.
pub record Console : Type 0 where
  pub polling : Polling
  pub printed : List Line
  pub stopping : Bool
  pub exited : Bool
  pub panicked : Bool

abbrev print : List Line → Console → Console
print ls c = record c { printed = c.printed ++ ls }

-- A round of its loop. The polling goroutine goes on beside it (memif.Polling).
unfoldable pub run_command : Os → M (List Line) → List ℕ → Console → Console
run_command os shown input c = elim (command_of input) [
  | help ↦ print interractive_help c
  | start ↦ record c { polling = start_polling c.polling }
  | show ↦ elim (shown c.polling.socket) [
    | done ls s ↦ print ls (record c { polling = record c.polling { socket = s } })
    | fail e s ↦ c
    | panic ↦ record c { panicked = true }
  ]
  | exit ↦ record c { polling = stop_polling os c.polling; stopping = true }
  | unknown ↦ print ((text "Unknown input" ∷ []) ∷ []) c
]

-- The rest of the command exit, once StopPolling has returned.
unfoldable pub finish_exit : Console → Console
finish_exit c = elim c.polling.stopper [
  | absent ↦ c
  | blocked ↦ c
  | returned none ↦ record c { exited = true }
  | returned (some e) ↦
      print ((text "Failed to stop polling: " ∷ error e ∷ []) ∷ []) (record c { exited = true })
]

-- What a round of the loop of main finds ready: the exit channel, an error on one of the error
-- channels, a closed one, or nothing.
pub data Found : Type 0 where
  at_exit : Found
  got_error : Error → Found
  at_closed quiet : Found

-- The loop of main over what its rounds find; at the exit channel the socket is deleted. `none` where
-- the loop goes on.
unfoldable pub main_loop : Os → List Found → List Line → M (Option (List Line))
main_loop os [] ls = return none
main_loop os (at_exit ∷ ts) ls = do delete_socket os; return (some ls)
main_loop os (got_error e ∷ ts) ls = main_loop os ts (ls ++ ((error e ∷ []) ∷ []))
main_loop os (at_closed ∷ ts) ls = main_loop os ts ls
main_loop os (quiet ∷ ts) ls = main_loop os ts ls
