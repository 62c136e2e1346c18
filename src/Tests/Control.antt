-- ===== src/Tests/Control.antt =====
-- Channels, events and interfaces of a socket.
use memif.Prelude.{
  All, ◌≢◌, ℕ, ◌≡◌, inl, inr, refl, arith, true, false, List, [], ◌∷◌, Option, some, none,
}
use memif.Types.{Interface, Arguments}
use memif.Types.Os.{Call, failed}
use memif.Channel.Dispatch.{parse_msg}
use memif.Channel.Sending.{send_times, send_times-fifo}
use memif.Channel.Closing.{Closed, Tidy, parse_msg-Closed}
use memif.Events.{Event, poll_events}
use memif.Events.Invariant.{poll_events-Tidy}
use memif.Link.{disconnect}
use memif.Link.Release.{disconnect-releases, disconnect-unmapped}
use memif.Queue.{region_bytes}
use memif.Lifecycle.Connecting.{new_channel, request_connection-links}
use memif.Lifecycle.{request_connection, new_interface}
use memif.Lifecycle.Registry.{Registry, new_interface-Registry}
use memif.Socket.{Socket, ControlMsg, done, fail}
use memif.Socket.Keeps.{Leaves}
use memif.Tests.Data.{channel, socket, quiet_os, slave, queue}

abbrev two_messages : List ControlMsg
two_messages =
    record { buffer = 1 ∷ 0 ∷ []; fd = none } ∷ record { buffer = 4 ∷ 0 ∷ []; fd = some 11 } ∷ []

abbrev sending_socket : Socket
sending_socket = socket slave (some 0) [] two_messages

send_times-fifo_example :
    send_times quiet_os 0 2 sending_socket
    ≡ done tt (record sending_socket {
      channels = channel (some 0) [] [] ∷ [];
      calls = Call.sendmsg 7 (1 ∷ 0 ∷ []) none ∷ Call.sendmsg 7 (4 ∷ 0 ∷ []) (some 11) ∷ [];
    })
send_times-fifo_example =
    send_times-fifo quiet_os (λ calls c. (0, refl)) two_messages 0 sending_socket
      (channel (some 0) [] two_messages) refl refl

-- A message of an unknown type.
abbrev unknown_socket : Socket
unknown_socket = socket slave (some 0) (99 ∷ 0 ∷ []) []

unknown-Tidy : Tidy unknown_socket
unknown-Tidy = (
  (λ at. at, tt),
  λ j at. elim at [ inl e ↦ omega (arith, e) | inr none_left ↦ absurd none_left ],
)

parse_msg-Closed_example : Closed 0 (parse_msg quiet_os 0 unknown_socket)
parse_msg-Closed_example = parse_msg-Closed quiet_os 0 unknown_socket unknown-Tidy

sending_socket-Registry : Registry sending_socket
sending_socket-Registry = record {
  inside = λ i at. elim at [ inl e ↦ omega (arith, e) | inr none_left ↦ absurd none_left ];
  unique = λ i j x y at_i at_j x_there y_there ids roles. elim at_i [
    | inl e ↦ elim at_j [ inl e₁ ↦ omega (arith, e, e₁) | inr none_left ↦ absurd none_left ]
    | inr none_left ↦ absurd none_left
  ];
}

abbrev new_arguments : Arguments
new_arguments = record slave.args { id = 4 }

new_interface-Registry_example :
    Leaves Registry (new_interface quiet_os new_arguments sending_socket)
new_interface-Registry_example =
    new_interface-Registry quiet_os new_arguments sending_socket sending_socket-Registry

-- A peer connects, and its channel then hangs up.
abbrev two_events : List Event
two_events =
    record { fd = 6; hup = false; err = false; readable = true }
    ∷ record { fd = 0; hup = true; err = false; readable = false }
    ∷ []

abbrev listening_socket : Socket
listening_socket = record unknown_socket { listener = some 6 }

poll_events-Tidy_example : Leaves Tidy (poll_events quiet_os two_events listening_socket)
poll_events-Tidy_example = poll_events-Tidy quiet_os two_events listening_socket unknown-Tidy

-- An interface that is linked, with a queue of each kind and one region.
abbrev linked_with : Option (List ℕ) → Interface
linked_with bytes = record slave {
  cc = some 0;
  regions = record { bytes = bytes; size = 2; fd = 5; packet_buffer_offset = 0 } ∷ [];
  tx_queues = queue ∷ [];
  rx_queues = record queue { interrupt_fd = 10 } ∷ [];
}

abbrev mapped_socket : Socket
mapped_socket = socket (linked_with (some (0 ∷ 0 ∷ []))) (some 0) [] []

abbrev unmapped_socket : Socket
unmapped_socket = socket (linked_with none) (some 0) [] []

mapped : All (λ r. region_bytes r ≢ []) (linked_with (some (0 ∷ 0 ∷ []))).regions
mapped = (λ e. cc e, tt)

disconnect-releases_example :
    disconnect quiet_os 0 mapped_socket
    ≡ done tt (record mapped_socket {
      interfaces = record slave { regions = [] } ∷ [];
      calls =
          Call.disconnected_func 0
          ∷ Call.close 9
          ∷ Call.close 10
          ∷ Call.munmap 5
          ∷ Call.close 5
          ∷ [];
    })
disconnect-releases_example =
    disconnect-releases quiet_os (λ calls c. (0, refl)) 0 0 (linked_with (some (0 ∷ 0 ∷ [])))
      mapped_socket refl refl mapped

disconnect-unmapped_example :
    disconnect quiet_os 0 unmapped_socket
    ≡ fail (failed (Call.munmap 5)) (record unmapped_socket {
      interfaces = record (linked_with none) { tx_queues = []; rx_queues = [] } ∷ [];
      calls = Call.disconnected_func 0 ∷ Call.close 9 ∷ Call.close 10 ∷ [];
    })
disconnect-unmapped_example =
    disconnect-unmapped quiet_os (λ calls c. (0, refl)) 0 0 (linked_with none)
      (record { bytes = none; size = 2; fd = 5; packet_buffer_offset = 0 }) [] unmapped_socket refl
      refl refl refl

abbrev idle_socket : Socket
idle_socket = socket slave none [] []

request_connection-links_example :
    (fd : ℕ) × (request_connection quiet_os 0 idle_socket
      ≡ done tt (record idle_socket {
        interfaces = record slave { cc = some 1 } ∷ [];
        channels = channel none [] [] ∷ new_channel fd 0 ∷ [];
        cc_list = 0 ∷ 1 ∷ [];
        calls = Call.unix_socket ∷ Call.connect fd (47 ∷ []) ∷ Call.epoll_add fd ∷ [];
      }))
request_connection-links_example =
    request_connection-links quiet_os (λ calls c. (0, refl)) 0 slave idle_socket refl refl

abbrev hang_up : Event
hang_up = record { fd = 7; hup = true; err = false; readable = false }
