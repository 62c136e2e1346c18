-- ===== src/Events/HangUp.antt =====
-- What a hang up or an error event on a control channel leaves (handleEvent of
-- memif-new/memif/control_channel.go).
use Prim.Native.String.{String}
use memif.Prelude.{In, ℕ, ◌≡◌, ◌⊎◌, Bool, false, [], if◌then◌else◌}
use memif.Types.Os.{Os, Error, context, message}
use memif.Channel.{close}
use memif.Socket.{Socket, Outcome, done, fail, panic, ◌>>=◌, get_interface, channel_interface}
use memif.Events.{Event}

-- The texts of the two events, the hang up first: where closing fails, and where it succeeds.
abbrev pub close_failed : Event → String
close_failed ev =
    if ev.hup
    then "Failed to close control channel after hang up event: "
    else "Failed to close control channel after receiving an error event: "

abbrev pub event_text : Event → String
event_text ev = if ev.hup then "Hang up: " else "Received error event on control channel "

-- How a run that closes channel `c`, for the event `ev`, ends from the socket `s`: with the error of
-- the close, wrapped, in the socket that the close left; or, after a close without an error, with the
-- event's error, in the socket that the close left, the channel out of the list. It panics where the
-- close does, or where the closed channel has no interface to name.
abbrev pub Removed : Os → ℕ → Event → Socket → Outcome (Unit {0}) → Type 0
Removed os c ev s (done _ s') = ⊥
Removed os c ev s (fail e s') =
    ((e₁ : Error) × (close os c false [] s ≡ fail e₁ s') × (e ≡ context (close_failed ev) e₁))
    ⊎ ((close os c false [] s ≡ done tt s') × (e ≡ message (event_text ev)) × (In c s'.cc_list → ⊥))
Removed os c ev s panic =
    (close os c false [] s ≡ panic)
    ⊎ ((s' : Socket) × (close os c false [] s ≡ done tt s')
        × (In c s'.cc_list → ⊥)
        × ((channel_interface c >>= get_interface) s' ≡ panic))

abbrev event : ℕ → Bool → Bool → Bool → Event
event fd hup err readable = record { fd = fd; hup = hup; err = err; readable = readable }
