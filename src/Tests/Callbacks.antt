-- ===== src/Tests/Callbacks.antt =====
-- Connected and Disconnected of the examples.
use memif.Prelude.{◌≡◌, refl, true, false}
use memif.Apps.Callbacks.{
  AllDone, InterfaceData, held, connected, close_errors, disconnected, connect, disconnect,
  still_held, Moves, none_yet, then,
}
use memif.Apps.Callbacks.Leaving.{untouched, Leaves, disconnected-Leaves, disconnected_hangs}

abbrev leaving : InterfaceData
leaving = disconnected (connected (untouched true))

leaving_lem : (leaving.disconnecting ≡ true) × (leaving.other_up ≡ true) × AllDone leaving.strays
unfolding connected close_errors disconnected
leaving_lem = (refl, refl, (tt, tt))

leaving_run : Moves (untouched true) leaving
unfolding connected
leaving_run =
    then leaving (then (connected (untouched true)) none_yet refl (connect refl refl)) refl
      (disconnect refl refl)

disconnected-Leaves_example : Leaves leaving
disconnected-Leaves_example =
    disconnected-Leaves true leaving leaving_run leaving_lem.0 leaving_lem.1 leaving_lem.2

-- The bridged interface is not connected yet.
abbrev hanging : InterfaceData
hanging = disconnected (record (connected (untouched false)) { relayer = held })

hanging_lem :
    (hanging.relayer ≡ held)
    × (hanging.disconnecting ≡ true)
    × (hanging.other_up ≡ false)
    × (hanging.crashed ≡ false)
unfolding connected close_errors disconnected
hanging_lem = (refl, refl, refl, refl)

disconnected_hangs_example : hanging ≡ hanging
disconnected_hangs_example =
    disconnected_hangs hanging hanging
      (then hanging none_yet hanging_lem.3 (still_held hanging_lem.0 hanging_lem.2 refl))
      hanging_lem.0 hanging_lem.1 hanging_lem.2
