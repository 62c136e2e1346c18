-- ===== src/Tests/Polls.antt =====
-- Polling that is started and stopped.
use memif.Prelude.{◌≡◌, ◌⊎◌, refl, ap, sym, false, none, some, []}
use memif.Types.Os.{Os}
use memif.Socket.{Socket, sys}
use memif.Polling.{
  Polling, Poller, selecting, gone, blocked, returned, select, start_polling, stop_polling, wake,
  write_wake, own, start, stop, at_select, wait_over, Run, here, next,
}
use memif.Polling.Stopping.{fresh, stop_polling_quiet}
use memif.Tests.Data.{quiet_os, socket, interface_with}

-- A system on which eight bytes are written.
abbrev writing_os : Os
writing_os = record quiet_os { reply = λ calls c. some 8 }

abbrev unpolled : Socket
unpolled = socket (interface_with false []) none [] []

abbrev started : Polling
started = start_polling (fresh unpolled)

abbrev stopping : Polling
stopping = stop_polling writing_os started

run_stopping : Run writing_os (fresh unpolled) stopping
unfolding start_polling
run_stopping = next stopping (next started here refl (start tt tt refl)) refl (stop tt refl)

stopping_waits : stopping.stopper ≡ blocked
unfolding stop_polling start_polling wake write_wake sys
stopping_waits = refl

-- The goroutine is at its end, and the call has returned.
abbrev over : Polling
over = record stopping { poller = gone; stopper = returned none }

stopping_lem :
    (stopping.crashed ≡ false) × (stopping.poller ≡ selecting) × (select stopping.chan ≡ gone)
unfolding stop_polling start_polling wake write_wake sys select
stopping_lem = (refl, refl, refl)

run_over : Run writing_os (fresh unpolled) over
run_over =
    let (up, polling, left) = stopping_lem in
    next over
      (next (record stopping { poller = gone }) run_stopping up
        (own (at_select polling (ap (λ (x : Poller). record stopping { poller = x }) (sym left)))))
      up (own (wait_over stopping_waits tt refl))

stop_polling_quiet_example :
    (start_polling over ≡ start_polling over) ⊎ (start_polling over ≡ stop_polling writing_os over)
stop_polling_quiet_example =
    stop_polling_quiet writing_os unpolled over (start_polling over) run_over refl
      (start tt tt refl)
