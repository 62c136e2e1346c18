-- ===== src/Polling.antt =====
-- StartPolling and StopPolling of memif-new/memif/control_channel.go: the goroutine that polls, the
-- channel that ends it, and the wait for its end.
pub mod Stopping
use memif.Prelude.{
  ℕ, ◌≡◌, ◌≢◌, Bool, true, false, List, [], ◌∷◌, Option, none, some, ◌==◌, if◌then◌else◌, ◌⊎◌,
}
use memif.Types.Os.{Os, Call, Error, message, context}
use memif.Queue.{wake_bytes}
use memif.Socket.{Socket, Outcome, done, fail, panic, sys}
use memif.Events.{Event, poll_event}

-- `stopPollChan`.
pub data StopChan : Type 0 where
  nil opened closed : StopChan

-- Where the goroutine is: not started, at the select, in EpollWait, with an event that EpollWait
-- has reported, or at its end.
pub data Poller : Type 0 where
  idle selecting waiting : Poller
  handling : Event → Poller
  gone : Poller

-- Where the last call of StopPolling is: none since the start, at `wg.Wait`, or returned.
pub data Stopper : Type 0 where
  absent blocked : Stopper
  returned : Option Error → Stopper

pub record Polling : Type 0 where
  pub socket : Socket
  -- whether the eventfd of the wake event has been written: it is never read, and so stays readable
  pub woken : Bool
  pub chan : StopChan
  pub poller : Poller
  pub stopper : Stopper
  pub crashed : Bool
  -- what the client's error channel was sent, the last first
  pub errors : List Error

unfoldable pub start_polling : Polling → Polling
start_polling p = record p { chan = opened; poller = selecting; stopper = absent }

-- `select`: a closed channel is always ready.
unfoldable pub select : StopChan → Poller
select nil = waiting
select opened = waiting
select closed = gone

-- EpollWait returns with an error.
unfoldable pub poll_failed : Error → Polling → Polling
poll_failed e p = record p { poller = gone; errors = context "EpollWait: " e ∷ p.errors }

-- The body of the loop over the one event that is reported; its error goes to the client.
unfoldable pub handle_reported : Os → Event → Polling → Polling
handle_reported os ev p = elim (poll_event os ev p.socket) [
  | done none s ↦ record p { socket = s; poller = selecting }
  | done (some e) s ↦ record p {
    socket = s;
    poller = selecting;
    errors = context "handleEvent: " e ∷ p.errors;
  }
  | fail e s ↦ record p {
    socket = s;
    poller = selecting;
    errors = context "handleEvent: " e ∷ p.errors;
  }
  | panic ↦ record p { crashed = true }
]

-- A write of the eight bytes makes the eventfd readable.
unfoldable pub write_wake : Os → Polling → Outcome ℕ × Polling
write_wake os p = elim (sys os (Call.write p.socket.wake_fd wake_bytes) p.socket) [
  | done n s ↦ (done n s, record p { socket = s; woken = if n == 8 then true else p.woken })
  | fail e s ↦ (fail e s, record p { socket = s })
  | panic ↦ (panic, p)
]

-- Wake the goroutine, once the channel is closed.
unfoldable pub wake : Os → Polling → Polling
wake os p =
    let (written, r) = write_wake os p in
    elim written [
      | done n s ↦ record r {
        stopper = if n == 8 then blocked else returned (some (message "Faild to write to eventfd"));
      }
      | fail e s ↦ record r { stopper = returned (some e) }
      | panic ↦ record r { crashed = true }
    ]

-- StopPolling up to the wait. Closing a closed channel panics.
unfoldable pub stop_polling : Os → Polling → Polling
stop_polling os p = elim p.chan [
  | nil ↦ record p { stopper = returned none }
  | opened ↦ wake os (record p { chan = closed })
  | closed ↦ record p { crashed = true }
]

-- The goroutine does not run.
abbrev pub IsOver : Poller → Type 0
IsOver idle = Unit
IsOver selecting = ⊥
IsOver waiting = ⊥
IsOver (handling ev) = ⊥
IsOver gone = Unit

-- No call of StopPolling is under way.
abbrev pub IsFree : Stopper → Type 0
IsFree absent = Unit
IsFree blocked = ⊥
IsFree (returned e) = Unit

-- What EpollWait reports for the wake event.
abbrev pub wake_event : Polling → Event
wake_event p = record { fd = p.socket.wake_fd; hup = false; err = false; readable = true }

-- A step that the process takes by itself, whatever the client and the peers do. EpollWait returns by
-- itself only if the eventfd of the wake event is readable.
pub data Own (os : Os) (p r : Polling) : Type 0 where
  wait_over :
      p.stopper ≡ blocked → IsOver p.poller → r ≡ record p { stopper = returned none } → Own os p r
  at_select : p.poller ≡ selecting → r ≡ record p { poller = select p.chan } → Own os p r
  woken_up :
      p.poller ≡ waiting
      → p.woken ≡ true
      → r ≡ record p { poller = handling (wake_event p) }
      → Own os p r
  handle : (ev : Event) → p.poller ≡ handling ev → r ≡ handle_reported os ev p → Own os p r

-- Any step. The client calls from one goroutine, StartPolling only while none polls, and takes every
-- error from its channel; a peer may make EpollWait report another event, and EpollWait may fail.
pub data Step (os : Os) (p r : Polling) : Type 0 where
  own : Own os p r → Step os p r
  start : IsFree p.stopper → IsOver p.poller → r ≡ start_polling p → Step os p r
  stop : IsFree p.stopper → r ≡ stop_polling os p → Step os p r
  report :
      (ev : Event)
      → p.poller ≡ waiting
      → ev.fd ≢ p.socket.wake_fd
      → r ≡ record p { poller = handling ev }
      → Step os p r
  break : (e : Error) → p.poller ≡ waiting → r ≡ poll_failed e p → Step os p r

-- A run of a process that has not crashed.
pub data Run (os : Os) (p : Polling) : Polling → Type 0 where
  here : Run os p p
  next : {q : Polling} (r : Polling) → Run os p q → q.crashed ≡ false → Step os q r → Run os p r
