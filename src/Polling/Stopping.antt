-- ===== src/Polling/Stopping.antt =====
-- What a client may rely on when it stops polling.
use memif.Prelude.{ℕ, ◌≡◌, [], arith, true, false, none, ◌⊎◌, inl, inr}
use memif.Types.Os.{Os}
use memif.Socket.{Socket}
use memif.Polling.{
  nil, closed, Poller, idle, selecting, waiting, handling, gone, absent, blocked, returned, Polling,
  start_polling, select, poll_failed, handle_reported, write_wake, wake, stop_polling, IsOver, Own,
  wait_over, at_select, woken_up, handle, Step, own, start, stop, report, break, Run, here, next,
}

-- A socket on which polling has not begun.
abbrev pub fresh : Socket → Polling
fresh s = record {
  socket = s;
  woken = false;
  chan = nil;
  poller = idle;
  stopper = absent;
  crashed = false;
  errors = [];
}

-- With no channel there is no goroutine; a call that waits has closed the channel and written the
-- eventfd; a call that has returned without an error left no goroutine.
pub record Sound (p : Polling) : Type 0 where
  pub unstarted : p.chan ≡ nil → IsOver p.poller
  pub closing : p.stopper ≡ blocked → p.chan ≡ closed
  pub waking : p.stopper ≡ blocked → p.woken ≡ true
  pub stopped : p.stopper ≡ returned none → IsOver p.poller

Step-Sound : {os : Os} {p r : Polling} → Step os p r → Sound p → Sound r
unfolding start_polling select poll_failed handle_reported write_wake wake stop_polling
Step-Sound (start a b e) h = ground arith
Step-Sound (stop a e) h = ground arith
Step-Sound (own (wait_over a b e)) h = ground arith
Step-Sound (own (at_select a e)) h = ground arith
Step-Sound (own (woken_up a b e)) h = ground arith
Step-Sound (report ev a b e) h = ground arith
Step-Sound (break err a e) h = ground arith
Step-Sound (own (handle ev a e)) h = ground arith

Run-Sound : {os : Os} {p r : Polling} → Run os p r → Sound p → Sound r
Run-Sound here h = h
Run-Sound (next r run up step) h = Step-Sound step (Run-Sound run h)

fresh-Sound : (s : Socket) → Sound (fresh s)
fresh-Sound s = ground arith

-- Once StopPolling has returned without an error, the goroutine does nothing more: in any state that
-- a run from a fresh socket leads to, every step is the client's next call of StartPolling or
-- StopPolling. Assumed, as Step says: the client calls from one goroutine, StartPolling only while
-- nothing polls, and takes every error from its channel.
pub stop_polling_quiet :
    (os : Os) (s : Socket) (p r : Polling)
    → Run os (fresh s) p
    → p.stopper ≡ returned none
    → Step os p r
    → (r ≡ start_polling p) ⊎ (r ≡ stop_polling os p)
stop_polling_quiet os s p r run back step =
    let over = (Run-Sound run (fresh-Sound s)).stopped back in quiet step over back
  where
    quiet :
        {os : Os} {p r : Polling}
        → Step os p r
        → IsOver p.poller
        → p.stopper ≡ returned none
        → (r ≡ start_polling p) ⊎ (r ≡ stop_polling os p)
    quiet (start a b e) over back = inl e
    quiet (stop a e) over back = inr e
    quiet (own (wait_over a b e)) over back = ground arith
    quiet (own (at_select a e)) over back = ground arith
    quiet (own (woken_up a b e)) over back = ground arith
    quiet (report ev a b e) over back = ground arith
    quiet (break err a e) over back = ground arith
    quiet (own (handle ev a e)) over back = ground arith

-- A call of StopPolling has returned without an error, or the process has crashed; or the process can
-- take a step by itself, and whatever step is taken leads to such a state again.
pub data Ends (os : Os) : Polling → Type 0 where
  back : {p : Polling} → p.stopper ≡ returned none → Ends os p
  crash : {p : Polling} → p.crashed ≡ true → Ends os p
  onward :
      {p : Polling} (r : Polling)
      → Own os p r
      → ((q : Polling) → Step os p q → Ends os q)
      → Ends os p

-- How many steps are left to the goroutine that finds its channel closed.
abbrev steps_left : Poller → ℕ
steps_left idle = 0
steps_left gone = 0
steps_left selecting = 1
steps_left (handling ev) = 2
steps_left waiting = 3
