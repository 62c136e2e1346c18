-- ===== src/Events/Invariant.antt =====
-- The list of control channels of a socket under any sequence of events.
use Prim.Native.String.{String}
use memif.Prelude.{
  In, In-append, length, length-append, ◌++◌, ℕ, inl, inr, sym, arith, Bool, true, false, List, [],
  ◌∷◌, Option, none, some, ◌==◌, if◌then◌else◌,
}
use memif.Types.Os.{Os, Error}
use memif.Channel.{msg_enq_hello}
use memif.Channel.Dispatch.{parse_msg}
use memif.Channel.Refs.{Distinct}
use memif.Channel.Closing.{Tidy, Tidy-free, close-Keeps-Tidy, parse_msg-Closed, Closed}
use memif.Setup.Frame.{frame_rules}
use memif.Channel.Frame.{send_msg-Keeps, enqueue-Keeps, app_name-Keeps}
use memif.Socket.{Socket, ControlChannel, Outcome, done, fail, panic, add_event}
use memif.Socket.Keeps.{
  Leaves, Keeps, keeps_rules, Keeps-add_event, Keeps-if, Keeps-bind, Keeps-return,
  Keeps-get_channel,
}
use memif.Events.{
  Event, push_channel, add_control_channel, datagram, receive, closed_error, handle_channel_event,
  close_listener, handle_listener_event, find_channel, handle_event, poll_event, poll_events,
}

Distinct-append : (n : ℕ) (ks : List ℕ) → (In n ks → ⊥) → Distinct ks → Distinct (ks ++ (n ∷ []))
Distinct-append n [] fresh h = (λ at. at, tt)
Distinct-append n (k ∷ ks) fresh (out, rest) = (
  λ at. elim (In-append k n ks at) [ inl old ↦ out old | inr e ↦ fresh (inl (sym e)) ],
  Distinct-append n ks (λ at. fresh (inr at)) rest,
)

push_channel-Keeps : (ch : ControlChannel) → Keeps Tidy (push_channel ch)
unfolding push_channel
push_channel-Keeps ch = record {
  at = λ s h. (
    Distinct-append (length s.channels) s.cc_list
        (λ at. let lt = h.1 (length s.channels) at in omega (arith, lt)) h.0,
    λ j at.
        let len = length-append s.channels (ch ∷ []) in
        elim (In-append j (length s.channels) s.cc_list at) [
          | inl old ↦ omega (arith, len, h.1 j old)
          | inr e ↦ omega (arith, len, e)
        ],
  );
}

add_event-Keeps : (os : Os) (fd : ℕ) → Keeps Tidy (add_event os fd)
add_event-Keeps = Keeps-add_event Tidy-free.calls

add_control_channel-Keeps :
    (os : Os) (fd : ℕ) (i : Option ℕ) → Keeps Tidy (add_control_channel os fd i)
unfolding add_control_channel
add_control_channel-Keeps os fd i = search (keeps_rules, add_event-Keeps, push_channel-Keeps)

datagram-Keeps : (os : Os) (fd : ℕ) → Keeps Tidy (datagram os fd)
unfolding datagram
datagram-Keeps os fd = record { at = λ s h. h }

receive-Keeps : (os : Os) (c : ℕ) → Keeps Tidy (receive os c)
unfolding receive
receive-Keeps os c = search (frame_rules, Tidy-free, datagram-Keeps) depth 16 fits 5000

closed_error-Keeps : (c : ℕ) (text : String) → Keeps Tidy (closed_error c text)
unfolding closed_error
closed_error-Keeps c text = search (frame_rules, Tidy-free) depth 10

Closed-Leaves : (c : ℕ) (o : Outcome (Unit {0})) → Closed c o → Leaves Tidy o
Closed-Leaves c (done _ s) h = h
Closed-Leaves c (fail e s) h = h.0
Closed-Leaves c panic h = tt

parse_msg-Keeps : (os : Os) (c : ℕ) → Keeps Tidy (parse_msg os c)
parse_msg-Keeps os c = record {
  at = λ s h. Closed-Leaves c (parse_msg os c s) (parse_msg-Closed os c s h);
}

handle_channel_event-Keeps :
    (os : Os) (c : ℕ) (ev : Event) → Keeps Tidy (handle_channel_event os c ev)
unfolding handle_channel_event
handle_channel_event-Keeps os c ev =
    search
      (
        frame_rules, Tidy-free, close-Keeps-Tidy, closed_error-Keeps, receive-Keeps,
        parse_msg-Keeps, send_msg-Keeps,
      )
      depth 20 fits 10000

close_listener-Keeps : (os : Os) (fd : ℕ) → Keeps Tidy (close_listener os fd)
unfolding close_listener
close_listener-Keeps os fd = search (frame_rules, Tidy-free) depth 10

msg_enq_hello-Keeps : (c : ℕ) → Keeps Tidy (msg_enq_hello c)
unfolding msg_enq_hello
msg_enq_hello-Keeps c =
    Keeps-bind _ _ (app_name-Keeps Tidy-free) λ name. enqueue-Keeps Tidy-free c _ _ _

handle_listener_event-Keeps :
    (os : Os) (fd : ℕ) (ev : Event) → Keeps Tidy (handle_listener_event os fd ev)
unfolding handle_listener_event
handle_listener_event-Keeps os fd ev =
    search
      (
        frame_rules, Tidy-free, close_listener-Keeps, add_control_channel-Keeps,
        msg_enq_hello-Keeps, send_msg-Keeps,
      )
      depth 20 fits 10000

find_channel-Keeps : (os : Os) (cs : List ℕ) (ev : Event) → Keeps Tidy (find_channel os cs ev)
unfolding find_channel
find_channel-Keeps os [] ev = search keeps_rules
find_channel-Keeps os (c ∷ cs) ev = Keeps-bind _ _ (Keeps-get_channel c) λ ch.
    Keeps-if (ch.fd == ev.fd) _ _ (handle_channel_event-Keeps os c ev) (find_channel-Keeps os cs ev)

event_of-Leaves :
    (os : Os) (ev : Event) (s : Socket) (l : Option ℕ)
    → Tidy s
    → Leaves Tidy (elim l [
      | none ↦ find_channel os s.cc_list ev s
      | some fd ↦
          (if fd == ev.fd then handle_listener_event os fd ev else find_channel os s.cc_list ev) s
    ])
event_of-Leaves os ev s none h = (find_channel-Keeps os s.cc_list ev).at s h
event_of-Leaves os ev s (some fd) h =
    (Keeps-if (fd == ev.fd) _ _ (handle_listener_event-Keeps os fd ev)
        (find_channel-Keeps os s.cc_list ev)).at
      s h

handle_event-Keeps : (os : Os) (ev : Event) → Keeps Tidy (handle_event os ev)
unfolding handle_event
handle_event-Keeps os ev = record { at = λ s h. event_of-Leaves os ev s s.listener h }

polled-Leaves :
    (wake : Bool) (o : Outcome (Unit {0})) (s : Socket)
    → Tidy s
    → Leaves Tidy o
    → Leaves {0} {A = Option Error} Tidy (
        if wake
        then done none s
        else elim o [ done _ s' ↦ done none s' | fail e s' ↦ done (some e) s' | panic ↦ panic ])
polled-Leaves true o s h k = h
polled-Leaves false (done _ s') s h k = k
polled-Leaves false (fail e s') s h k = k
polled-Leaves false panic s h k = tt

poll_event-Keeps : (os : Os) (ev : Event) → Keeps Tidy (poll_event os ev)
unfolding poll_event
poll_event-Keeps os ev = record {
  at = λ s h.
      polled-Leaves (ev.fd == s.wake_fd) (handle_event os ev s) s h
        ((handle_event-Keeps os ev).at s h);
}

poll_events-Keeps : (os : Os) (evs : List Event) → Keeps Tidy (poll_events os evs)
unfolding poll_events
poll_events-Keeps os [] = search keeps_rules
poll_events-Keeps os (ev ∷ evs) =
    Keeps-bind _ _ (poll_event-Keeps os ev)
      λ e. Keeps-bind _ _ (poll_events-Keeps os evs) λ es. Keeps-return (e ∷ es)

-- Whatever events come in and whatever the system answers, as long as no event makes the process
-- panic, the list of channels gets no reference twice and none to a channel that does not exist.
pub poll_events-Tidy :
    (os : Os) (evs : List Event) (s : Socket) → Tidy s → Leaves Tidy (poll_events os evs s)
poll_events-Tidy os evs s h = (poll_events-Keeps os evs).at s h
