-- ===== src/Channel/Closing.antt =====
-- Closing a control channel (`close` and parseMsg of memif-new/memif/control_channel.go), and that
-- the handling of a message that ends with an error has closed the channel.
use memif.Prelude.{
  ◌<◌, length, get_elem?, In, ℕ, ◌≡◌, ◌⊎◌, inl, inr, refl, Bool, true, false, List, [], Option,
  none, some,
}
use memif.Types.Os.{Os, Error, close_failed, unknown_message}
use memif.Message.{
  MsgType, none_type, ack_type, hello_type, init_type, add_region_type, add_ring_type, connect_type,
  connected_type, disconnect_type,
}
use memif.Bytes.{read_le}
use memif.Channel.{remove_ref, msg_enq_ack, remove_channel, close_channel, close}
use memif.Channel.Refs.{In-remove_ref, Distinct, Distinct-remove_ref, remove_ref-out}
use memif.Channel.Parse.{parse_disconnect}
use memif.Channel.Dispatch.{on_message, or_close_channel, parse_msg, msg_type_of}
use memif.Socket.{
  Socket, ControlChannel, Outcome, done, fail, panic, M, ◌>>=◌, return, deref, get_channel, wrap,
  throw, del_event,
}
use memif.Socket.Keeps.{
  Leaves, Keeps, keeps_rules, Keeps-bind, Keeps-wrap, Keeps-get_channel, Keeps-return, Keeps-if,
}
use memif.Socket.Ends.{Ends, Succeeds, Ends-wrap, Ends-Keeps, Ends-bind}
use memif.Link.{disconnect}
use memif.Setup.Frame.{Insensitive, del_event-Keeps}
use memif.Link.Frame.{disconnect-Keeps}
use memif.Channel.Frame.{
  send_disconnect-Keeps, enqueue-Keeps, body-Keeps, on_hello-Keeps, parse_init-Keeps,
  parse_add_region-Keeps, parse_add_ring-Keeps, parse_connect-Keeps, parse_connected-Keeps,
  msg_enq_connected-Keeps,
}

-- The states in which the list has no reference twice, and only references to channels.
abbrev pub Tidy : Socket → Type 0
Tidy s = Distinct s.cc_list × ((j : ℕ) → In j s.cc_list → j < length s.channels)

pub Tidy-free : Insensitive Tidy
Tidy-free = record {
  calls = λ s cs h. h;
  interfaces = λ s xs h. h;
  channels = λ s xs e h. (h.0, λ j at. rw e (h.1 j at));
}

pub Tidy-removed :
    (c : ℕ) (s : Socket) → Tidy s → Tidy (record s { cc_list = remove_ref c s.cc_list })
Tidy-removed c s h =
    (Distinct-remove_ref c s.cc_list h.0, λ j at. h.1 j (In-remove_ref j c s.cc_list at))

abbrev drop_interface : Os → Option ℕ → M (Unit {0})
drop_interface os o = elim o [
  | none ↦ return tt
  | some i ↦ wrap "Interface Disconnect: " (disconnect os i)
]

-- The list is tidy, and the channel is not in it.
abbrev pub Out : ℕ → Socket → Type 0
Out c s = Tidy s × (In c s.cc_list → ⊥)

Out-free : (c : ℕ) → Insensitive (Out c)
Out-free c = record {
  calls = λ s cs h. h;
  interfaces = λ s xs h. h;
  channels = λ s xs e h. (Tidy-free.channels s xs e h.0, h.1);
}

remove_channel-Ends : (c : ℕ) → Ends Tidy (Out c) (remove_channel c)
unfolding remove_channel
remove_channel-Ends c = record { at = λ s h. (Tidy-removed c s h, remove_ref-out c s.cc_list h.0) }

drop_interface-Keeps : (os : Os) (c : ℕ) (o : Option ℕ) → Keeps (Out c) (drop_interface os o)
drop_interface-Keeps os c none = Keeps-return tt
drop_interface-Keeps os c (some i) =
    Keeps-wrap "Interface Disconnect: " (disconnect os i) (disconnect-Keeps (Out-free c) os i)

close_channel-Ends : (os : Os) (c : ℕ) → Ends Tidy (Out c) (close_channel os c)
unfolding close_channel
close_channel-Ends os c = Ends-bind Tidy _ _ (Ends-Keeps _ (Keeps-get_channel c)) λ ch.
    Ends-bind Tidy _ _
      (Ends-wrap "Failed to del event: " (del_event os ch.fd)
        (Ends-Keeps _ (del_event-Keeps Tidy-free os ch.fd)))
      λ _. Ends-bind (Out c) _ _ (remove_channel-Ends c) λ _.
        Ends-bind (Out c) _ _ (Ends-Keeps _ (Keeps-get_channel c))
          λ ch₁. Ends-Keeps _ (drop_interface-Keeps os c ch₁.i)

pub close-Ends : (os : Os) (c : ℕ) (b : Bool) (str : List ℕ) → Ends Tidy (Out c) (close os c b str)
unfolding close
close-Ends os c b str =
    Ends-bind Tidy _ _
      (Ends-Keeps _ (Keeps-if b _ _ (send_disconnect-Keeps Tidy-free os c str) (Keeps-return tt)))
      λ _. close_channel-Ends os c

remove_channel-Keeps-Tidy : (c : ℕ) → Keeps Tidy (remove_channel c)
unfolding remove_channel
remove_channel-Keeps-Tidy c = record { at = λ s h. Tidy-removed c s h }

drop_interface-Keeps-Tidy : (os : Os) (o : Option ℕ) → Keeps Tidy (drop_interface os o)
drop_interface-Keeps-Tidy os none = Keeps-return tt
drop_interface-Keeps-Tidy os (some i) =
    Keeps-wrap "Interface Disconnect: " (disconnect os i) (disconnect-Keeps Tidy-free os i)

close_channel-Keeps-Tidy : (os : Os) (c : ℕ) → Keeps Tidy (close_channel os c)
unfolding close_channel
close_channel-Keeps-Tidy os c = Keeps-bind _ _ (Keeps-get_channel c) λ ch.
    Keeps-bind _ _
      (Keeps-wrap "Failed to del event: " (del_event os ch.fd) (del_event-Keeps Tidy-free os ch.fd))
      λ _.
        Keeps-bind _ _ (remove_channel-Keeps-Tidy c)
          λ _. Keeps-bind _ _ (Keeps-get_channel c) λ ch₁. drop_interface-Keeps-Tidy os ch₁.i

pub close-Keeps-Tidy : (os : Os) (c : ℕ) (b : Bool) (str : List ℕ) → Keeps Tidy (close os c b str)
unfolding close
close-Keeps-Tidy os c b str =
    Keeps-bind _ _ (Keeps-if b _ _ (send_disconnect-Keeps Tidy-free os c str) (Keeps-return tt))
      λ _. close_channel-Keeps-Tidy os c

msg_enq_ack-Keeps-Tidy : (c : ℕ) → Keeps Tidy (msg_enq_ack c)
unfolding msg_enq_ack
msg_enq_ack-Keeps-Tidy c = enqueue-Keeps Tidy-free c ack_type [] none

on_message-Keeps-Tidy : (os : Os) (c : ℕ) (t : MsgType) → Keeps Tidy (on_message os c t)
unfolding on_message parse_disconnect
on_message-Keeps-Tidy os c none_type = search keeps_rules
on_message-Keeps-Tidy os c ack_type = search keeps_rules
on_message-Keeps-Tidy os c hello_type = on_hello-Keeps Tidy-free os c
on_message-Keeps-Tidy os c init_type =
    Keeps-bind _ _ (parse_init-Keeps Tidy-free c) λ _. msg_enq_ack-Keeps-Tidy c
on_message-Keeps-Tidy os c add_region_type =
    Keeps-bind _ _ (parse_add_region-Keeps Tidy-free c) λ _. msg_enq_ack-Keeps-Tidy c
on_message-Keeps-Tidy os c add_ring_type =
    Keeps-bind _ _ (parse_add_ring-Keeps Tidy-free c) λ _. msg_enq_ack-Keeps-Tidy c
on_message-Keeps-Tidy os c connect_type =
    Keeps-bind _ _ (parse_connect-Keeps Tidy-free os c) λ _. msg_enq_connected-Keeps Tidy-free c
on_message-Keeps-Tidy os c connected_type = parse_connected-Keeps Tidy-free os c
on_message-Keeps-Tidy os c disconnect_type =
    Keeps-bind _ _ (body-Keeps Tidy-free c)
      λ xs. Keeps-wrap "Failed to disconnect control channel: " _ (close-Keeps-Tidy os c false _)

-- The list is tidy; and after an error the channel is out of the list, or closing it failed as well.
abbrev pub Closed : ℕ → Outcome (Unit {0}) → Type 0
Closed c (done _ s) = Tidy s
Closed c (fail e s) =
    Tidy s × (((e₁ : Error) × ((e₂ : Error) × (e ≡ close_failed e₁ e₂))) ⊎ (In c s.cc_list → ⊥))
Closed c panic = Unit

closing-Leaves :
    (c : ℕ) (e : Error) (o : Outcome (Unit {0}))
    → Leaves Tidy o
    → Succeeds (Out c) o
    → Closed c
        (elim o [ done _ s ↦ fail e s | fail e₁ s ↦ fail (close_failed e e₁) s | panic ↦ panic ])
closing-Leaves c e (done _ s) tidy h = (tidy, inr h.1)
closing-Leaves c e (fail e₁ s) tidy h = (tidy, inl (e, (e₁, refl)))
closing-Leaves c e panic tidy h = tt

pub or_close_channel-Closed :
    (os : Os) (c : ℕ) (o : Outcome (Unit {0})) (s : Socket)
    → Leaves Tidy o
    → Closed c (or_close_channel os c (λ _. o) s)
unfolding or_close_channel
or_close_channel-Closed os c (done _ s') s h = h
or_close_channel-Closed os c (fail e s') s h =
    closing-Leaves c e (close os c true (os.text e) s')
      ((close-Keeps-Tidy os c true (os.text e)).at s' h)
      ((close-Ends os c true (os.text e)).at s' h)
or_close_channel-Closed os c panic s h = tt

handler-Keeps-Tidy :
    (os : Os) (c code : ℕ) (o : Option MsgType)
    → Keeps {0} {A = Unit {0}} Tidy
        (elim o [ none ↦ throw (unknown_message code) | some t ↦ on_message os c t ])
handler-Keeps-Tidy os c code none = search keeps_rules
handler-Keeps-Tidy os c code (some t) = on_message-Keeps-Tidy os c t

deref-Closed :
    (c : ℕ) (o : Option ControlChannel) (f : ControlChannel → M (Unit {0})) (s : Socket)
    → ((ch : ControlChannel) → Closed c (f ch s))
    → Closed c ((deref o >>= f) s)
unfolding ◌>>=◌
deref-Closed c none f s h = tt
deref-Closed c (some ch) f s h = h ch

-- Handling a message, of any type and with any replies of the system, from a state whose list of
-- channels has no reference twice and only references to channels, leaves such a list; and where
-- it ends with an error, the channel is no longer in the list, unless the error says that closing
-- the channel failed too.
pub parse_msg-Closed : (os : Os) (c : ℕ) (s : Socket) → Tidy s → Closed c (parse_msg os c s)
unfolding parse_msg get_channel or_close_channel ◌>>=◌
parse_msg-Closed os c s tidy = deref-Closed c (get_elem? s.channels c) _ s λ ch.
    let code = read_le 2 0 ch.payload in
    let handle = handler-Keeps-Tidy os c code (msg_type_of code) in
    or_close_channel-Closed os c
      (elim (msg_type_of code) as (λ x. M (Unit {0})) [
        | none ↦ throw {A = Unit {0}} (unknown_message code)
        | some t ↦ on_message os c t
      ]
        s)
      s (handle.at s tidy)
