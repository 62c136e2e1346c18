-- ===== src/Session/Delivery.antt =====
-- A channel that receives a datagram, handles its message and sends one of its own (handleEvent of a
-- control channel, memif-new/memif/control_channel.go).
use memif.Prelude.{
  ℕ, ◌≡◌, ◌≢◌, refl, ◌∙◌, sym, arith, true, false, List, [], ◌∷◌, ◌++◌, length, some, get_elem?,
  set, ◌==◌, if◌then◌else◌, lt_length, get_elem?-set_self,
}
use memif.Bytes.{to_le, read_le, copy_at}
use memif.Bytes.Copy.{copy-same_length}
use memif.Types.Os.{Os, Call, Datagram, invalid_message_size}
use memif.Message.{
  msg_size, msg_type_code, MsgType, none_type, ack_type, hello_type, init_type, add_region_type,
  add_ring_type, connect_type, connected_type, disconnect_type,
}
use memif.Setup.Write.{bind-done}
use memif.Channel.Sending.{sent_msg, send_msg-first}
use memif.Channel.Dispatch.{msg_type_of, on_message, or_close_channel, parse_msg}
use memif.Events.{Event, receive, datagram, handle_channel_event}
use memif.Socket.{
  Socket, ControlChannel, ControlMsg, done, ◌>>=◌, return, throw, sys, get_channel, put_channel,
}

-- The system whose next datagram is `d`.
abbrev pub delivering : Os → Datagram → Os
delivering os d = record os { received = λ calls fd. d }

-- The event of a descriptor that can be read.
abbrev pub readable : ℕ → Event
readable fd = record { fd = fd; hup = false; err = false; readable = true }

-- A datagram of full size that begins with the message.
pub record Carries (d : Datagram) (msg : ControlMsg) : Type 0 where
  pub rest : List ℕ
  pub begins : d.payload ≡ msg.buffer ++ rest
  pub full : length d.payload ≡ msg_size

-- Every request is accepted, and recvmsg(2) returns the size of a message.
pub record Willing (os : Os) : Type 0 where
  pub accepts : (calls : List Call) (c : Call) → ((v : ℕ) × (os.reply calls c ≡ some v))
  pub receives : (calls : List Call) (fd : ℕ) → os.reply calls (Call.recvmsg fd) ≡ some msg_size

-- The channel with the datagram, and the socket that has received it.
abbrev pub filled : ControlChannel → Datagram → ControlChannel
filled ch d = record ch { payload = d.payload; control = d.control }

abbrev pub arrived : ℕ → ControlChannel → Datagram → Socket → Socket
arrived c ch d s = record s {
  channels = set s.channels c (filled ch d);
  calls = s.calls ++ (Call.recvmsg ch.fd ∷ []);
}

filled-eq :
    (dst src : List ℕ) → length dst ≡ msg_size → length src ≡ msg_size → copy_at dst 0 src ≡ src
unfolding copy_at
filled-eq dst src full whole = copy-same_length dst src (whole ∙ sym full)

-- The message's type is that of the datagram, but for a message without a type.
pub type_sent :
    (t : MsgType) (body rest : List ℕ)
    → t ≢ none_type
    → msg_type_of (read_le 2 0 ((to_le 2 (msg_type_code t) ++ body) ++ rest)) ≡ some t
unfolding msg_type_of msg_type_code
type_sent none_type body rest known = absurd (known refl)
type_sent ack_type body rest known = refl
type_sent hello_type body rest known = refl
type_sent init_type body rest known = refl
type_sent add_region_type body rest known = refl
type_sent add_ring_type body rest known = refl
type_sent connect_type body rest known = refl
type_sent connected_type body rest known = refl
type_sent disconnect_type body rest known = refl

module _ (os : Os) (willing : Willing os) (c : ℕ) (d : Datagram) where
  receive-arrived :
      (s : Socket) (ch : ControlChannel)
      → get_elem? s.channels c ≡ some ch
      → length ch.payload ≡ msg_size
      → length d.payload ≡ msg_size
      → receive (delivering os d) c s ≡ done msg_size (arrived c ch d s)
  unfolding receive datagram sys get_channel put_channel ◌>>=◌
  receive-arrived s ch there full whole =
      ground
        (arith, there, willing.receives s.calls ch.fd, filled-eq ch.payload d.payload full whole)

  parse_msg-done :
      (s s' : Socket) (ch : ControlChannel) (t : MsgType)
      → get_elem? s.channels c ≡ some ch
      → msg_type_of (read_le 2 0 ch.payload) ≡ some t
      → on_message (delivering os d) c t s ≡ done tt s'
      → parse_msg (delivering os d) c s ≡ done tt s'
  unfolding parse_msg or_close_channel get_channel ◌>>=◌
  parse_msg-done s s' ch t there type ok = ground (arith, there, type, ok)

  -- The message is handled and the first message of the channel's queue is sent.
  pub handle_channel_event-done :
      (s s' : Socket) (ch ch' : ControlChannel) (t : MsgType) (fd : ℕ) (reply : ControlMsg)
      (later : List ControlMsg)
      → get_elem? s.channels c ≡ some ch
      → length ch.payload ≡ msg_size
      → length d.payload ≡ msg_size
      → msg_type_of (read_le 2 0 d.payload) ≡ some t
      → on_message (delivering os d) c t (arrived c ch d s) ≡ done tt s'
      → get_elem? s'.channels c ≡ some ch'
      → ch'.msg_queue ≡ reply ∷ later
      → handle_channel_event (delivering os d) c (readable fd) s
        ≡ done tt (sent_msg (delivering os d) s' c ch' reply later)
  unfolding handle_channel_event return
  handle_channel_event-done s s' ch ch' t fd reply later there full whole type ok there' queue =
      let s₁ = arrived c ch d s in
      let there₁ = get_elem?-set_self s.channels c (filled ch d) (lt_length s.channels c there) in
      bind-done (receive (delivering os d) c) _ msg_size s s₁
        (receive-arrived s ch there full whole)
      ∙ bind-done
          (if msg_size == msg_size then return tt else throw (invalid_message_size msg_size)) _ tt
          s₁ s₁ refl
      ∙ bind-done (parse_msg (delivering os d) c) _ tt s₁ s'
          (parse_msg-done s₁ s' (filled ch d) t there₁ type ok)
      ∙ send_msg-first (delivering os d) willing.accepts c s' ch' reply later there' queue
